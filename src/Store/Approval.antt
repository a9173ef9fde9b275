-- ===== src/Store/Approval.antt =====
-- `WaitForApproval` and `DecideApproval` (internal/store/store.go).
pub mod Success
use run_state.Base.{
  ℕ, String, Option, none, some, Bool, true, false, not, ◌&&◌, ◌||◌, List, [], ◌∷◌, ◌++◌, ◌+◌, ◌==◌,
  str_eq, if◌then◌else◌, ok, guard, or_fail, ◌>>◌, ◌>>=◌, length,
}
use run_state.Task.Json.{Json}
use run_state.Task.Model.{
  Status, Task, Step, StepStatus, Decision, approved, rejected, Payload, Event, text, int,
  step_type_approval, task_waiting_approval, task_approved, task_rejected, task_succeeded,
  task_failed,
}
use run_state.Store.Types.{Outcome, LeaseToken, ApprovalResult, Clock, conflict, not_found, due}
use run_state.Store.Rows.{
  TaskRows, is_waiting_approval, find_step, update_step, unfinished_before, event, entry,
}
use run_state.Store.Lock.{LockedTask, lock_task, validate_ownership}
use run_state.Store.Start.{step_input}

abbrev pub is_pending_step : StepStatus → Bool
is_pending_step StepStatus.pending = true
is_pending_step _ = false

abbrev pub is_waiting_step : StepStatus → Bool
is_waiting_step StepStatus.waiting_approval = true
is_waiting_step _ = false

-- The guards of `WaitForApproval` on the step that it found.
unfoldable pub check_awaitable : LockedTask → Step → List Step → Outcome (Unit {0})
check_awaitable locked s steps = do
  guard
      (str_eq s.step_type step_type_approval
        && (s.index == locked.current_step)
        && is_pending_step s.status
        && (s.attempt == 0))
      conflict
  guard (not (unfinished_before s.index steps)) conflict

abbrev pub await_decision : Clock → Json → Step → Step
await_decision c input s = record s {
  status = StepStatus.waiting_approval;
  resolved_input = some input;
  error = none;
  started_at = some c.write;
  finished_at = none;
}

-- `UPDATE tasks SET status = $2, current_step = $3, worker_id = NULL, lease_expires_at = NULL, retry_at = NULL`
abbrev pub moved : Clock → Status → ℕ → Task → Task
moved c status current_step t = record t {
  status = status;
  current_step = current_step;
  worker_id = none;
  lease_expires_at = none;
  retry_at = none;
  updated_at = c.write;
}

abbrev pub waiting_payload : Step → Payload
waiting_payload s = entry "step_id" (text s.id) ∷ entry "step_index" (int s.index) ∷ []

abbrev pub waiting_rows : Clock → Json → Step → TaskRows → TaskRows
waiting_rows c input s r = record r {
  task = moved c Status.waiting_approval r.task.current_step r.task;
  steps = update_step s.id (await_decision c input) r.steps;
  events = r.events ++ event c task_waiting_approval (waiting_payload s) ∷ [];
}

unfoldable pub wait_for_approval :
    Clock → LeaseToken → String → TaskRows → Outcome (Unit {0} × TaskRows)
wait_for_approval c lease step_id r = do
  let locked = lock_task c r.task
  validate_ownership locked lease
  s ← or_fail (find_step step_id r.steps) conflict
  check_awaitable locked s r.steps
  input ← step_input locked s r.steps
  ok (tt, waiting_rows c input s r)

abbrev pub decision_text : Decision → String
decision_text approved = "approved"
decision_text rejected = "rejected"

-- `*persistedDecision == decision`
abbrev pub same_decision : Decision → Decision → Bool
same_decision approved approved = true
same_decision rejected rejected = true
same_decision _ _ = false

abbrev pub decided_payload : Step → Decision → Payload
decided_payload s decision =
    entry "step_id" (text s.id)
    ∷ entry "step_index" (int s.index)
    ∷ entry "decision" (text (decision_text decision))
    ∷ []

abbrev pub approve_step : Clock → Step → Step
approve_step c s = record s {
  approval_decision = some approved;
  status = StepStatus.succeeded;
  error = none;
  finished_at = some c.write;
}

abbrev pub reject_step : Clock → Step → Step
reject_step c s = record s {
  approval_decision = some rejected;
  status = StepStatus.failed;
  error = some "approval_rejected";
  finished_at = some c.write;
}

-- The status that follows an approval: of the last step `SUCCEEDED`, of another `RUNNABLE`.
abbrev pub status_after_approval : ℕ → ℕ → Status
status_after_approval next_step step_count =
    if next_step == step_count then Status.succeeded else Status.runnable

-- The two branches of `DecideApproval` on a step that waits.
unfoldable pub record_decision : Clock → Decision → Step → TaskRows → ApprovalResult × TaskRows
record_decision c approved s r =
    let status = status_after_approval (s.index + 1) (length r.steps) in
    let payload = decided_payload s approved in
    let completion : List Event =
      if s.index + 1 == length r.steps then event c task_succeeded payload ∷ [] else [] in
    (
      record { decision = approved; task_status = status },
      record r {
        task = moved c status (s.index + 1) r.task;
        steps = update_step s.id (approve_step c) r.steps;
        events = r.events ++ event c task_approved payload ∷ completion;
      },
    )
record_decision c rejected s r =
    let payload = decided_payload s rejected in
    (
      record { decision = rejected; task_status = Status.failed },
      record r {
        task = moved c Status.failed r.task.current_step r.task;
        steps = update_step s.id (reject_step c) r.steps;
        events = r.events ++ event c task_rejected payload ∷ event c task_failed payload ∷ [];
      },
    )

-- The guards on a step without a saved decision.
unfoldable pub check_decidable : LockedTask → Step → Outcome (Unit {0})
check_decidable locked s = do
  guard
      (is_waiting_approval locked.status
        && str_eq s.step_type step_type_approval
        && is_waiting_step s.status
        && (s.index == locked.current_step))
      conflict
  guard (not (locked.cancel_requested || due locked.deadline_at locked.database_now)) conflict

-- A saved decision is replayed if it is the same one.
unfoldable pub decide_step :
    Clock → Decision → TaskRows → Step → Option Decision → Outcome (ApprovalResult × TaskRows)
unfolding record_decision
decide_step c decision r s (some persisted) = do
  guard (same_decision persisted decision) conflict
  ok (record { decision = persisted; task_status = r.task.status }, r)
decide_step c decision r s none = do
  check_decidable (lock_task c r.task) s
  ok (record_decision c decision s r)

unfoldable pub decide_approval :
    Clock → String → Decision → TaskRows → Outcome (ApprovalResult × TaskRows)
decide_approval c step_id decision r = do
  s ← or_fail (find_step step_id r.steps) not_found
  decide_step c decision r s s.approval_decision
