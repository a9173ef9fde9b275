-- ===== src/Store/Start.antt =====
-- `StartStep` (internal/store/store.go), and the reading of a step's input that it shares with
-- `WaitForApproval`.
pub mod Success
use run_state.Base.{
  ℕ, zero, suc, String, Option, none, some, Bool, true, false, not, ◌&&◌, List, [], ◌∷◌, ◌++◌, ◌+◌,
  ltb, ◌==◌, str_eq, if◌then◌else◌, ok, err, guard, or_fail, ◌>>◌, ◌>>=◌, Result,
}
use run_state.Task.Json.{Json}
use run_state.Task.Resolve.{ResolveError, resolve_input}
use run_state.Task.Model.{Step, StepStatus, Payload, text, int, step_started, step_type_approval}
use run_state.Store.Types.{
  Outcome, LeaseToken, StepAttempt, Clock, conflict, no_previous_output, resolve,
}
use run_state.Store.Rows.{
  TaskRows, is_succeeded_step, find_step, step_at, update_step, unfinished_before, event, entry,
}
use run_state.Store.Lock.{LockedTask, lock_task, validate_ownership}

-- `SELECT output FROM task_steps WHERE step_index = $2 - 1 AND status = 'SUCCEEDED'`, which the code
-- runs only for a step that is not the first.
unfoldable pub previous_output : ℕ → List Step → Outcome (Option Json)
previous_output zero steps = ok none
previous_output (suc index) steps = elim (step_at index steps) [
  | none ↦ err no_previous_output
  | some s ↦ if is_succeeded_step s.status then ok s.output else err no_previous_output
]

abbrev pub lift_resolve : Result ResolveError Json → Outcome Json
lift_resolve (ok value) = ok value
lift_resolve (err e) = err (resolve e)

-- The input that was persisted by an earlier attempt, or a fresh resolution.
unfoldable pub step_input : LockedTask → Step → List Step → Outcome Json
unfolding previous_output
step_input locked s steps = elim s.resolved_input [
  | some persisted ↦ ok persisted
  | none ↦ do
    previous ← previous_output s.index steps
    lift_resolve (resolve_input (some s.input) previous (some locked.checkpoint))
]

abbrev pub is_startable : StepStatus → Bool
is_startable StepStatus.pending = true
is_startable StepStatus.failed = true
is_startable _ = false

abbrev pub begin_attempt : Clock → Json → Step → Step
begin_attempt c input s = record s {
  status = StepStatus.running;
  attempt = s.attempt + 1;
  resolved_input = some input;
  error = none;
  started_at = some c.write;
  finished_at = none;
}

abbrev pub attempt_of : LeaseToken → Json → Step → StepAttempt
attempt_of lease input s = record {
  step_id = s.id;
  task_id = lease.task_id;
  step_index = s.index;
  step_type = s.step_type;
  attempt = s.attempt + 1;
  max_attempts = s.max_attempts;
  idempotency_key = s.idempotency_key;
  resolved_input = some input;
  timeout_seconds = s.timeout_seconds;
}

abbrev pub started_payload : LeaseToken → StepAttempt → Payload
started_payload lease a =
    entry "step_id" (text a.step_id)
    ∷ entry "step_index" (int a.step_index)
    ∷ entry "attempt" (int a.attempt)
    ∷ entry "worker_id" (text lease.worker_id)
    ∷ entry "lease_version" (int lease.lease_version)
    ∷ []

-- The guards of `StartStep` on the step that it found.
unfoldable pub check_startable : LockedTask → Step → List Step → Outcome (Unit {0})
check_startable locked s steps = do
  guard (not (str_eq s.step_type step_type_approval)) conflict
  guard ((s.index == locked.current_step) && is_startable s.status && ltb s.attempt s.max_attempts)
      conflict
  guard (not (unfinished_before s.index steps)) conflict

abbrev pub started_rows : Clock → LeaseToken → Json → Step → TaskRows → TaskRows
started_rows c lease input s r = record r {
  steps = update_step s.id (begin_attempt c input) r.steps;
  events = r.events ++ event c step_started (started_payload lease (attempt_of lease input s)) ∷ [];
}

unfoldable pub start_step :
    Clock → LeaseToken → String → TaskRows → Outcome (StepAttempt × TaskRows)
start_step c lease step_id r = do
  let locked = lock_task c r.task
  validate_ownership locked lease
  s ← or_fail (find_step step_id r.steps) conflict
  check_startable locked s r.steps
  input ← step_input locked s r.steps
  ok (attempt_of lease input s, started_rows c lease input s r)
