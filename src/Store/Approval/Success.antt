-- ===== src/Store/Approval/Success.antt =====
-- What a successful `WaitForApproval` or `DecideApproval` has checked, and what it has written
-- (internal/store/store.go).
use run_state.Base.{
  String, some, none, ok, ◌≡◌, arith, >>=-eq-ok, or_fail-eq-ok, true, false, str_eq, ◌⊎◌, inl, inr,
  guard, or_fail, List, Option-cases, ap, ◌∙◌,
}
use run_state.Task.Json.{Json}
use run_state.Task.Model.{Status, Step, StepStatus, Decision, step_type_approval}
use run_state.Store.Types.{LeaseToken, ApprovalResult, Clock, due}
use run_state.Store.Rows.{TaskRows, find_step, unfinished_before}
use run_state.Store.Lock.{LockedTask, lock_task, validate_ownership}
use run_state.Store.Start.{step_input}
use run_state.Store.Approval.{
  check_awaitable, waiting_rows, wait_for_approval, check_decidable, record_decision, decide_step,
  decide_approval, same_decision,
}

pub record IsAwaitable (locked : LockedTask) (s : Step) (steps : List Step) : Type 0 where
  pub approval : str_eq s.step_type step_type_approval ≡ true
  pub current : s.index ≡ locked.current_step
  pub pending : s.status ≡ StepStatus.pending
  pub attempt : s.attempt ≡ 0
  pub predecessors : unfinished_before s.index steps ≡ false

check_awaitable-eq-ok :
    (locked : LockedTask) (s : Step) (steps : List Step)
    → check_awaitable locked s steps ≡ ok tt
    → IsAwaitable locked s steps
unfolding check_awaitable
check_awaitable-eq-ok locked s steps h = record {
  approval = ground arith;
  current = ground arith;
  pending = ground arith;
  attempt = ground arith;
  predecessors = ground arith;
}

pub record Awaited (c : Clock) (lease : LeaseToken) (id : String) (r : TaskRows) (r' : TaskRows)
    : Type 0 where
  pub step : Step
  pub input : Json
  pub owned : validate_ownership (lock_task c r.task) lease ≡ ok tt
  pub found : find_step id r.steps ≡ some step
  pub awaitable : IsAwaitable (lock_task c r.task) step r.steps
  pub resolved : step_input (lock_task c r.task) step r.steps ≡ ok input
  pub rows : r' ≡ waiting_rows c input step r

pub wait_for_approval-Awaited :
    (c : Clock) (lease : LeaseToken) (id : String) (r : TaskRows) {u : Unit {0}} {r' : TaskRows}
    → wait_for_approval c lease id r ≡ ok (u, r')
    → Awaited c lease id r r'
unfolding wait_for_approval
wait_for_approval-Awaited c lease id r h =
    let (u, owned, h) = >>=-eq-ok (validate_ownership (lock_task c r.task) lease) _ h in
    let (s, found, h) = >>=-eq-ok (or_fail (find_step id r.steps) _) _ h in
    let (v, checked, h) = >>=-eq-ok (check_awaitable (lock_task c r.task) s r.steps) _ h in
    let (input, resolved, h) = >>=-eq-ok (step_input (lock_task c r.task) s r.steps) _ h in
    record {
      step = s;
      input = input;
      owned = owned;
      found = or_fail-eq-ok (find_step id r.steps) _ found;
      awaitable = check_awaitable-eq-ok (lock_task c r.task) s r.steps checked;
      resolved = resolved;
      rows = ground arith;
    }

pub record IsDecidable (locked : LockedTask) (s : Step) : Type 0 where
  pub waiting : locked.status ≡ Status.waiting_approval
  pub approval : str_eq s.step_type step_type_approval ≡ true
  pub step_waiting : s.status ≡ StepStatus.waiting_approval
  pub current : s.index ≡ locked.current_step
  pub uncancelled : locked.cancel_requested ≡ false
  pub in_time : due locked.deadline_at locked.database_now ≡ false

check_decidable-eq-ok :
    (locked : LockedTask) (s : Step) → check_decidable locked s ≡ ok tt → IsDecidable locked s
unfolding check_decidable
check_decidable-eq-ok locked s h = record {
  waiting = ground arith;
  approval = ground arith;
  step_waiting = ground arith;
  current = ground arith;
  uncancelled = ground arith;
  in_time = ground arith;
}

-- A fresh decision.
pub record Decided (c : Clock) (id : String) (decision : Decision) (r : TaskRows)
    (a : ApprovalResult) (r' : TaskRows) : Type 0 where
  pub step : Step
  pub found : find_step id r.steps ≡ some step
  pub undecided : step.approval_decision ≡ none
  pub decidable : IsDecidable (lock_task c r.task) step
  pub result : a ≡ (record_decision c decision step r).0
  pub rows : r' ≡ (record_decision c decision step r).1

-- The replay of a saved decision.
pub record Replayed (id : String) (decision : Decision) (r : TaskRows) (a : ApprovalResult)
    (r' : TaskRows) : Type 0 where
  pub step : Step
  pub found : find_step id r.steps ≡ some step
  pub saved : step.approval_decision ≡ some decision
  pub result : a ≡ record { decision = decision; task_status = r.task.status }
  pub rows : r' ≡ r

same_decision-eq : (d e : Decision) → same_decision d e ≡ true → d ≡ e
same_decision-eq d e h = ground arith

pub decide_approval-cases :
    (c : Clock) (id : String) (decision : Decision) (r : TaskRows) {a : ApprovalResult}
    {r' : TaskRows}
    → decide_approval c id decision r ≡ ok (a, r')
    → Decided c id decision r a r' ⊎ Replayed id decision r a r'
unfolding decide_approval decide_step
decide_approval-cases c id decision r h =
    let (s, found, h) = >>=-eq-ok (or_fail (find_step id r.steps) _) _ h in
    let found = or_fail-eq-ok (find_step id r.steps) _ found in
    elim (Option-cases s.approval_decision) [
      | inl e ↦
          let (u, checked, h) =
            >>=-eq-ok (check_decidable (lock_task c r.task) s) _ (rw (e, decide_step) at h) in
          inl (record {
            step = s;
            found = found;
            undecided = e;
            decidable = check_decidable-eq-ok (lock_task c r.task) s checked;
            result = ground arith;
            rows = ground arith;
          })
      | inr (d, e) ↦
          let (u, same, h) =
            >>=-eq-ok (guard (same_decision d decision) _) _ (rw (e, decide_step) at h) in
          let same = same_decision-eq d decision (ground arith) in
          inr (record {
            step = s;
            found = found;
            saved = e ∙ ap some same;
            result = ground arith;
            rows = ground arith;
          })
    ]
