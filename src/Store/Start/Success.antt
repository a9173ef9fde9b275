-- ===== src/Store/Start/Success.antt =====
-- What a successful `StartStep` has checked, and what it has written (internal/store/store.go).
use run_state.Base.{
  String, some, ok, ◌≡◌, ◌<◌, arith, >>=-eq-ok, or_fail-eq-ok, false, str_eq, ◌⊎◌, or_fail, List,
}
use run_state.Task.Json.{Json}
use run_state.Task.Model.{Step, StepStatus, step_type_approval}
use run_state.Store.Types.{LeaseToken, StepAttempt, Clock}
use run_state.Store.Rows.{TaskRows, find_step, unfinished_before}
use run_state.Store.Lock.{LockedTask, lock_task, validate_ownership}
use run_state.Store.Start.{step_input, check_startable, attempt_of, started_rows, start_step}

pub record IsStartable (locked : LockedTask) (s : Step) (steps : List Step) : Type 0 where
  pub ordinary : str_eq s.step_type step_type_approval ≡ false
  pub current : s.index ≡ locked.current_step
  pub ready : (s.status ≡ StepStatus.pending) ⊎ (s.status ≡ StepStatus.failed)
  pub budget : s.attempt < s.max_attempts
  pub predecessors : unfinished_before s.index steps ≡ false

pub check_startable-eq-ok :
    (locked : LockedTask) (s : Step) (steps : List Step)
    → check_startable locked s steps ≡ ok tt
    → IsStartable locked s steps
unfolding check_startable
check_startable-eq-ok locked s steps h = record {
  ordinary = ground arith;
  current = ground arith;
  ready = ground arith;
  budget = ground arith;
  predecessors = ground arith;
}

pub record Started (c : Clock) (lease : LeaseToken) (id : String) (r : TaskRows) (a : StepAttempt)
    (r' : TaskRows) : Type 0 where
  pub step : Step
  pub input : Json
  pub owned : validate_ownership (lock_task c r.task) lease ≡ ok tt
  pub found : find_step id r.steps ≡ some step
  pub startable : IsStartable (lock_task c r.task) step r.steps
  pub resolved : step_input (lock_task c r.task) step r.steps ≡ ok input
  pub attempt : a ≡ attempt_of lease input step
  pub rows : r' ≡ started_rows c lease input step r

pub start_step-Started :
    (c : Clock) (lease : LeaseToken) (id : String) (r : TaskRows) {a : StepAttempt} {r' : TaskRows}
    → start_step c lease id r ≡ ok (a, r')
    → Started c lease id r a r'
unfolding start_step
start_step-Started c lease id r h =
    let (u, owned, h) = >>=-eq-ok (validate_ownership (lock_task c r.task) lease) _ h in
    let (s, found, h) = >>=-eq-ok (or_fail (find_step id r.steps) _) _ h in
    let (v, checked, h) = >>=-eq-ok (check_startable (lock_task c r.task) s r.steps) _ h in
    let (input, resolved, h) = >>=-eq-ok (step_input (lock_task c r.task) s r.steps) _ h in
    record {
      step = s;
      input = input;
      owned = owned;
      found = or_fail-eq-ok (find_step id r.steps) _ found;
      startable = check_startable-eq-ok (lock_task c r.task) s r.steps checked;
      resolved = resolved;
      attempt = ground arith;
      rows = ground arith;
    }
