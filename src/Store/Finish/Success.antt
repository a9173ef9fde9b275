-- ===== src/Store/Finish/Success.antt =====
-- What a successful `FinishStep` has checked, and what it has written (internal/store/store.go).
use run_state.Base.{
  ℕ, some, ok, ◌≡◌, arith, >>=-eq-ok, or_fail-eq-ok, true, false, str_eq, ◌⊎◌, inl, inr, or_fail,
  ◌+◌, Bool-cases,
}
use run_state.Task.Model.{Step, StepStatus}
use run_state.Store.Types.{LeaseToken, StepAttempt, StepOutcome, Clock}
use run_state.Store.Rows.{TaskRows, find_step}
use run_state.Store.Lock.{LockedTask, lock_task, validate_ownership}
use run_state.Store.Finish.{
  limit_outcome, finish_failed, finish_succeeded, check_outcome, finish_limited, check_finishing,
  finish_step,
}

pub record IsFinishing (locked : LockedTask) (a : StepAttempt) (s : Step) : Type 0 where
  pub running : s.status ≡ StepStatus.running
  pub attempt : s.attempt ≡ a.attempt
  pub current : s.index ≡ locked.current_step

check_finishing-eq-ok :
    (locked : LockedTask) (a : StepAttempt) (s : Step)
    → check_finishing locked a s ≡ ok tt
    → IsFinishing locked a s
unfolding check_finishing
check_finishing-eq-ok locked a s h = record {
  running = ground arith;
  attempt = ground arith;
  current = ground arith;
}

-- The attempt with the budget that is persisted.
abbrev pub budgeted : StepAttempt → Step → StepAttempt
budgeted a s = record a { max_attempts = s.max_attempts }

pub record Finishing (c : Clock) (lease : LeaseToken) (a : StepAttempt) (o : StepOutcome)
    (r : TaskRows) (r' : TaskRows) : Type 0 where
  pub step : Step
  pub owned : validate_ownership (lock_task c r.task) lease ≡ ok tt
  pub found : find_step a.step_id r.steps ≡ some step
  pub finishing : IsFinishing (lock_task c r.task) a step
  pub branch :
      ((str_eq (limit_outcome o).error "" ≡ false)
        × (r' ≡ finish_failed c lease (budgeted a step) (limit_outcome o) r))
      ⊎ ((str_eq (limit_outcome o).error "" ≡ true)
          × (check_outcome (limit_outcome o) ≡ ok tt)
          × (r' ≡ finish_succeeded c lease (budgeted a step) (limit_outcome o) (step.index + 1) r))

finish_limited-cases :
    (c : Clock) (lease : LeaseToken) (a : StepAttempt) (o : StepOutcome) (index : ℕ) (r : TaskRows)
    {r' : TaskRows}
    → finish_limited c lease a o index r ≡ ok (tt, r')
    → ((str_eq o.error "" ≡ false) × (r' ≡ finish_failed c lease a o r))
      ⊎ ((str_eq o.error "" ≡ true)
          × (check_outcome o ≡ ok tt)
          × (r' ≡ finish_succeeded c lease a o (index + 1) r))
unfolding finish_limited
finish_limited-cases c lease a o index r h = elim (Bool-cases (str_eq o.error "")) [
  | inl e ↦
      let (u, checked, h) = >>=-eq-ok (check_outcome o) _ (rw (e, finish_limited) at h) in
      inr (e, checked, ground arith)
  | inr e ↦ inl (e, ground arith)
]

pub finish_step-Finishing :
    (c : Clock) (lease : LeaseToken) (a : StepAttempt) (o : StepOutcome) (r : TaskRows)
    {r' : TaskRows}
    → finish_step c lease a o r ≡ ok (tt, r')
    → Finishing c lease a o r r'
unfolding finish_step
finish_step-Finishing c lease a o r h =
    let (u, owned, h) = >>=-eq-ok (validate_ownership (lock_task c r.task) lease) _ h in
    let (s, found, h) = >>=-eq-ok (or_fail (find_step a.step_id r.steps) _) _ h in
    let (v, checked, h) = >>=-eq-ok (check_finishing (lock_task c r.task) a s) _ h in
    record {
      step = s;
      owned = owned;
      found = or_fail-eq-ok (find_step a.step_id r.steps) _ found;
      finishing = check_finishing-eq-ok (lock_task c r.task) a s checked;
      branch = finish_limited-cases c lease (budgeted a s) (limit_outcome o) s.index r h;
    }
