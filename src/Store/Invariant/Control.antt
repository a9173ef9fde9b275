-- ===== src/Store/Invariant/Control.antt =====
-- Well-formedness after the control transitions (internal/store/store.go).
use run_state.Base.{
  ◌≤◌, ℕ, subst, ok, inr, Option, Bool-cases, ◌⊎◌, ◌≡◌, ◌<◌, true, some, refl, none, length, inl,
  false, arith, String,
}
use run_state.Store.Rows.Steps.{
  step_at-none, index-step_at_lt, All-step_at, index-step_at, find_step-step_at,
}
use run_state.Store.Types.{
  timed_out_outcome, cancelled_outcome, LeaseToken, ControlOutcome, Clock, CancelResult,
}
use run_state.Store.Invariant.{IsCoherent, agrees, IsWellFormed, IsConsistent}
use run_state.Task.Model.{Status, Task, StepStatus, Step}
use run_state.Store.Rows.{step_at, is_running, TaskRows, is_terminal_status, is_succeeded_step}
use run_state.Store.Control.{
  timeout_owned_task, is_timed_out, is_cancelled, finish_controlled_task, finish_controlled_step,
  close_task, cancel_task, cancel_owned_task, control_task, control_step,
}
use run_state.Store.Invariant.Updates.{stay-IsWellFormed, columns-IsWellFormed, absent-IsWellFormed}
use run_state.Store.Lock.{owns_active_lease}

control_step-IsConsistent :
    (c : Clock) (reason : String) (status status' : Status) (s : Step) {current : ℕ}
    → s.index ≡ current
    → agrees status' StepStatus.failed ≡ true
    → is_terminal_status status' ≡ true
    → IsConsistent status current s
    → IsConsistent status' current (control_step c reason s)
control_step-IsConsistent c reason status status' s here ag terminal h = ground arith

-- The two outcomes of `finishControlledTask`.
abbrev pub IsControl : ControlOutcome → Type 0
IsControl o = (o.status ≡ Status.cancelled) ⊎ (o.status ≡ Status.timed_out)

control_task-IsCoherent :
    (c : Clock) (o : ControlOutcome) (t : Task) (n : ℕ)
    → IsControl o
    → is_terminal_status t.status ≡ false
    → (t.current_step < n) ⊎ (n ≡ 0)
    → IsCoherent t n
    → IsCoherent (control_task c o.status t) n
control_task-IsCoherent c o t n control ongoing range h = ground arith

-- The current step of a task that goes on has not succeeded.
open_step :
    (status : Status) (current : ℕ) (s : Step)
    → is_terminal_status status ≡ false
    → s.index ≡ current
    → IsConsistent status current s
    → is_succeeded_step s.status ≡ false
open_step status current s ongoing here h = ground arith

-- A task that goes on stands at a step, unless it has none.
empty_or_open :
    (t : Task) (n : ℕ)
    → is_terminal_status t.status ≡ false
    → IsCoherent t n
    → n ≤ t.current_step
    → (t.current_step < n) ⊎ (n ≡ 0)
empty_or_open t n ongoing h past = ground arith

module _ (c : Clock) (o : ControlOutcome) (control : IsControl o) {r : TaskRows}
    (wf : IsWellFormed r) (ongoing : is_terminal_status r.task.status ≡ false) where
  controlled_missing-IsWellFormed :
      step_at r.task.current_step r.steps ≡ none → IsWellFormed (close_task c o r)
  controlled_missing-IsWellFormed h =
      absent-IsWellFormed wf (control_task c o.status r.task) _ h refl (
        control_task-IsCoherent c o r.task (length r.steps) control ongoing
          (empty_or_open r.task (length r.steps) ongoing wf.task
            (step_at-none r.task.current_step r.steps wf.indexed h))
          wf.task)

  controlled_found-IsWellFormed :
      {s : Step}
      → step_at r.task.current_step r.steps ≡ some s
      → IsWellFormed (close_task c o (finish_controlled_step c o (some s) r))
  unfolding finish_controlled_step
  controlled_found-IsWellFormed {s} found =
      let here = index-step_at r.task.current_step r.steps found in
      let consistent = All-step_at _ r.task.current_step r.steps found wf.steps in
      rw
        (
          open_step r.task.status r.task.current_step s ongoing here consistent,
          finish_controlled_step,
        )
        (stay-IsWellFormed wf (control_task c o.status r.task) _ s.id (control_step c o.reason)
          (find_step-step_at r.task.current_step 0 r.steps found wf.indexed) here
          (record { id = λ s. refl; index = λ s. refl }) refl
          (control_step-IsConsistent c o.reason r.task.status o.status s here (ground arith)
            (ground arith) consistent)
          (control_task-IsCoherent c o r.task (length r.steps) control ongoing
            (inl (omega (arith, index-step_at_lt r.task.current_step 0 r.steps found wf.indexed)))
            wf.task))

  controlled_step-IsWellFormed :
      (s : Option Step)
      → step_at r.task.current_step r.steps ≡ s
      → IsWellFormed (close_task c o (finish_controlled_step c o s r))
  unfolding finish_controlled_step
  controlled_step-IsWellFormed none h = controlled_missing-IsWellFormed h
  controlled_step-IsWellFormed (some s) h = controlled_found-IsWellFormed h

  pub finish_controlled_task-IsWellFormed : IsWellFormed (finish_controlled_task c o r)
  unfolding finish_controlled_task
  finish_controlled_task-IsWellFormed =
      controlled_step-IsWellFormed (step_at r.task.current_step r.steps) refl

pub cancelled-IsControl : IsControl cancelled_outcome
cancelled-IsControl = inl refl

pub timed_out-IsControl : IsControl timed_out_outcome
timed_out-IsControl = inr refl

module _ (c : Clock) (lease : LeaseToken) (r : TaskRows) {r' : TaskRows} (wf : IsWellFormed r) where
  pub timeout_owned_task-IsWellFormed : timeout_owned_task c lease r ≡ ok (tt, r') → IsWellFormed r'
  unfolding timeout_owned_task owns_active_lease
  timeout_owned_task-IsWellFormed h = elim (Bool-cases (is_timed_out r.task.status)) [
    | inl e ↦ subst IsWellFormed (ground arith) wf
    | inr e ↦ subst IsWellFormed (ground arith) (
        finish_controlled_task-IsWellFormed c timed_out_outcome timed_out-IsControl wf
          (ground arith))
  ]

  pub cancel_owned_task-IsWellFormed : cancel_owned_task c lease r ≡ ok (tt, r') → IsWellFormed r'
  unfolding cancel_owned_task owns_active_lease
  cancel_owned_task-IsWellFormed h = elim (Bool-cases (is_cancelled r.task.status)) [
    | inl e ↦ subst IsWellFormed (ground arith) wf
    | inr e ↦ subst IsWellFormed (ground arith) (
        finish_controlled_task-IsWellFormed c cancelled_outcome cancelled-IsControl wf
          (ground arith))
  ]

requested-IsWellFormed :
    (c : Clock) {r : TaskRows}
    → IsWellFormed r
    → IsWellFormed
        (record r { task = record r.task { cancel_requested = true; updated_at = c.write } })
requested-IsWellFormed c {r} wf =
    columns-IsWellFormed wf (record r.task { cancel_requested = true; updated_at = c.write })
      r.events (λ x p. p) (ground arith)

pub cancel_task-IsWellFormed :
    (c : Clock) (r : TaskRows) {a : CancelResult} {r' : TaskRows}
    → IsWellFormed r
    → cancel_task c r ≡ ok (a, r')
    → IsWellFormed r'
unfolding cancel_task
cancel_task-IsWellFormed c r wf h = elim (Bool-cases (is_terminal_status r.task.status)) [
  | inl e ↦ subst IsWellFormed (ground arith) wf
  | inr e ↦ elim (Bool-cases (is_running r.task.status)) [
    | inl running ↦ subst IsWellFormed (ground arith) (requested-IsWellFormed c wf)
    | inr idle ↦
        subst IsWellFormed (ground arith)
          (finish_controlled_task-IsWellFormed c cancelled_outcome cancelled-IsControl wf e)
  ]
]
