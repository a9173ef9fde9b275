-- ===== src/Store/Invariant/Wake.antt =====
-- Well-formedness after the wake-ups and the scheduler's transition (internal/store/store.go).
use run_state.Base.{
  ◌⊎◌, ◌≡◌, subst, some, refl, none, length, inr, inl, false, arith, Bool-cases, ℕ,
}
use run_state.Store.Types.{due, timed_out_outcome, cancelled_outcome, Clock}
use run_state.Store.Invariant.{IsWellFormed, IsConsistent, IsCoherent}
use run_state.Task.Model.{Task, Step, Status}
use run_state.Store.Rows.{is_terminal_status, TaskRows}
use run_state.Store.Invariant.Control.{
  timed_out-IsControl, finish_controlled_task-IsWellFormed, cancelled-IsControl,
}
use run_state.Store.Invariant.Updates.{columns-IsWellFormed}
use run_state.Store.Control.{wake, wake_scheduled_task, wake_retry_task, control_selected}

woken-IsConsistent :
    (status : Status) (current : ℕ) (x : Step)
    → (status ≡ Status.retry_wait) ⊎ (status ≡ Status.scheduled)
    → IsConsistent status current x
    → IsConsistent Status.runnable current x
woken-IsConsistent status current x from h = ground arith

retry_woken-IsCoherent :
    (c : Clock) (t : Task) (n : ℕ)
    → t.status ≡ Status.retry_wait
    → IsCoherent t n
    → IsCoherent (record t { status = Status.runnable; retry_at = none; updated_at = c.write }) n
retry_woken-IsCoherent c t n waiting h = ground arith

scheduled_woken-IsCoherent :
    (c : Clock) (t : Task) (n : ℕ)
    → t.status ≡ Status.scheduled
    → IsCoherent t n
    → IsCoherent (record t { status = Status.runnable; updated_at = c.write }) n
scheduled_woken-IsCoherent c t n waiting h = ground arith

module _ (c : Clock) {r : TaskRows} (wf : IsWellFormed r) where
  pub wake_retry_task-IsWellFormed :
      r.task.status ≡ Status.retry_wait → IsWellFormed (wake_retry_task c r)
  unfolding wake_retry_task
  wake_retry_task-IsWellFormed waiting =
      columns-IsWellFormed wf
        (record r.task { status = Status.runnable; retry_at = none; updated_at = c.write }) _
        (λ x h. woken-IsConsistent r.task.status r.task.current_step x (inl waiting) h)
        (retry_woken-IsCoherent c r.task (length r.steps) waiting wf.task)

  pub wake_scheduled_task-IsWellFormed :
      r.task.status ≡ Status.scheduled → IsWellFormed (wake_scheduled_task c r)
  unfolding wake_scheduled_task
  wake_scheduled_task-IsWellFormed waiting =
      columns-IsWellFormed wf (record r.task { status = Status.runnable; updated_at = c.write }) _
        (λ x h. woken-IsConsistent r.task.status r.task.current_step x (inr waiting) h)
        (scheduled_woken-IsCoherent c r.task (length r.steps) waiting wf.task)

  wake-IsWellFormed :
      (status : Status) {r' : TaskRows}
      → r.task.status ≡ status
      → wake c status r ≡ some r'
      → IsWellFormed r'
  wake-IsWellFormed Status.retry_wait e h =
      subst IsWellFormed (ground arith) (wake_retry_task-IsWellFormed e)
  wake-IsWellFormed Status.scheduled e h =
      subst IsWellFormed (ground arith) (wake_scheduled_task-IsWellFormed e)
  wake-IsWellFormed _ e h = cc

  pub control_selected-IsWellFormed :
      {r' : TaskRows}
      → is_terminal_status r.task.status ≡ false
      → control_selected c r ≡ some r'
      → IsWellFormed r'
  unfolding control_selected
  control_selected-IsWellFormed ongoing h = elim (Bool-cases r.task.cancel_requested) [
    | inl e ↦
        subst IsWellFormed (ground arith)
          (finish_controlled_task-IsWellFormed c cancelled_outcome cancelled-IsControl wf ongoing)
    | inr e ↦ elim (Bool-cases (due r.task.deadline_at c.lock)) [
      | inl late ↦
          subst IsWellFormed (ground arith)
            (finish_controlled_task-IsWellFormed c timed_out_outcome timed_out-IsControl wf ongoing)
      | inr on_time ↦ wake-IsWellFormed r.task.status refl (ground arith)
    ]
  ]
