-- ===== src/Store/Invariant/Finish.antt =====
-- Well-formedness after `FinishStep` (internal/store/store.go).
use run_state.Base.{
  Option, refl, inr, inl, length, ℕ, some, true, ◌+◌, ok, ◌==◌, arith, ◌<◌, ◌≡◌, if◌then◌else◌,
}
use run_state.Store.Types.{StepOutcome, StepAttempt, Clock, LeaseToken}
use run_state.Task.Json.{Json}
use run_state.Task.Model.{Task, StepStatus, Status, Step}
use run_state.Store.Rows.{find_step, TaskRows}
use run_state.Store.Invariant.{IsWellFormed, IsConsistent, IsCoherent, agrees}
use run_state.Store.Finish.{
  nullable_json, limit_outcome, finish_step, fail_task, advance_task, succeed_step, delay_seconds,
  fail_step, complete_task, retry_task, finish_succeeded, finish_failed, retrying,
}
use run_state.Store.Finish.Success.{finish_step-Finishing, IsFinishing, budgeted}
use run_state.Store.Invariant.Start.{running-validate_ownership}
use run_state.Store.Rows.Steps.{index-find_step_lt, All-find_step}
use run_state.Store.Invariant.Updates.{stay-IsWellFormed, advance-IsWellFormed}
use run_state.Store.Lock.{lock_task}

fail_step-IsConsistent :
    (c : Clock) (a : StepAttempt) (o : StepOutcome) (status : Status) (s : Step) {current : ℕ}
    → s.index ≡ current
    → s.attempt ≡ a.attempt
    → IsConsistent status current s
    → IsConsistent
        (if retrying (budgeted a s) o then Status.retry_wait else Status.failed)
        current
        (fail_step c o.error s)
fail_step-IsConsistent c a o status s here same h = ground arith

-- The task after a failed attempt.
abbrev failed_task : Clock → StepAttempt → StepOutcome → Task → Task
failed_task c a o t =
    if retrying a o then retry_task c (delay_seconds a.attempt) t else fail_task c t

failed_task-IsCoherent :
    (c : Clock) (a : StepAttempt) (o : StepOutcome) (t : Task) (n : ℕ)
    → t.status ≡ Status.running
    → t.current_step < n
    → IsCoherent t n
    → IsCoherent (failed_task c a o t) n
failed_task-IsCoherent c a o t n running room h = ground arith

status-failed_task :
    (c : Clock) (a : StepAttempt) (o : StepOutcome) (t : Task)
    → (failed_task c a o t).status ≡ (if retrying a o then Status.retry_wait else Status.failed)
status-failed_task c a o t = ground arith

current_step-failed_task :
    (c : Clock) (a : StepAttempt) (o : StepOutcome) (t : Task)
    → (failed_task c a o t).current_step ≡ t.current_step
current_step-failed_task c a o t = ground arith

succeed_step-IsConsistent :
    (c : Clock) (output : Option Json) (status status' : Status) (s : Step) {current : ℕ}
    → s.index ≡ current
    → IsConsistent status current s
    → IsConsistent status' (current + 1) (succeed_step c output s)
succeed_step-IsConsistent c output status status' s here h = ground arith

-- The task after a successful attempt.
abbrev progressed_task : Clock → ℕ → ℕ → Option Json → Task → Task
progressed_task c next_step step_count checkpoint t =
    if next_step == step_count
    then complete_task c next_step checkpoint t
    else advance_task c next_step checkpoint t

progressed_task-IsCoherent :
    (c : Clock) (n : ℕ) (checkpoint : Option Json) (t : Task)
    → t.status ≡ Status.running
    → t.current_step < n
    → IsCoherent t n
    → IsCoherent (progressed_task c (t.current_step + 1) n checkpoint t) n
progressed_task-IsCoherent c n checkpoint t running room h = ground arith

current_step-progressed_task :
    (c : Clock) (m n : ℕ) (checkpoint : Option Json) (t : Task)
    → (progressed_task c m n checkpoint t).current_step ≡ m
current_step-progressed_task c m n checkpoint t = ground arith

agrees-progressed_task :
    (c : Clock) (m n : ℕ) (checkpoint : Option Json) (t : Task)
    → t.status ≡ Status.running
    → agrees (progressed_task c m n checkpoint t).status StepStatus.pending ≡ true
agrees-progressed_task c m n checkpoint t running = ground arith

module _ (c : Clock) (lease : LeaseToken) (a : StepAttempt) (o : StepOutcome) {r : TaskRows}
    (wf : IsWellFormed r) where
  finish_failed-IsWellFormed :
      {s : Step}
      → find_step a.step_id r.steps ≡ some s
      → IsFinishing (lock_task c r.task) a s
      → r.task.status ≡ Status.running
      → IsWellFormed (finish_failed c lease (budgeted a s) o r)
  unfolding finish_failed
  finish_failed-IsWellFormed {s} found ready running =
      stay-IsWellFormed wf (failed_task c (budgeted a s) o r.task) _ a.step_id (fail_step c o.error)
        found ready.current (record { id = λ s. refl; index = λ s. refl })
        (current_step-failed_task c (budgeted a s) o r.task)
        (rw (status-failed_task c (budgeted a s) o r.task) (
          fail_step-IsConsistent c a o r.task.status s ready.current ready.attempt
            (All-find_step _ a.step_id r.steps found wf.steps)))
        (failed_task-IsCoherent c (budgeted a s) o r.task (length r.steps) running
          (omega (arith, index-find_step_lt a.step_id 0 r.steps found wf.indexed, ready.current))
          wf.task)

  finish_succeeded-IsWellFormed :
      {s : Step}
      → find_step a.step_id r.steps ≡ some s
      → IsFinishing (lock_task c r.task) a s
      → r.task.status ≡ Status.running
      → IsWellFormed (finish_succeeded c lease (budgeted a s) o (r.task.current_step + 1) r)
  unfolding finish_succeeded
  finish_succeeded-IsWellFormed {s} found ready running =
      advance-IsWellFormed wf
        (progressed_task c (r.task.current_step + 1) (length r.steps) (nullable_json o.checkpoint)
          r.task)
        _ a.step_id (succeed_step c o.output.document) found ready.current
        (record { id = λ s. refl; index = λ s. refl })
        (current_step-progressed_task c _ _ (nullable_json o.checkpoint) r.task)
        (agrees-progressed_task c _ _ (nullable_json o.checkpoint) r.task running)
        (succeed_step-IsConsistent c o.output.document r.task.status _ s ready.current
          (All-find_step _ a.step_id r.steps found wf.steps))
        (progressed_task-IsCoherent c (length r.steps) (nullable_json o.checkpoint) r.task running
          (omega (arith, index-find_step_lt a.step_id 0 r.steps found wf.indexed, ready.current))
          wf.task)

pub finish_step-IsWellFormed :
    (c : Clock) (lease : LeaseToken) (a : StepAttempt) (o : StepOutcome) (r : TaskRows)
    {r' : TaskRows}
    → finish_step c lease a o r ≡ ok (tt, r')
    → IsWellFormed r
    → IsWellFormed r'
finish_step-IsWellFormed c lease a o r h wf =
    let p = finish_step-Finishing c lease a o r h in
    let running = running-validate_ownership _ lease p.owned in
    elim p.branch [
      | inl (failed, e) ↦
          rw e
            (finish_failed-IsWellFormed c lease a (limit_outcome o) wf p.found p.finishing running)
      | inr (succeeded, checked, e) ↦
          rw (e, p.finishing.current)
            (finish_succeeded-IsWellFormed c lease a (limit_outcome o) wf p.found p.finishing
              running)
    ]
