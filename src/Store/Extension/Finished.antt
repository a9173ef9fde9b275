-- ===== src/Store/Extension/Finished.antt =====
-- What `FinishStep` keeps (internal/store/store.go).
use run_state.Base.{
  ℕ, ◌≤◌, ◌≡◌, ◌==◌, ◌+◌, some, refl, ok, length, inr, inl, if◌then◌else◌, arith, String, Option,
}
use run_state.Store.Extension.{TaskExtends, AllPreserved-update_step, Preserves, Extends}
use run_state.Store.Types.{StepOutcome, Clock, StepAttempt, LeaseToken}
use run_state.Task.Model.{Task, Step, StepStatus}
use run_state.Task.Json.{Json}
use run_state.Store.Rows.{find_step, TaskRows}
use run_state.Store.Finish.{
  advance_task, retrying, succeed_step, retry_task, nullable_json, limit_outcome, finish_succeeded,
  finish_step, finish_failed, fail_task, fail_step, delay_seconds, complete_task,
}
use run_state.Store.Finish.Success.{budgeted, finish_step-Finishing}

fail_step-Preserves :
    (c : Clock) (error : String) (s : Step)
    → s.status ≡ StepStatus.running
    → Preserves s (fail_step c error s)
fail_step-Preserves c error s h = ground arith

succeed_step-Preserves :
    (c : Clock) (output : Option Json) (s : Step)
    → s.status ≡ StepStatus.running
    → Preserves s (succeed_step c output s)
succeed_step-Preserves c output s h = ground arith

failed_task-TaskExtends :
    (c : Clock) (a : StepAttempt) (o : StepOutcome) (t : Task)
    → TaskExtends t
        (if retrying a o then retry_task c (delay_seconds a.attempt) t else fail_task c t)
failed_task-TaskExtends c a o t = ground arith

progressed_task-TaskExtends :
    (c : Clock) (n count : ℕ) (checkpoint : Option Json) (t : Task)
    → t.current_step ≤ n
    → TaskExtends t
        (if n == count then complete_task c n checkpoint t else advance_task c n checkpoint t)
progressed_task-TaskExtends c n count checkpoint t h = ground arith

module _ (c : Clock) (lease : LeaseToken) (a : StepAttempt) (o : StepOutcome) (r : TaskRows)
    {s : Step} (found : find_step a.step_id r.steps ≡ some s)
    (running : s.status ≡ StepStatus.running) where
  finish_failed-Extends : Extends r (finish_failed c lease a o r)
  unfolding finish_failed
  finish_failed-Extends = record {
    task = failed_task-TaskExtends c a o r.task;
    steps =
        AllPreserved-update_step a.step_id (fail_step c o.error) r.steps found
          (fail_step-Preserves c o.error s running);
    added = _;
    events = refl;
  }

  finish_succeeded-Extends :
      (n : ℕ) → r.task.current_step ≤ n → Extends r (finish_succeeded c lease a o n r)
  unfolding finish_succeeded
  finish_succeeded-Extends n h = record {
    task = progressed_task-TaskExtends c n (length r.steps) (nullable_json o.checkpoint) r.task h;
    steps =
        AllPreserved-update_step a.step_id (succeed_step c o.output.document) r.steps found
          (succeed_step-Preserves c o.output.document s running);
    added = _;
    events = refl;
  }

pub finish_step-Extends :
    (c : Clock) (lease : LeaseToken) (a : StepAttempt) (o : StepOutcome) (r : TaskRows)
    {r' : TaskRows}
    → finish_step c lease a o r ≡ ok (tt, r')
    → Extends r r'
finish_step-Extends c lease a o r h =
    let p = finish_step-Finishing c lease a o r h in
    elim p.branch [
      | inl (failed, e) ↦ rw e (
          finish_failed-Extends c lease (budgeted a p.step) (limit_outcome o) r p.found
            p.finishing.running)
      | inr (succeeded, checked, e) ↦ rw e (
          finish_succeeded-Extends c lease (budgeted a p.step) (limit_outcome o) r p.found
            p.finishing.running (p.step.index + 1) (omega (arith, p.finishing.current)))
    ]
