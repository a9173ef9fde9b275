-- ===== src/Store/Control.antt =====
-- The control transitions of internal/store/store.go: `finishControlledTask` and the operations that
-- reach it, and the wake-ups of the scheduler.
use run_state.Base.{
  ℕ, String, Option, none, some, Bool, true, false, not, ◌&&◌, ◌||◌, [], ◌∷◌, ◌++◌, leb,
  if◌then◌else◌, ok, err, guard, ◌>>◌,
}
use run_state.Task.Model.{
  Status, Task, Step, StepStatus, Payload, text, int, time, step_failed, task_runnable,
  task_retry_ready,
}
use run_state.Store.Types.{
  Outcome, LeaseToken, Clock, ControlOutcome, CancelResult, cancelled_synchronously,
  cancellation_requested, cancelled_outcome, timed_out_outcome, lease_lost, cancelled_task,
  conflict, due,
}
use run_state.Store.Rows.{
  TaskRows, is_running, is_succeeded_step, is_terminal_status, step_at, update_step, event, entry,
}
use run_state.Store.Lock.{lock_task, owns_active_lease}

abbrev pub control_step : Clock → String → Step → Step
control_step c reason s = record s {
  status = StepStatus.failed;
  output = none;
  error = some reason;
  finished_at = some c.write;
}

abbrev pub control_task : Clock → Status → Task → Task
control_task c status t = record t {
  status = status;
  retry_at = none;
  worker_id = none;
  lease_expires_at = none;
  updated_at = c.write;
}

abbrev step_payload : ℕ → ControlOutcome → Step → Payload
step_payload current_step o s =
    entry "step_id" (text s.id)
    ∷ entry "step_index" (int current_step)
    ∷ entry "attempt" (int s.attempt)
    ∷ entry "error" (text o.reason)
    ∷ []

abbrev task_payload : ℕ → ControlOutcome → Payload
task_payload current_step o =
    entry "step_index" (int current_step) ∷ entry "error" (text o.reason) ∷ []

-- The step that the task stands at fails with the reason, unless it has succeeded.
unfoldable pub finish_controlled_step : Clock → ControlOutcome → Option Step → TaskRows → TaskRows
finish_controlled_step c o none r = r
finish_controlled_step c o (some s) r = if is_succeeded_step s.status then r else record r {
  steps = update_step s.id (control_step c o.reason) r.steps;
  events = r.events ++ event c step_failed (step_payload r.task.current_step o s) ∷ [];
}

abbrev pub close_task : Clock → ControlOutcome → TaskRows → TaskRows
close_task c o r = record r {
  task = control_task c o.status r.task;
  events = r.events ++ event c o.event_type (task_payload r.task.current_step o) ∷ [];
}

unfoldable pub finish_controlled_task : Clock → ControlOutcome → TaskRows → TaskRows
unfolding finish_controlled_step
finish_controlled_task c o r =
    close_task c o (finish_controlled_step c o (step_at r.task.current_step r.steps) r)

abbrev pub is_timed_out : Status → Bool
is_timed_out Status.timed_out = true
is_timed_out _ = false

abbrev pub is_cancelled : Status → Bool
is_cancelled Status.cancelled = true
is_cancelled _ = false

abbrev check_timeout : Clock → LeaseToken → Task → Outcome (Unit {0})
check_timeout c lease t = do
  guard (owns_active_lease (lock_task c t) lease) lease_lost
  guard (not t.cancel_requested) cancelled_task
  guard (due t.deadline_at c.lock) conflict

unfoldable pub timeout_owned_task : Clock → LeaseToken → TaskRows → Outcome (Unit {0} × TaskRows)
timeout_owned_task c lease r =
    if is_timed_out r.task.status
    then ok (tt, r)
    else check_timeout c lease r.task >> ok (tt, finish_controlled_task c timed_out_outcome r)

unfoldable pub cancel_task : Clock → TaskRows → Outcome (CancelResult × TaskRows)
cancel_task c r =
    if is_cancelled r.task.status
    then ok (cancelled_synchronously, r)
    else if is_terminal_status r.task.status
    then err conflict
    else if is_running r.task.status
    then ok (
      cancellation_requested,
      record r { task = record r.task { cancel_requested = true; updated_at = c.write } },
    )
    else ok (cancelled_synchronously, finish_controlled_task c cancelled_outcome r)

abbrev check_cancel : Clock → LeaseToken → Task → Outcome (Unit {0})
check_cancel c lease t = do
  guard (owns_active_lease (lock_task c t) lease) lease_lost
  guard t.cancel_requested conflict

unfoldable pub cancel_owned_task : Clock → LeaseToken → TaskRows → Outcome (Unit {0} × TaskRows)
cancel_owned_task c lease r =
    if is_cancelled r.task.status
    then ok (tt, r)
    else check_cancel c lease r.task >> ok (tt, finish_controlled_task c cancelled_outcome r)

unfoldable pub cancellation_requested_for : Clock → LeaseToken → Task → Outcome Bool
cancellation_requested_for c lease t = do
  guard (owns_active_lease (lock_task c t) lease) lease_lost
  ok t.cancel_requested

unfoldable pub wake_retry_task : Clock → TaskRows → TaskRows
wake_retry_task c r = record r {
  task = record r.task { status = Status.runnable; retry_at = none; updated_at = c.write };
  events = r.events ++ event c task_retry_ready [] ∷ [];
}

-- The row is locked and SCHEDULED, so the UPDATE affects it.
unfoldable pub wake_scheduled_task : Clock → TaskRows → TaskRows
wake_scheduled_task c r = record r {
  task = record r.task { status = Status.runnable; updated_at = c.write };
  events =
      r.events
      ++ event c task_runnable
          (entry "run_at" (time r.task.run_at) ∷ entry "source" (text "scheduled") ∷ [])
        ∷ [];
}

abbrev pub wake_due : Status → Option ℕ → ℕ → ℕ → Bool
wake_due Status.retry_wait retry_at run_at now = due retry_at now
wake_due Status.scheduled retry_at run_at now = leb run_at now
wake_due _ retry_at run_at now = false

-- The WHERE clause of `ProcessDueControl`.
unfoldable pub control_due : Task → ℕ → Bool
control_due t now =
    not (is_terminal_status t.status)
    && (t.cancel_requested || due t.deadline_at now || wake_due t.status t.retry_at t.run_at now)

abbrev pub is_retry_wait : Status → Bool
is_retry_wait Status.retry_wait = true
is_retry_wait _ = false

-- The WHERE clause of `WakeDueRetry`.
unfoldable pub retry_due : Task → ℕ → Bool
retry_due t now =
    is_retry_wait t.status
    && due t.retry_at now
    && not t.cancel_requested
    && not (due t.deadline_at now)

abbrev pub wake : Clock → Status → TaskRows → Option TaskRows
wake c Status.retry_wait r = if due r.task.retry_at c.lock then some (wake_retry_task c r) else none
wake c Status.scheduled r =
    if leb r.task.run_at c.lock then some (wake_scheduled_task c r) else none
wake c _ r = none

-- The `switch` of `ProcessDueControl` on the locked candidate; `none` is its `default`, which
-- commits nothing.
unfoldable pub control_selected : Clock → TaskRows → Option TaskRows
control_selected c r =
    if r.task.cancel_requested
    then some (finish_controlled_task c cancelled_outcome r)
    else if due r.task.deadline_at c.lock
    then some (finish_controlled_task c timed_out_outcome r)
    else wake c r.task.status r
