-- ===== src/Store/Finish.antt =====
-- `FinishStep` (internal/store/store.go): the outcome of an attempt is persisted with the progress of
-- its task.
pub mod Success
pub mod Delay
use run_state.Base.{
  ℕ, String, Option, none, some, Bool, true, false, not, ◌&&◌, ◌||◌, List, [], ◌∷◌, ◌++◌, ◌+◌, ◌-◌,
  ◌*◌, ◌^◌, min, ltb, ◌==◌, str_eq, if◌then◌else◌, ok, guard, or_fail, ◌>>◌, ◌>>=◌, length,
}
use run_state.Task.Json.{Json, RawMessage}
use run_state.Task.Model.{
  Status, Task, Step, StepStatus, Payload, Event, EventType, text, int, step_succeeded, step_failed,
  task_succeeded, task_failed, task_retry_wait,
}
use run_state.Store.Types.{
  Outcome, LeaseToken, StepAttempt, StepOutcome, FailureClass, temporary, permanent, Clock,
  conflict, invalid_output, invalid_checkpoint, max_json_bytes,
}
use run_state.Store.Rows.{TaskRows, is_running_step, find_step, update_step, event, entry}
use run_state.Store.Lock.{LockedTask, lock_task, validate_ownership}
use run_state.Store.Lease.{second}

abbrev pub empty_message : RawMessage
empty_message = record { size = 0; document = none }

abbrev pub limit_output : StepOutcome → StepOutcome
limit_output o =
    if ltb max_json_bytes o.output.size
    then record o { error = "output_too_large"; output = empty_message }
    else o

abbrev pub limit_checkpoint : StepOutcome → StepOutcome
limit_checkpoint o =
    if ltb max_json_bytes o.checkpoint.size
    then record o {
      error = "checkpoint_too_large";
      output = empty_message;
      checkpoint = empty_message;
    }
    else o

-- The size limits on the outcome, in the order of the code.
unfoldable pub limit_outcome : StepOutcome → StepOutcome
limit_outcome o = limit_checkpoint (limit_output o)

-- `1 << min(attempt-1, 6)`, at most 60. An attempt that runs is at least 1.
unfoldable pub delay_seconds : ℕ → ℕ
delay_seconds attempt =
    let delay : ℕ = 2 ^ min (attempt - 1) 6 in if ltb 60 delay then 60 else delay

abbrev pub is_temporary : FailureClass → Bool
is_temporary temporary = true
is_temporary permanent = false

-- The document of a message that is stored, where `nullableJSON` gives NULL for an empty one.
abbrev pub nullable_json : RawMessage → Option Json
nullable_json m = if m.size == 0 then none else m.document

-- `COALESCE($3, checkpoint)`
abbrev pub coalesce : Option Json → Json → Json
coalesce none old = old
coalesce (some new) old = new

abbrev pub is_valid : Option Json → Bool
is_valid none = false
is_valid (some document) = true

abbrev pub fail_step : Clock → String → Step → Step
fail_step c error s = record s {
  status = StepStatus.failed;
  output = none;
  error = some error;
  finished_at = some c.write;
}

abbrev pub succeed_step : Clock → Option Json → Step → Step
succeed_step c output s = record s {
  status = StepStatus.succeeded;
  output = output;
  error = none;
  finished_at = some c.write;
}

abbrev pub finish_payload : LeaseToken → StepAttempt → String → Payload
finish_payload lease a error =
    entry "step_id" (text a.step_id)
    ∷ entry "step_index" (int a.step_index)
    ∷ entry "attempt" (int a.attempt)
    ∷ entry "worker_id" (text lease.worker_id)
    ∷ entry "lease_version" (int lease.lease_version)
    ∷ entry "error" (text error)
    ∷ []

abbrev pub retry_payload : StepAttempt → Payload
retry_payload a = entry "step_id" (text a.step_id) ∷ entry "attempt" (int a.attempt) ∷ []

-- `insertFinishEvents`: the step's event, and the task's if that is terminal.
abbrev pub finish_events :
    Clock → LeaseToken → StepAttempt → EventType → EventType → String → Bool → List Event
finish_events c lease a step_event task_event error terminal =
    event c step_event (finish_payload lease a error)
    ∷ (if terminal then event c task_event (finish_payload lease a error) ∷ [] else [])

-- The task waits to retry, or has failed.
abbrev pub retry_task : Clock → ℕ → Task → Task
retry_task c delay t = record t {
  status = Status.retry_wait;
  retry_at = some (c.write + delay * second);
  worker_id = none;
  lease_expires_at = none;
  updated_at = c.write;
}

abbrev pub fail_task : Clock → Task → Task
fail_task c t = record t {
  status = Status.failed;
  retry_at = none;
  worker_id = none;
  lease_expires_at = none;
  updated_at = c.write;
}

abbrev pub complete_task : Clock → ℕ → Option Json → Task → Task
complete_task c next_step checkpoint t = record t {
  status = Status.succeeded;
  current_step = next_step;
  checkpoint = coalesce checkpoint t.checkpoint;
  worker_id = none;
  lease_expires_at = none;
  updated_at = c.write;
}

abbrev pub advance_task : Clock → ℕ → Option Json → Task → Task
advance_task c next_step checkpoint t = record t {
  current_step = next_step;
  checkpoint = coalesce checkpoint t.checkpoint;
  updated_at = c.write;
}

-- `outcome.FailureClass == FailureTemporary && attempt.Attempt < attempt.MaxAttempts`
abbrev pub retrying : StepAttempt → StepOutcome → Bool
retrying a o = is_temporary o.failure_class && ltb a.attempt a.max_attempts

-- The branch `outcome.Error != ""`.
unfoldable pub finish_failed : Clock → LeaseToken → StepAttempt → StepOutcome → TaskRows → TaskRows
finish_failed c lease a o r =
    let retry = retrying a o in
    record r {
      task = if retry then retry_task c (delay_seconds a.attempt) r.task else fail_task c r.task;
      steps = update_step a.step_id (fail_step c o.error) r.steps;
      events =
          r.events
          ++ (finish_events c lease a step_failed task_failed o.error (not retry)
              ++ (if retry then event c task_retry_wait (retry_payload a) ∷ [] else []));
    }

-- The branch of success; `next_step` is the index of the finished step plus one.
unfoldable pub finish_succeeded :
    Clock → LeaseToken → StepAttempt → StepOutcome → ℕ → TaskRows → TaskRows
finish_succeeded c lease a o next_step r =
    let terminal = next_step == length r.steps in
    let checkpoint = nullable_json o.checkpoint in
    record r {
      task =
          if terminal
          then complete_task c next_step checkpoint r.task
          else advance_task c next_step checkpoint r.task;
      steps = update_step a.step_id (succeed_step c o.output.document) r.steps;
      events = r.events ++ finish_events c lease a step_succeeded task_succeeded "" terminal;
    }

-- The guards of the branch of success on the two messages.
unfoldable pub check_outcome : StepOutcome → Outcome (Unit {0})
check_outcome o = do
  guard (not ((o.output.size == 0) || not (is_valid o.output.document))) invalid_output
  guard (not (ltb 0 o.checkpoint.size && not (is_valid o.checkpoint.document))) invalid_checkpoint

-- What follows the size limits.
unfoldable pub finish_limited :
    Clock → LeaseToken → StepAttempt → StepOutcome → ℕ → TaskRows → Outcome (Unit {0} × TaskRows)
finish_limited c lease a o index r =
    if not (str_eq o.error "")
    then ok (tt, finish_failed c lease a o r)
    else check_outcome o >> ok (tt, finish_succeeded c lease a o (index + 1) r)

unfoldable pub check_finishing : LockedTask → StepAttempt → Step → Outcome (Unit {0})
check_finishing locked a s =
    guard (is_running_step s.status && (s.attempt == a.attempt) && (s.index == locked.current_step))
      conflict

unfoldable pub finish_step :
    Clock → LeaseToken → StepAttempt → StepOutcome → TaskRows → Outcome (Unit {0} × TaskRows)
finish_step c lease attempt outcome r = do
  let locked = lock_task c r.task
  validate_ownership locked lease
  s ← or_fail (find_step attempt.step_id r.steps) conflict
  check_finishing locked attempt s
  finish_limited c lease (record attempt { max_attempts = s.max_attempts }) (limit_outcome outcome)
      s.index r
