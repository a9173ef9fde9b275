-- ===== src/Store/Commit.antt =====
-- `commitWithFactCheck` and the facts that it reads back when the response to a COMMIT is lost
-- (internal/store/store.go). PostgreSQL's equality of `jsonb` documents is a parameter.
pub mod Facts
pub mod Start
pub mod Finish
pub mod Approval
use run_state.Base.{
  [], List, ltb, Bool, ◌∷◌, ◌||◌, ◌==◌, ◌&&◌, ℕ, true, str_eq, some, ok, none, if◌then◌else◌, false,
  err, String, Result, Option,
}
use run_state.Task.Model.{
  task_created, approved, rejected, StepStatus, Step, Status, PayloadValue, Payload, EventType,
  Event, Decision, task_scheduled, task_claimed, task_recovered, task_runnable,
  task_waiting_approval, task_approved, task_rejected, task_retry_wait, task_retry_ready,
  task_succeeded, task_failed, task_cancelled, task_timed_out, lease_expired, step_started,
  step_succeeded, step_failed, text, int,
}
use run_state.Task.Json.{Json}
use run_state.Store.Types.{StepOutcome, StepAttempt}
use run_state.Store.Rows.{
  is_waiting_approval, find_step, TaskRows, is_succeeded_step, is_running_step,
}
use run_state.Store.Approval.{same_decision, is_waiting_step, decision_text}
use run_state.Store.Control.{is_retry_wait}
use run_state.Store.Finish.{retrying, nullable_json}

-- What became of a COMMIT: it took effect and the response came, it took effect and the response was
-- lost (or the injected `afterCommit` failed), or it did not take effect.
pub data CommitResult : Type 0 where
  acknowledged response_lost not_committed : CommitResult

-- What `confirm` returns: the fact, or an error of the database.
pub data Confirmation : Type 0 where
  persisted : Bool → Confirmation
  unreachable : Confirmation

pub data CommitError : Type 0 where
  commit_failed result_unknown : CommitError

unfoldable pub commit_with_fact_check : CommitResult → Confirmation → Result CommitError (Unit {0})
commit_with_fact_check acknowledged confirmation = ok tt
commit_with_fact_check _ (persisted true) = ok tt
commit_with_fact_check _ (persisted false) = err commit_failed
commit_with_fact_check _ unreachable = err result_unknown

-- `event.payload->>key`
abbrev pub payload_value : String → Payload → Option PayloadValue
payload_value key [] = none
payload_value key (e ∷ rest) = if str_eq e.key key then some e.value else payload_value key rest

abbrev pub is_text : String → Option PayloadValue → Bool
is_text s (some (text t)) = str_eq t s
is_text s _ = false

abbrev pub is_int : ℕ → Option PayloadValue → Bool
is_int n (some (int m)) = m == n
is_int n _ = false

abbrev pub any : {A : Type 0} → (A → Bool) → List A → Bool
any p [] = false
any p (x ∷ rest) = p x || any p rest

-- The column `event_type`.
abbrev pub event_name : EventType → String
event_name task_created = "TASK_CREATED"
event_name task_scheduled = "TASK_SCHEDULED"
event_name task_claimed = "TASK_CLAIMED"
event_name task_recovered = "TASK_RECOVERED"
event_name task_runnable = "TASK_RUNNABLE"
event_name task_waiting_approval = "TASK_WAITING_APPROVAL"
event_name task_approved = "TASK_APPROVED"
event_name task_rejected = "TASK_REJECTED"
event_name task_retry_wait = "TASK_RETRY_WAIT"
event_name task_retry_ready = "TASK_RETRY_READY"
event_name task_succeeded = "TASK_SUCCEEDED"
event_name task_failed = "TASK_FAILED"
event_name task_cancelled = "TASK_CANCELLED"
event_name task_timed_out = "TASK_TIMED_OUT"
event_name lease_expired = "LEASE_EXPIRED"
event_name step_started = "STEP_STARTED"
event_name step_succeeded = "STEP_SUCCEEDED"
event_name step_failed = "STEP_FAILED"

abbrev pub is_step_event : EventType → String → Event → Bool
is_step_event type step_id e =
    str_eq (event_name e.event_type) (event_name type)
    && is_text step_id (payload_value "step_id" e.payload)

-- `event_type = ... AND payload->>'step_id' = $2 AND (payload->>'attempt')::integer = $3`
abbrev pub is_attempt_event : EventType → String → ℕ → Event → Bool
is_attempt_event type step_id attempt e =
    is_step_event type step_id e && is_int attempt (payload_value "attempt" e.payload)

-- `event_type = $5 AND payload->>'step_id' = $2 AND payload->>'decision' = $3`
abbrev pub is_decision_event : EventType → String → Decision → Event → Bool
is_decision_event type step_id decision e =
    is_step_event type step_id e
    && is_text (decision_text decision) (payload_value "decision" e.payload)

abbrev pub is_failed_step : StepStatus → Bool
is_failed_step StepStatus.failed = true
is_failed_step _ = false

abbrev pub is_failed : Status → Bool
is_failed Status.failed = true
is_failed _ = false

abbrev pub is_text_column : String → Option String → Bool
is_text_column s none = false
is_text_column s (some t) = str_eq t s

abbrev pub is_decision_column : Decision → Option Decision → Bool
is_decision_column d none = false
is_decision_column d (some e) = same_decision e d

module _ (jsonb_eq : Json → Json → Bool) where
  -- An equation with NULL does not hold.
  abbrev pub json_matches : Option Json → Option Json → Bool
  json_matches (some x) (some y) = jsonb_eq x y
  json_matches _ _ = false

  abbrev start_fact : StepAttempt → TaskRows → Option Step → Bool
  start_fact a r none = false
  start_fact a r (some s) =
      is_running_step s.status
      && (s.attempt == a.attempt)
      && json_matches s.resolved_input a.resolved_input
      && any (is_attempt_event step_started a.step_id a.attempt) r.events

  unfoldable pub step_start_persisted : StepAttempt → TaskRows → Bool
  step_start_persisted a r = start_fact a r (find_step a.step_id r.steps)

  abbrev finish_fact : StepAttempt → StepOutcome → TaskRows → Option Step → Bool
  finish_fact a o r none = false
  finish_fact a o r (some s) =
      if str_eq o.error ""
      then is_succeeded_step s.status
        && (s.attempt == a.attempt)
        && json_matches s.output (nullable_json o.output)
        && ltb s.index r.task.current_step
        && any (is_attempt_event step_succeeded a.step_id a.attempt) r.events
      else is_failed_step s.status
        && (s.attempt == a.attempt)
        && is_text_column o.error s.error
        && (if retrying a o then is_retry_wait r.task.status else is_failed r.task.status)
        && any (is_attempt_event step_failed a.step_id a.attempt) r.events

  unfoldable pub step_finish_persisted : StepAttempt → StepOutcome → TaskRows → Bool
  step_finish_persisted a o r = finish_fact a o r (find_step a.step_id r.steps)

abbrev wait_fact : String → TaskRows → Option Step → Bool
wait_fact step_id r none = false
wait_fact step_id r (some s) =
    is_waiting_approval r.task.status
    && is_waiting_step s.status
    && any (is_step_event task_waiting_approval step_id) r.events

-- The fact that `WaitForApproval` reads back.
unfoldable pub wait_persisted : String → TaskRows → Bool
wait_persisted step_id r = wait_fact step_id r (find_step step_id r.steps)

abbrev decision_fact : String → Decision → TaskRows → Option Step → Bool
decision_fact step_id decision r none = false
decision_fact step_id approved r (some s) =
    is_decision_column approved s.approval_decision
    && is_succeeded_step s.status
    && ltb s.index r.task.current_step
    && any (is_decision_event task_approved step_id approved) r.events
decision_fact step_id rejected r (some s) =
    is_decision_column rejected s.approval_decision
    && is_failed_step s.status
    && is_failed r.task.status
    && (r.task.current_step == s.index)
    && any (is_decision_event task_rejected step_id rejected) r.events

-- The fact that `DecideApproval` reads back.
unfoldable pub decision_persisted : String → Decision → TaskRows → Bool
decision_persisted step_id decision r = decision_fact step_id decision r (find_step step_id r.steps)
