-- ===== src/Store/Types.antt =====
-- The types of internal/store/store.go and what its transactions read of the database's clock.
use run_state.Base.{ℕ, String, Option, none, some, Result, Bool, ltb, leb, false}
use run_state.Task.Json.{Json, RawMessage}
use run_state.Task.Resolve.{ResolveError}
use run_state.Task.Model.{
  Status, Decision, EventType, cancelled, timed_out, task_cancelled, task_timed_out,
}

-- The sentinel errors, and the other errors that an operation makes itself.
pub data Error : Type 0 where
  not_found no_task lease_lost conflict cancelled_task deadline_exceeded : Error
  worker_id_required invalid_output invalid_checkpoint no_previous_output : Error
  constraint_violated : Error
  resolve : ResolveError → Error

abbrev pub Outcome : Type 0 → Type 0
Outcome A = Result Error A

pub record LeaseToken : Type 0 where
  pub task_id : String
  pub worker_id : String
  pub lease_version : ℕ

-- `Claim` with its embedded token as a field.
pub record Claim : Type 0 where
  pub token : LeaseToken
  pub lease_expires_at : Option ℕ
  pub deadline_at : Option ℕ

pub record StepAttempt : Type 0 where
  pub step_id : String
  pub task_id : String
  pub step_index : ℕ
  pub step_type : String
  pub attempt : ℕ
  pub max_attempts : ℕ
  pub idempotency_key : String
  pub resolved_input : Option Json
  pub timeout_seconds : ℕ

pub data FailureClass : Type 0 where
  permanent temporary : FailureClass

-- `error` is empty when the step has succeeded.
pub record StepOutcome : Type 0 where
  pub output : RawMessage
  pub checkpoint : RawMessage
  pub error : String
  pub failure_class : FailureClass

pub data CancelResult : Type 0 where
  cancelled_synchronously cancellation_requested : CancelResult

pub record ApprovalResult : Type 0 where
  pub decision : Decision
  pub task_status : Status

-- The readings of `clock_timestamp()` in one transaction: by the query that selects a candidate, after
-- the row lock is held, and by the statements that write; and the writing statement's own start.
pub record Clock : Type 0 where
  pub select : ℕ
  pub lock : ℕ
  pub statement : ℕ
  pub write : ℕ

-- `max_json_bytes = 1 << 20`
abbrev pub max_json_bytes : ℕ
max_json_bytes = 1048576

-- `time.After` is strict: `deadline.After(now)`.
abbrev pub after : ℕ → ℕ → Bool
after deadline now = ltb now deadline

-- `at IS NOT NULL AND at <= now`, which is also `at != nil && !at.After(now)`.
abbrev pub due : Option ℕ → ℕ → Bool
due at now = elim at [ none ↦ false | some t ↦ leb t now ]

pub record ControlOutcome : Type 0 where
  pub status : Status
  pub reason : String
  pub event_type : EventType

abbrev pub cancelled_outcome : ControlOutcome
cancelled_outcome = record {
  status = cancelled;
  reason = "user_cancelled";
  event_type = task_cancelled;
}

abbrev pub timed_out_outcome : ControlOutcome
timed_out_outcome = record {
  status = timed_out;
  reason = "task_timeout";
  event_type = task_timed_out;
}
