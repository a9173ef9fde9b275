-- ===== src/Executor/Types.antt =====
-- The failures of internal/executor/executor.go, and what a step meets outside.
-- What an error answers to `errors.As` with a `*Failure`, to `errors.Is` with
-- `context.DeadlineExceeded`, and to `Error`.
use run_state.Base.{ℕ, some, none, if◌then◌else◌, false, String, Option, Bool}
use run_state.Store.Types.{temporary, permanent, FailureClass}
use run_state.Task.Json.{RawMessage, Json}

pub record ExecuteError : Type 0 where
  pub failure : Option FailureClass
  pub deadline_exceeded : Bool
  pub text : String

abbrev pub plain : String → ExecuteError
plain text = record { failure = none; deadline_exceeded = false; text = text }

abbrev pub failed : FailureClass → String → ExecuteError
failed class text = record { failure = some class; deadline_exceeded = false; text = text }

-- `Classify`
unfoldable pub classify : ExecuteError → FailureClass
classify e = elim e.failure [
  | some class ↦ class
  | none ↦ if e.deadline_exceeded then temporary else permanent
]

-- What became of a context: `ctx.Err()`.
pub data ContextState : Type 0 where
  live deadline_passed cancelled : ContextState

-- What became of `client.Do` and of the reading of the body: each error carries whether it was the
-- context's deadline.
pub data Exchange : Type 0 where
  not_sent : Bool → String → Exchange
  not_read : Bool → String → Exchange
  answered : ℕ → RawMessage → Exchange

-- What a step meets outside: the URL of the fake tool (empty if there is none), whether a request can
-- be made for it, what it answers to a key and a payload, and what ended a wait on a timer.
pub record Environment : Type 0 where
  pub tool_url : String
  pub url_is_valid : Bool
  pub exchange : String → Option Json → Exchange
  pub waited : ContextState

abbrev pub max_json_bytes : ℕ
max_json_bytes = 1048576
