-- ===== src/Task/Model.antt =====
-- The records of internal/task/model.go. The string constants for the statuses are data types,
-- as the CHECK constraints of the tables hold the columns to them. A time is a number of
-- microseconds, the resolution of `timestamptz`; a nullable column is an `Option`, and a `jsonb`
-- column holds a document.
use run_state.Base.{ℕ, String, Option, Bool, List}
use run_state.Task.Json.{Json}

pub data Status : Type 0 where
  scheduled runnable running retry_wait waiting_approval succeeded failed cancelled timed_out :
      Status

pub data StepStatus : Type 0 where
  pending running waiting_approval succeeded failed : StepStatus

pub data Decision : Type 0 where
  approved rejected : Decision

abbrev pub step_type_approval : String
step_type_approval = "approval"

pub record StepDefinition : Type 0 where
  pub step_type : String
  pub input : Json
  pub timeout_seconds : ℕ
  pub max_attempts : ℕ

pub record Definition : Type 0 where
  pub tenant_id : Option String
  pub run_at : Option ℕ
  pub task_timeout_seconds : ℕ
  pub steps : List StepDefinition

-- A row of the table `tasks`.
pub record Task : Type 0 where
  pub id : String
  pub tenant_id : Option String
  pub status : Status
  pub created_at : ℕ
  pub updated_at : ℕ
  pub run_at : ℕ
  pub retry_at : Option ℕ
  pub worker_id : Option String
  pub lease_version : ℕ
  pub lease_expires_at : Option ℕ
  pub cancel_requested : Bool
  pub current_step : ℕ
  pub checkpoint : Json
  pub task_timeout_seconds : ℕ
  pub first_started_at : Option ℕ
  pub deadline_at : Option ℕ

-- A row of the table `task_steps`.
pub record Step : Type 0 where
  pub id : String
  pub task_id : String
  pub index : ℕ
  pub step_type : String
  pub status : StepStatus
  pub attempt : ℕ
  pub max_attempts : ℕ
  pub idempotency_key : String
  pub input : Json
  pub resolved_input : Option Json
  pub output : Option Json
  pub error : Option String
  pub approval_decision : Option Decision
  pub timeout_seconds : ℕ
  pub started_at : Option ℕ
  pub finished_at : Option ℕ

pub data EventType : Type 0 where
  task_created task_scheduled task_claimed task_recovered task_runnable : EventType
  task_waiting_approval task_approved task_rejected task_retry_wait task_retry_ready : EventType
  task_succeeded task_failed task_cancelled task_timed_out : EventType
  lease_expired step_started step_succeeded step_failed : EventType

-- What an event's payload records under a key.
pub data PayloadValue : Type 0 where
  text : String → PayloadValue
  maybe_text : Option String → PayloadValue
  int : ℕ → PayloadValue
  time : ℕ → PayloadValue

abbrev pub Payload : Type 0
Payload = List (record { key : String; value : PayloadValue })

-- A row of the table `task_events`; its task and its serial number are its place in the model.
pub record Event : Type 0 where
  pub event_type : EventType
  pub payload : Payload
  pub created_at : ℕ
