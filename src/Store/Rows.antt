-- ===== src/Store/Rows.antt =====
-- The rows that belong to one task, and the queries of internal/store/store.go on them. Each statement
-- of the store names a task's id, so what it reads and writes lies in one value of `TaskRows`.
pub mod Steps
pub mod Updates
use run_state.Base.{
  ℕ, String, Option, none, some, Bool, true, false, not, ◌&&◌, ◌||◌, List, [], ◌∷◌, ltb, ◌==◌,
  str_eq, if◌then◌else◌,
}
use run_state.Task.Model.{Task, Status, Step, StepStatus, Event, EventType, Payload, PayloadValue}
use run_state.Store.Types.{Clock}

-- The steps stand in the order of `step_index`, the events in that of their serial number.
pub record TaskRows : Type 0 where
  pub task : Task
  pub steps : List Step
  pub events : List Event

abbrev pub is_running : Status → Bool
is_running Status.running = true
is_running _ = false

abbrev pub is_waiting_approval : Status → Bool
is_waiting_approval Status.waiting_approval = true
is_waiting_approval _ = false

-- `isTerminalStatus`, and `status IN ('SUCCEEDED', 'FAILED', 'CANCELLED', 'TIMED_OUT')`
abbrev pub is_terminal_status : Status → Bool
is_terminal_status Status.succeeded = true
is_terminal_status Status.failed = true
is_terminal_status Status.cancelled = true
is_terminal_status Status.timed_out = true
is_terminal_status _ = false

abbrev pub is_succeeded_step : StepStatus → Bool
is_succeeded_step StepStatus.succeeded = true
is_succeeded_step _ = false

abbrev pub is_running_step : StepStatus → Bool
is_running_step StepStatus.running = true
is_running_step _ = false

-- `SELECT ... FROM task_steps WHERE task_id = $1 AND id = $2`; `id` is the primary key.
unfoldable pub find_step : String → List Step → Option Step
find_step id [] = none
find_step id (s ∷ rest) = if str_eq s.id id then some s else find_step id rest

-- `SELECT ... FROM task_steps WHERE task_id = $1 AND step_index = $2`; the index is unique.
unfoldable pub step_at : ℕ → List Step → Option Step
step_at index [] = none
step_at index (s ∷ rest) = if s.index == index then some s else step_at index rest

-- `UPDATE task_steps SET ... WHERE task_id = $1 AND id = $2`
unfoldable pub update_step : String → (Step → Step) → List Step → List Step
update_step id f [] = []
update_step id f (s ∷ rest) = if str_eq s.id id then f s ∷ rest else s ∷ update_step id f rest

-- `EXISTS (SELECT 1 FROM task_steps WHERE step_index < $2 AND status <> 'SUCCEEDED')`
unfoldable pub unfinished_before : ℕ → List Step → Bool
unfinished_before index [] = false
unfinished_before index (s ∷ rest) =
    (ltb s.index index && not (is_succeeded_step s.status)) || unfinished_before index rest

-- `INSERT INTO task_events (task_id, event_type, payload) VALUES (...)`
abbrev pub event : Clock → EventType → Payload → Event
event c event_type payload = record {
  event_type = event_type;
  payload = payload;
  created_at = c.write;
}

abbrev pub entry : String → PayloadValue → record { key : String; value : PayloadValue }
entry key value = record { key = key; value = value }
