-- ===== src/Store/Create.antt =====
-- `CreateTask` (internal/store/store.go). The ids that `id.New` draws are arguments.
pub mod Initial
use Prim.Native.String
use run_state.Base.{
  Bool, ℕ, ltb, leb, ◌∷◌, ◌++◌, ◌&&◌, true, suc, some, ok, none, length, if◌then◌else◌, false, err,
  [], String, Option, List,
}
use run_state.Store.Types.{constraint_violated, Clock}
use run_state.Store.Database.{find_task, Transaction, Database}
use run_state.Task.Json.{object, end}
use run_state.Task.Model.{
  Event, Definition, time, int, task_scheduled, task_created, Task, StepStatus, StepDefinition,
  Step, Status,
}
use run_state.Store.Rows.{find_step, entry, TaskRows, event}
use run_state.Store.Lease.{or_else}

-- `CASE WHEN $3 > now THEN 'SCHEDULED' ELSE 'RUNNABLE' END`
abbrev pub created_status : Option ℕ → ℕ → Status
created_status none now = Status.runnable
created_status (some t) now = if ltb now t then Status.scheduled else Status.runnable

abbrev pub is_scheduled : Status → Bool
is_scheduled Status.scheduled = true
is_scheduled _ = false

-- The row that the first INSERT makes, with the defaults of the table.
abbrev pub new_task : Clock → String → Definition → Task
new_task c id d = record {
  id = id;
  tenant_id = d.tenant_id;
  status = created_status d.run_at c.statement;
  created_at = c.write;
  updated_at = c.write;
  run_at = or_else d.run_at c.statement;
  retry_at = none;
  worker_id = none;
  lease_version = 0;
  lease_expires_at = none;
  cancel_requested = false;
  current_step = 0;
  checkpoint = object end;
  task_timeout_seconds = d.task_timeout_seconds;
  first_started_at = none;
  deadline_at = none;
}

-- `taskID + ":" + stepID`
abbrev pub idempotency_key : String → String → String
idempotency_key task_id step_id = String.◌++◌ task_id (String.◌++◌ ":" step_id)

abbrev pub new_step : String → String → ℕ → StepDefinition → Step
new_step task_id step_id index d = record {
  id = step_id;
  task_id = task_id;
  index = index;
  step_type = d.step_type;
  status = StepStatus.pending;
  attempt = 0;
  max_attempts = d.max_attempts;
  idempotency_key = idempotency_key task_id step_id;
  input = d.input;
  resolved_input = none;
  output = none;
  error = none;
  approval_decision = none;
  timeout_seconds = d.timeout_seconds;
  started_at = none;
  finished_at = none;
}

-- The loop over the definitions; `new_id` gives the id of the step at an index.
unfoldable pub new_steps : String → (ℕ → String) → ℕ → List StepDefinition → List Step
new_steps task_id new_id index [] = []
new_steps task_id new_id index (d ∷ rest) =
    new_step task_id (new_id index) index d ∷ new_steps task_id new_id (suc index) rest

abbrev pub creation_events : Clock → Task → ℕ → List Event
creation_events c t step_count =
    event c task_created (entry "step_count" (int step_count) ∷ [])
    ∷ (if is_scheduled t.status
        then event c task_scheduled (entry "run_at" (time t.run_at) ∷ []) ∷ []
        else [])

unfoldable pub new_rows : Clock → String → (ℕ → String) → Definition → TaskRows
new_rows c id new_id d = record {
  task = new_task c id d;
  steps = new_steps id new_id 0 d.steps;
  events = creation_events c (new_task c id d) (length d.steps);
}

abbrev pub is_none : {A : Type 0} → Option A → Bool
is_none none = true
is_none (some a) = false

-- CHECK (max_attempts > 0), CHECK (timeout_seconds > 0)
abbrev pub positive_limits : List StepDefinition → Bool
positive_limits [] = true
positive_limits (d ∷ rest) = ltb 0 d.max_attempts && ltb 0 d.timeout_seconds && positive_limits rest

-- The type `integer` of a column.
abbrev pub max_integer : ℕ
max_integer = 2147483647

-- The values that a column of the type `integer` can hold.
abbrev pub within_integers : List StepDefinition → Bool
within_integers [] = true
within_integers (d ∷ rest) =
    leb d.max_attempts max_integer && leb d.timeout_seconds max_integer && within_integers rest

-- PRIMARY KEY (id) among the new steps
unfoldable pub distinct_steps : List Step → Bool
distinct_steps [] = true
distinct_steps (s ∷ rest) = is_none (find_step s.id rest) && distinct_steps rest

-- PRIMARY KEY (id) against the steps of the tasks that are there
unfoldable pub unused_step : Step → Database → Bool
unused_step s [] = true
unused_step s (r ∷ rest) = is_none (find_step s.id r.steps) && unused_step s rest

unfoldable pub unused_steps : List Step → Database → Bool
unused_steps [] db = true
unused_steps (s ∷ rest) db = unused_step s db && unused_steps rest db

-- The constraints of the tables that an INSERT of the transaction can violate.
unfoldable pub insertable : TaskRows → Definition → Database → Bool
insertable r d db =
    is_none (find_task r.task.id db)
    && ltb 0 d.task_timeout_seconds
    && positive_limits d.steps
    && distinct_steps r.steps
    && unused_steps r.steps db
    && leb d.task_timeout_seconds max_integer
    && within_integers d.steps

-- The transaction, and the `LoadTask` that follows it.
unfoldable pub create_task : Clock → String → (ℕ → String) → Definition → Transaction TaskRows
create_task c id new_id d db =
    let r = new_rows c id new_id d in
    if insertable r d db then (ok r, db ++ r ∷ []) else (err constraint_violated, db)
