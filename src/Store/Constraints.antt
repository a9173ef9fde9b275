-- ===== src/Store/Constraints.antt =====
-- The constraints that the tables of internal/migrations/sql/001_init.sql put on the columns that are
-- written once, when a task is created.
pub mod Kept
pub mod Created
use run_state.Base.{◌≤◌, ◌≡◌, ◌∷◌, ◌<◌, none, [], String, List, All}
use run_state.Store.Database.{Database}
use run_state.Task.Model.{Step}
use run_state.Store.Rows.{find_step, TaskRows}
use run_state.Store.Create.{max_integer, idempotency_key}

-- A row of `task_steps`: its foreign key, its key for external calls and its limits.
pub record IsStoredStep (owner : String) (s : Step) : Type 0 where
  pub task_id : s.task_id ≡ owner
  pub key : s.idempotency_key ≡ idempotency_key owner s.id
  pub max_attempts : (0 < s.max_attempts) × (s.max_attempts ≤ max_integer)
  pub timeout : (0 < s.timeout_seconds) × (s.timeout_seconds ≤ max_integer)

-- The rows of one task.
pub record IsStorable (r : TaskRows) : Type 0 where
  pub timeout : (0 < r.task.task_timeout_seconds) × (r.task.task_timeout_seconds ≤ max_integer)
  pub steps : All (IsStoredStep r.task.id) r.steps

-- No step of a list is among the steps of a task.
abbrev pub AllUnused : List Step → TaskRows → Type 0
AllUnused steps r = All (λ s. find_step s.id r.steps ≡ none) steps

-- PRIMARY KEY (id) of `task_steps` across tasks.
abbrev pub AllDisjoint : Database → Type 0
AllDisjoint [] = Unit
AllDisjoint (r ∷ rest) = All (λ later. AllUnused later.steps r) rest × AllDisjoint rest
