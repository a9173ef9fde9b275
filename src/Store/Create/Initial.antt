-- ===== src/Store/Create/Initial.antt =====
-- The well-formedness of the rows of a new task (internal/store/store.go).
use run_state.Base.{ltb, ◌⊎◌, ◌≡◌, ◌∷◌, true, suc, refl, length, arith, [], String, Option, List, ℕ}
use run_state.Store.Invariant.{IsWellFormed, IsConsistent, IsCoherent, AllConsistent}
use run_state.Store.Types.{Clock}
use run_state.Store.Database.{Database}
use run_state.Task.Model.{StepDefinition, Status, Definition}
use run_state.Store.Rows.Steps.{Indexed}
use run_state.Store.Create.{
  insertable, positive_limits, new_task, new_steps, new_step, new_rows, distinct_steps,
  created_status,
}

Indexed-new_steps :
    (task_id : String) (new_id : ℕ → String) (k : ℕ) (ds : List StepDefinition)
    → distinct_steps (new_steps task_id new_id k ds) ≡ true
    → Indexed k (new_steps task_id new_id k ds)
unfolding new_steps distinct_steps
Indexed-new_steps task_id new_id k [] h = tt
Indexed-new_steps task_id new_id k (d ∷ rest) h =
    (refl, ground arith, Indexed-new_steps task_id new_id (suc k) rest (ground arith))

length-new_steps :
    (task_id : String) (new_id : ℕ → String) (k : ℕ) (ds : List StepDefinition)
    → length (new_steps task_id new_id k ds) ≡ length ds
unfolding new_steps
length-new_steps task_id new_id k [] = refl
length-new_steps task_id new_id k (d ∷ rest) =
    omega (arith, length-new_steps task_id new_id (suc k) rest)

new_step-IsConsistent :
    (task_id step_id : String) (k : ℕ) (d : StepDefinition) (status : Status)
    → (status ≡ Status.scheduled) ⊎ (status ≡ Status.runnable)
    → ltb 0 d.max_attempts ≡ true
    → IsConsistent status 0 (new_step task_id step_id k d)
new_step-IsConsistent task_id step_id k d status fresh h = ground arith

new_steps-AllConsistent :
    (task_id : String) (new_id : ℕ → String) (k : ℕ) (ds : List StepDefinition) (status : Status)
    → (status ≡ Status.scheduled) ⊎ (status ≡ Status.runnable)
    → positive_limits ds ≡ true
    → AllConsistent status 0 (new_steps task_id new_id k ds)
unfolding new_steps
new_steps-AllConsistent task_id new_id k [] status fresh h = tt
new_steps-AllConsistent task_id new_id k (d ∷ rest) status fresh h = (
  new_step-IsConsistent task_id (new_id k) k d status fresh (ground arith),
  new_steps-AllConsistent task_id new_id (suc k) rest status fresh (ground arith),
)

created_status-cases :
    (run_at : Option ℕ) (now : ℕ)
    → (created_status run_at now ≡ Status.scheduled) ⊎ (created_status run_at now ≡ Status.runnable)
created_status-cases run_at now = ground arith

new_task-IsCoherent :
    (c : Clock) (id : String) (d : Definition) (n : ℕ) → IsCoherent (new_task c id d) n
new_task-IsCoherent c id d n = ground arith

-- Rows of a new task that the constraints of the tables accept are well formed.
pub new_rows-IsWellFormed :
    (c : Clock) (id : String) (new_id : ℕ → String) (d : Definition) (db : Database)
    → insertable (new_rows c id new_id d) d db ≡ true
    → IsWellFormed (new_rows c id new_id d)
unfolding new_rows insertable
new_rows-IsWellFormed c id new_id d db h = record {
  indexed = Indexed-new_steps id new_id 0 d.steps (ground arith);
  steps =
      new_steps-AllConsistent id new_id 0 d.steps _ (created_status-cases d.run_at c.statement)
        (ground arith);
  task = new_task-IsCoherent c id d _;
}
