-- ===== src/Store/Constraints/Created.antt =====
-- The rows that `CreateTask` (internal/store/store.go) commits satisfy the constraints.
use run_state.Base.{All, ◌≡◌, ◌∷◌, ℕ, true, suc, refl, arith, [], String, List}
use run_state.Store.Constraints.{IsStoredStep, AllUnused, IsStorable}
use run_state.Store.Types.{Clock}
use run_state.Store.Database.{Database}
use run_state.Task.Model.{StepDefinition, Definition, Step}
use run_state.Store.Rows.{TaskRows}
use run_state.Store.Create.{
  insertable, within_integers, unused_steps, unused_step, positive_limits, new_steps, new_rows,
}

new_steps_stored :
    (id : String) (new_id : ℕ → String) (k : ℕ) (ds : List StepDefinition)
    → positive_limits ds ≡ true
    → within_integers ds ≡ true
    → All (IsStoredStep id) (new_steps id new_id k ds)
unfolding new_steps
new_steps_stored id new_id k [] positive fits = tt
new_steps_stored id new_id k (d ∷ rest) positive fits = (
  record {
    task_id = refl;
    key = refl;
    max_attempts = ground (arith, positive, fits);
    timeout = ground (arith, positive, fits);
  },
  new_steps_stored id new_id (suc k) rest (ground (arith, positive)) (ground (arith, fits)),
)

pub new_rows-IsStorable :
    (c : Clock) (id : String) (new_id : ℕ → String) (d : Definition) (db : Database)
    → insertable (new_rows c id new_id d) d db ≡ true
    → IsStorable (new_rows c id new_id d)
unfolding new_rows insertable
new_rows-IsStorable c id new_id d db h = record {
  timeout = ground (arith, h);
  steps = new_steps_stored id new_id 0 d.steps (ground (arith, h)) (ground (arith, h));
}

first_unused :
    (steps : List Step) (x : TaskRows) (rest : Database)
    → unused_steps steps (x ∷ rest) ≡ true
    → AllUnused steps x × (unused_steps steps rest ≡ true)
unfolding unused_steps unused_step
first_unused [] x rest h = (tt, refl)
first_unused (s ∷ steps) x rest h =
    let (first, others) = first_unused steps x rest (ground (arith, h)) in
    ((ground (arith, h), first), ground (arith, h, others))

pub unused_steps-AllUnused :
    (steps : List Step) (db : Database) → unused_steps steps db ≡ true → All (AllUnused steps) db
unused_steps-AllUnused steps [] h = tt
unused_steps-AllUnused steps (x ∷ rest) h =
    let (first, others) = first_unused steps x rest h in
    (first, unused_steps-AllUnused steps rest others)
