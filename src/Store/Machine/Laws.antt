-- ===== src/Store/Machine/Laws.antt =====
-- What holds of the database after any interleaving of operations (internal/store/store.go).
use run_state.Base.{
  All, ◌⊎◌, ◌≡◌, ◌∷◌, ◌∙◌, true, subst, str_eq, some, refl, inr, inl, eq_iff, arith, [], String,
  List, Bool-cases, Bool,
}
use run_state.Store.Database.Rows.{
  id-find_task, All-append, find_task-put_task, find_task-append, Keyed-put_task, Keyed-append,
  Keyed, All-put_task, All-find_task,
}
use run_state.Store.Database.{find_task, Database}
use run_state.Store.Machine.Effect.{unchanged, run-Effect, inserts, changes, Effect}
use run_state.Store.Transition.{Evolves, next, here, Transition}
use run_state.Store.Transition.Laws.{
  Transition-IsWellFormed, Evolves-Extends, Transition-Extends, Evolves-terminal,
}
use run_state.Store.Extension.{Extends}
use run_state.Store.Invariant.{IsWellFormed}
use run_state.Store.Machine.{run_all, Operation, run}
use run_state.Store.Rows.{is_terminal_status, TaskRows}

pub record IsValid (db : Database) : Type 0 where
  pub keyed : Keyed db
  pub rows : All IsWellFormed db

id-Transition : {r r' : TaskRows} → Transition r r' → IsWellFormed r → r'.task.id ≡ r.task.id
id-Transition step wf = (Transition-Extends step wf).task.id

pub Effect-IsValid : {db db' : Database} → Effect db db' → IsValid db → IsValid db'
Effect-IsValid (unchanged e) v = rw e v
Effect-IsValid {db} (changes id r r' found step e) v =
    let wf = All-find_task IsWellFormed id db found v.rows in
    let same = id-Transition step wf ∙ id-find_task id db found in
    rw e (record {
      keyed = Keyed-put_task id r' db same v.keyed;
      rows = All-put_task IsWellFormed id r' db (Transition-IsWellFormed step wf) v.rows;
    })
Effect-IsValid {db} (inserts r fresh wf storable unused e) v = rw e (record {
  keyed = Keyed-append db r fresh v.keyed;
  rows = All-append IsWellFormed db r v.rows wf;
})

-- The rows of a task after an effect: as they were, or one transition later.
Effect-find_task :
    {db db' : Database} (j : String) {r : TaskRows}
    → Effect db db'
    → IsValid db
    → find_task j db ≡ some r
    → (find_task j db' ≡ some r) ⊎ ((r' : TaskRows) × (find_task j db' ≡ some r') × Transition r r')
Effect-find_task j (unchanged e) v h = inl (rw e h)
Effect-find_task {db} j {r} (changes id s s' found step e) v h =
    let wf = All-find_task IsWellFormed id db found v.rows in
    let same = id-Transition step wf ∙ id-find_task id db found in
    elim (Bool-cases (str_eq id j)) [
      | inl hit ↦
          let it : s ≡ r = ground (arith, eq_iff id j) in
          inr (
            s',
            rw (e, find_task-put_task id j s' db same found, hit) refl,
            subst (λ x. Transition x s') it step,
          )
      | inr miss ↦ inl (rw (e, find_task-put_task id j s' db same found, miss) h)
    ]
Effect-find_task {db} j (inserts r' fresh wf storable unused e) v h =
    inl (rw e (find_task-append j db r' h))

Evolves-step : {r s t : TaskRows} → Transition r s → Evolves s t → Evolves r t
Evolves-step step here = next here step
Evolves-step step (next before last) = next (Evolves-step step before) last

module _ (id_before : String → String → Bool) where
  pub run-IsValid : (op : Operation) (db : Database) → IsValid db → IsValid (run id_before op db)
  run-IsValid op db v = Effect-IsValid (run-Effect id_before op db v.keyed) v

  -- A valid database stays valid under any interleaving of operations.
  pub run_all-IsValid :
      (ops : List Operation) (db : Database) → IsValid db → IsValid (run_all id_before ops db)
  unfolding run_all
  run_all-IsValid [] db v = v
  run_all-IsValid (op ∷ rest) db v =
      run_all-IsValid rest (run id_before op db) (run-IsValid op db v)

  -- The rows of a task are still there after any interleaving, and have come there by transitions.
  pub run_all-Evolves :
      (ops : List Operation) (db : Database) (j : String) {r : TaskRows}
      → IsValid db
      → find_task j db ≡ some r
      → (r' : TaskRows) × (find_task j (run_all id_before ops db) ≡ some r') × Evolves r r'
  unfolding run_all
  run_all-Evolves [] db j {r} v h = (r, h, here)
  run_all-Evolves (op ∷ rest) db j {r} v h =
      let effect = run-Effect id_before op db v.keyed in
      let v' = Effect-IsValid effect v in
      elim (Effect-find_task j effect v h) [
        | inl same ↦ run_all-Evolves rest (run id_before op db) j v' same
        | inr (s, found, step) ↦
            let (t, last, evolves) =
              run_all-Evolves rest (run id_before op db) j {r = s} v' found in
            (t, last, Evolves-step step evolves)
      ]

  -- Under any interleaving of operations on a valid database a task stays there, and its later
  -- rows extend the earlier ones: definitions of steps and results of succeeded steps stay,
  -- events are only appended, and lease version, current step, attempts and cancellation never go
  -- back.
  pub run_all-Extends :
      (ops : List Operation) (db : Database) (j : String) {r : TaskRows}
      → IsValid db
      → find_task j db ≡ some r
      → (r' : TaskRows) × (find_task j (run_all id_before ops db) ≡ some r') × Extends r r'
  run_all-Extends ops db j v h =
      let (r', found, evolves) = run_all-Evolves ops db j v h in
      (r', found, Evolves-Extends evolves (All-find_task IsWellFormed j db h v.rows))

  -- The rows of a task in a terminal status stay as they are under any interleaving of operations
  -- on a valid database.
  pub run_all-terminal :
      (ops : List Operation) (db : Database) (j : String) {r : TaskRows}
      → IsValid db
      → find_task j db ≡ some r
      → is_terminal_status r.task.status ≡ true
      → find_task j (run_all id_before ops db) ≡ some r
  run_all-terminal ops db j v h ended =
      let (r', found, evolves) = run_all-Evolves ops db j v h in
      rw (← Evolves-terminal evolves ended) found
