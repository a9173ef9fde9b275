-- ===== src/Store/Constraints/Kept.antt =====
-- A later state of the rows of a task keeps the constraints (internal/store/store.go).
use run_state.Base.{
  All, ◌≡◌, ◌∷◌, ◌∙◌, ◌++◌, sym, subst, str_eq, some, none, inr, inl, arith, ap, [], String, List,
  Bool-cases,
}
use run_state.Store.Database.Rows.{All-put_task, All-append, All-find_task}
use run_state.Store.Constraints.{IsStoredStep, AllDisjoint, IsStorable, AllUnused}
use run_state.Store.Extension.{Preserves, AllPreserved, Extends}
use run_state.Store.Database.{put_task, Database, find_task}
use run_state.Task.Model.{Step}
use run_state.Store.Rows.{find_step, TaskRows}
use run_state.Store.Create.{idempotency_key}

step_kept :
    (owner : String) (x y : Step) → Preserves x y → IsStoredStep owner x → IsStoredStep owner y
step_kept owner x y p h = record {
  task_id = p.task_id ∙ h.task_id;
  key = p.idempotency_key ∙ h.key ∙ ap (idempotency_key owner) (sym p.id);
  max_attempts = rw p.max_attempts h.max_attempts;
  timeout = rw p.timeout_seconds h.timeout;
}

steps_kept :
    (owner : String) (xs ys : List Step)
    → AllPreserved xs ys
    → All (IsStoredStep owner) xs
    → All (IsStoredStep owner) ys
steps_kept owner [] [] p h = tt
steps_kept owner [] (y ∷ ys) p h = absurd p
steps_kept owner (x ∷ xs) [] p h = absurd p
steps_kept owner (x ∷ xs) (y ∷ ys) p h =
    (step_kept owner x y p.0 h.0, steps_kept owner xs ys p.1 h.1)

pub IsStorable-Extends : {r r' : TaskRows} → Extends r r' → IsStorable r → IsStorable r'
IsStorable-Extends {r} {r'} e h = record {
  timeout = rw e.task.task_timeout_seconds h.timeout;
  steps = rw e.task.id (steps_kept r.task.id r.steps r'.steps e.steps h.steps);
}

absent_kept :
    (id : String) (xs ys : List Step)
    → AllPreserved xs ys
    → find_step id xs ≡ none
    → find_step id ys ≡ none
unfolding find_step
absent_kept id [] [] p h = h
absent_kept id [] (y ∷ ys) p h = absurd p
absent_kept id (x ∷ xs) [] p h = absurd p
absent_kept id (x ∷ xs) (y ∷ ys) p h = ground (arith, p.0.id, absent_kept id xs ys p.1, h)

-- The steps of another task stay unused.
AllUnused-Extends :
    (steps : List Step) {r r' : TaskRows} → Extends r r' → AllUnused steps r → AllUnused steps r'
AllUnused-Extends [] e h = tt
AllUnused-Extends (s ∷ rest) {r} {r'} e h =
    (absent_kept s.id r.steps r'.steps e.steps h.0, AllUnused-Extends rest e h.1)

AllUnused-AllPreserved :
    (x : TaskRows) (xs ys : List Step)
    → AllPreserved xs ys
    → All (λ s. find_step s.id x.steps ≡ none) xs
    → All (λ s. find_step s.id x.steps ≡ none) ys
AllUnused-AllPreserved x [] [] p h = tt
AllUnused-AllPreserved x [] (y ∷ ys) p h = absurd p
AllUnused-AllPreserved x (s ∷ xs) [] p h = absurd p
AllUnused-AllPreserved x (s ∷ xs) (y ∷ ys) p h =
    (rw p.0.id h.0, AllUnused-AllPreserved x xs ys p.1 h.1)

earlier_kept :
    (db : Database) {r r' : TaskRows}
    → Extends r r'
    → All (λ later. AllUnused later.steps r) db
    → All (λ later. AllUnused later.steps r') db
earlier_kept [] e h = tt
earlier_kept (x ∷ rest) e h = (AllUnused-Extends x.steps e h.0, earlier_kept rest e h.1)

-- The commit of a later state of the rows of one task.
pub AllDisjoint-put_task :
    (id : String) (db : Database) {r r' : TaskRows}
    → find_task id db ≡ some r
    → Extends r r'
    → AllDisjoint db
    → AllDisjoint (put_task id r' db)
unfolding find_task put_task
AllDisjoint-put_task id [] h e d = tt
AllDisjoint-put_task id (x ∷ rest) {r} {r'} h e d = elim (Bool-cases (str_eq x.task.id id)) [
  | inl hit ↦
      let it : r ≡ x = ground (arith, h, hit) in
      rw hit (earlier_kept rest (subst (λ y. Extends y r') it e) d.0, d.1)
  | inr miss ↦
      let later : find_task id rest ≡ some r = ground (arith, h, miss) in
      let unused = All-find_task (λ y. AllUnused y.steps x) id rest later d.0 in
      rw miss (
        All-put_task (λ y. AllUnused y.steps x) id r' rest
            (AllUnused-AllPreserved x r.steps r'.steps e.steps unused) d.0,
        AllDisjoint-put_task id rest later e d.1,
      )
]

-- A new task whose steps are unused.
pub AllDisjoint-append :
    (db : Database) (r' : TaskRows)
    → All (AllUnused r'.steps) db
    → AllDisjoint db
    → AllDisjoint (db ++ r' ∷ [])
AllDisjoint-append [] r' h d = (tt, tt)
AllDisjoint-append (x ∷ rest) r' h d = (
  All-append (λ later. AllUnused later.steps x) rest r' d.0 h.0,
  AllDisjoint-append rest r' h.1 d.1,
)
