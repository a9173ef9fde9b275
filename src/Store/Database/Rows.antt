-- ===== src/Store/Database/Rows.antt =====
-- The queries on the table of tasks, over a database that holds each id once
-- (internal/store/store.go).
use run_state.Base.{
  ◌⊎◌, ◌++◌, true, sym, refl, eq_refl, Bool-cases, Bool, All, ◌≡◌, ◌∷◌, subst, str_eq, some, none,
  inr, inl, if◌then◌else◌, false, eq_iff, arith, [], String, Option,
}
use run_state.Store.Database.{earlier, put_task, first_by, find_task, Database}
use run_state.Store.Rows.{TaskRows}

-- PRIMARY KEY (id)
abbrev pub Keyed : Database → Type 0
Keyed [] = Unit
Keyed (r ∷ rest) = (find_task r.task.id rest ≡ none) × Keyed rest

pub id-find_task :
    (id : String) (db : Database) {r : TaskRows} → find_task id db ≡ some r → r.task.id ≡ id
unfolding find_task
id-find_task id [] h = cc
id-find_task id (x ∷ rest) {r} h = elim (Bool-cases (str_eq x.task.id id)) [
  | inl e ↦ ground (arith, eq_iff x.task.id id)
  | inr e ↦ id-find_task id rest {r = r} (ground arith)
]

find_task-ne :
    (id : String) (db : Database) (r : TaskRows) (j : String)
    → find_task id db ≡ none
    → find_task j db ≡ some r
    → str_eq id j ≡ false
unfolding find_task
find_task-ne id [] r j h g = cc
find_task-ne id (x ∷ rest) r j h g = elim (Bool-cases (str_eq x.task.id j)) [
  | inl e ↦ ground (arith, eq_iff id j, eq_iff x.task.id id, eq_iff x.task.id j)
  | inr e ↦ find_task-ne id rest r j (ground arith) (ground arith)
]

pub All-find_task :
    (P : TaskRows → Type 0) (id : String) (db : Database) {r : TaskRows}
    → find_task id db ≡ some r
    → All P db
    → P r
unfolding find_task
All-find_task P id [] h all = cc
All-find_task P id (x ∷ rest) h all = elim (Bool-cases (str_eq x.task.id id)) [
  | inl e ↦ subst P (ground arith) all.0
  | inr e ↦ All-find_task P id rest (ground arith) all.1
]

-- A query sees a commit under its own id, and no other.
pub find_task-put_task :
    (id j : String) (r' : TaskRows) (db : Database) {r : TaskRows}
    → r'.task.id ≡ id
    → find_task id db ≡ some r
    → find_task j (put_task id r' db) ≡ (if str_eq id j then some r' else find_task j db)
unfolding find_task put_task
find_task-put_task id j r' [] same h = cc
find_task-put_task id j r' (x ∷ rest) {r} same h = ground (
  arith,
  eq_iff id j,
  eq_iff x.task.id id,
  eq_iff x.task.id j,
  eq_iff r'.task.id j,
  find_task-put_task id j r' rest {r = r} same,
)

find_task-put_task-none :
    (id j : String) (r' : TaskRows) (db : Database)
    → r'.task.id ≡ id
    → find_task j db ≡ none
    → find_task j (put_task id r' db) ≡ none
unfolding find_task put_task
find_task-put_task-none id j r' [] same h = refl
find_task-put_task-none id j r' (x ∷ rest) same h = ground (
  arith,
  eq_iff x.task.id id,
  eq_iff x.task.id j,
  eq_iff r'.task.id j,
  find_task-put_task-none id j r' rest same,
)

pub Keyed-put_task :
    (id : String) (r' : TaskRows) (db : Database)
    → r'.task.id ≡ id
    → Keyed db
    → Keyed (put_task id r' db)
unfolding put_task
Keyed-put_task id r' [] same keyed = tt
Keyed-put_task id r' (x ∷ rest) same keyed = elim (Bool-cases (str_eq x.task.id id)) [
  | inl e ↦
      let ids : r'.task.id ≡ x.task.id = ground (arith, eq_iff x.task.id id) in
      rw e (subst (λ i. find_task i rest ≡ none) (sym ids) keyed.0, keyed.1)
  | inr e ↦ rw e (
    find_task-put_task-none id x.task.id r' rest same keyed.0,
    Keyed-put_task id r' rest same keyed.1,
  )
]

pub All-put_task :
    (P : TaskRows → Type 0) (id : String) (r' : TaskRows) (db : Database)
    → P r'
    → All P db
    → All P (put_task id r' db)
unfolding put_task
All-put_task P id r' [] p all = tt
All-put_task P id r' (x ∷ rest) p all = elim (Bool-cases (str_eq x.task.id id)) [
  | inl e ↦ rw e (p, all.1)
  | inr e ↦ rw e (all.0, All-put_task P id r' rest p all.1)
]

-- A new task goes to the end.
pub find_task-append :
    (j : String) (db : Database) (r' : TaskRows) {r : TaskRows}
    → find_task j db ≡ some r
    → find_task j (db ++ r' ∷ []) ≡ some r
unfolding find_task
find_task-append j [] r' h = cc
find_task-append j (x ∷ rest) r' {r} h = ground (arith, find_task-append j rest r' {r = r})

find_task-append_none :
    (j : String) (db : Database) (r' : TaskRows)
    → find_task j db ≡ none
    → str_eq r'.task.id j ≡ false
    → find_task j (db ++ r' ∷ []) ≡ none
unfolding find_task
find_task-append_none j [] r' h ne = rw ne
find_task-append_none j (x ∷ rest) r' h ne = ground (arith, find_task-append_none j rest r')

pub Keyed-append :
    (db : Database) (r' : TaskRows)
    → find_task r'.task.id db ≡ none
    → Keyed db
    → Keyed (db ++ r' ∷ [])
unfolding find_task
Keyed-append [] r' h keyed = (refl, tt)
Keyed-append (x ∷ rest) r' h keyed = (
  find_task-append_none x.task.id rest r' keyed.0
      (ground (arith, eq_iff x.task.id r'.task.id, eq_iff r'.task.id x.task.id)),
  Keyed-append rest r' (ground arith) keyed.1,
)

pub All-append :
    (P : TaskRows → Type 0) (db : Database) (r' : TaskRows)
    → All P db
    → P r'
    → All P (db ++ r' ∷ [])
All-append P [] r' all p = (p, tt)
All-append P (x ∷ rest) r' all p = (all.0, All-append P rest r' all.1 p)

earlier-cases :
    (before : TaskRows → TaskRows → Bool) (x : TaskRows) (o : Option TaskRows)
    → (earlier before x o ≡ x) ⊎ (o ≡ some (earlier before x o))
earlier-cases before x none = inl refl
earlier-cases before x (some b) = elim (Bool-cases (before b x)) [
  | inl e ↦ inr (rw e)
  | inr e ↦ inl (rw e)
]

-- The row that a scan selects passes its test, and is the row under its id.
pub first_by_sound :
    (test : TaskRows → Bool) (before : TaskRows → TaskRows → Bool) (db : Database) {r : TaskRows}
    → Keyed db
    → first_by test before db ≡ some r
    → (test r ≡ true) × (find_task r.task.id db ≡ some r)
unfolding first_by find_task
first_by_sound test before [] keyed h = cc
first_by_sound test before (x ∷ rest) {r} keyed h =
    let later : (first_by test before rest ≡ some r)
        → (test r ≡ true) × (find_task r.task.id (x ∷ rest) ≡ some r) =
      λ found.
        let ih = first_by_sound test before rest {r = r} keyed.1 found in
        (ih.0, rw (find_task-ne x.task.id rest r r.task.id keyed.0 ih.1) ih.1) in
    elim (Bool-cases (test x)) [
      | inr e ↦ later (rw (e, first_by) at h)
      | inl e ↦
          let chosen = rw (e, first_by) at h in
          elim (earlier-cases before x (first_by test before rest)) [
            | inl same ↦
                let it : x ≡ r = ground (arith, chosen, same) in
                subst (λ y. (test y ≡ true) × (find_task y.task.id (x ∷ rest) ≡ some y)) it
                  (e, rw (eq_refl x.task.id))
            | inr best ↦ later (ground (arith, chosen, best))
          ]
    ]
