-- ===== src/Store/Database.antt =====
-- The whole database, and the transactions of internal/store/store.go on it: a transaction locks the
-- rows of one task, works on them, and commits what it wrote or rolls it back.
pub mod Rows
use run_state.Base.{
  ◌∷◌, str_eq, some, or_fail, ok, none, if◌then◌else◌, err, [], String, Option, List, Bool,
}
use run_state.Task.Model.{Event}
use run_state.Store.Types.{not_found, Outcome}
use run_state.Store.Rows.{TaskRows}

-- The rows of the three tables, task by task.
abbrev pub Database : Type 0
Database = List TaskRows

-- `SELECT ... FROM tasks WHERE id = $1`
unfoldable pub find_task : String → Database → Option TaskRows
find_task id [] = none
find_task id (r ∷ rest) = if str_eq r.task.id id then some r else find_task id rest

-- The commit of the rows of one task.
unfoldable pub put_task : String → TaskRows → Database → Database
put_task id r' [] = []
put_task id r' (r ∷ rest) = if str_eq r.task.id id then r' ∷ rest else r ∷ put_task id r' rest

abbrev pub Transaction : Type 0 → Type 0
Transaction A = Database → Outcome A × Database

abbrev pub commit : {A : Type 0} → String → Database → Outcome (A × TaskRows) → Outcome A × Database
commit id db (ok (a, r')) = (ok a, put_task id r' db)
commit id db (err e) = (err e, db)

abbrev locked_transaction :
    {A : Type 0}
    → String
    → (TaskRows → Outcome (A × TaskRows))
    → Database
    → Option TaskRows
    → Outcome A × Database
locked_transaction id body db none = (err not_found, db)
locked_transaction id body db (some r) = commit id db (body r)

-- `BeginTx`, `lockTask`, the body, `Commit`, and the deferred `Rollback` where the body fails.
unfoldable pub transact :
    {A : Type 0} → String → (TaskRows → Outcome (A × TaskRows)) → Transaction A
transact id body db = locked_transaction id body db (find_task id db)

-- The better of a row and of the best of the rows behind it.
abbrev pub earlier : (TaskRows → TaskRows → Bool) → TaskRows → Option TaskRows → TaskRows
earlier before r none = r
earlier before r (some b) = if before b r then b else r

-- The first row under an order, of those that pass a test: `WHERE ... ORDER BY ... LIMIT 1`.
unfoldable pub first_by :
    (TaskRows → Bool) → (TaskRows → TaskRows → Bool) → Database → Option TaskRows
first_by test before [] = none
first_by test before (r ∷ rest) =
    let best = first_by test before rest in if test r then some (earlier before r best) else best

-- `LoadTask`
unfoldable pub load_task : String → Database → Outcome TaskRows
load_task id db = or_fail (find_task id db) not_found

-- `LoadEvents`
unfoldable pub load_events : String → Database → List Event
load_events id db = elim (find_task id db) [ none ↦ [] | some r ↦ r.events ]
