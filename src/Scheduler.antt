-- ===== src/Scheduler.antt =====
-- The scheduler (internal/scheduler/scheduler.go): it processes the tasks that are due, one transaction
-- after the other, until none is left, and then waits.
pub mod Drain
pub mod Drained
pub mod Ending
use run_state.Executor.Types.{ContextState, live}
use run_state.Store.Answer.{Answer}
use run_state.Base.{ℕ, Option, Bool, zero, true, suc, some, ok, none, false, err, String}
use run_state.Store.Database.{Database}
use run_state.Store.Machine.Call.{Link, call}
use run_state.Store.Scan.{process_due_control}

-- What one scan meets: the state of the scheduler's context before it, its call of the store, and the
-- rows that other transactions hold.
pub record Scan : Type 0 where
  pub context : ContextState
  pub link : Link
  pub skip : String → Bool

abbrev pub is_done : ContextState → Bool
is_done live = false
is_done _ = true

module _ (id_before : String → String → Bool) (scans : ℕ → Scan) where
  abbrev pub scan : Scan → Database → Answer Bool × Database
  scan s = call id_before s.link (process_due_control id_before s.link.clock s.skip)

  -- What follows `ProcessDueControl` in the inner loop, which an error ends too.
  abbrev pub after_scan :
      ℕ → Answer Bool × Database → (Database → Option (ℕ × Database)) → Option (ℕ × Database)
  after_scan i (ok true, db) go_on = go_on db
  after_scan i (ok false, db) go_on = some (i, db)
  after_scan i (err e, db) go_on = some (i, db)

  -- The inner loop of `Run`, from the scan with the given number, to the number of the next one; `none`
  -- means that the fuel ran out.
  unfoldable pub drain : ℕ → ℕ → Database → Option (ℕ × Database)
  drain zero i db = none
  drain (suc fuel) i db = elim (is_done (scans i).context) [
    | true ↦ some (i, db)
    | false ↦ after_scan (suc i) (scan (scans i) db) (λ db'. drain fuel (suc i) db')
  ]

  abbrev pub after_drain :
      Option (ℕ × Database) → (ℕ → Database → Option Database) → Option Database
  after_drain none go_on = none
  after_drain (some (i, db)) go_on = go_on i db

  -- The outer loop of `Run`, with fuel for its own rounds and for each of the inner ones.
  unfoldable pub run_scheduler : ℕ → ℕ → ℕ → Database → Option Database
  run_scheduler drain_fuel zero i db = none
  run_scheduler drain_fuel (suc fuel) i db = elim (is_done (scans i).context) [
    | true ↦ some db
    | false ↦ after_drain (drain drain_fuel i db) (λ j db'. run_scheduler drain_fuel fuel j db')
  ]
