-- ===== src/Store/Machine/Stored.antt =====
-- What the tables hold after any interleaving of operations (internal/store/store.go,
-- internal/migrations/sql/001_init.sql).
use run_state.Base.{All}
use run_state.Store.Constraints.{IsStorable, AllDisjoint}
use run_state.Store.Database.{Database}
use run_state.Store.Machine.Laws.{IsValid}
use run_state.Store.Machine.Effect.{Effect}

pub record IsStored (db : Database) : Type 0 where
  pub valid : IsValid db
  pub storable : All IsStorable db
  pub disjoint : AllDisjoint db
