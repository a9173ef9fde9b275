-- ===== src/Store/Machine/Call.antt =====
-- A process calls the operations of internal/store/store.go while others do: what these commit before
-- the call, the clock of the call, and whether the call and its answer get through.
use run_state.Store.Answer.{deliver, Delivery, Answer}
use run_state.Base.{String, List, Bool}
use run_state.Store.Types.{Clock}
use run_state.Store.Database.{Transaction, Database}
use run_state.Store.Machine.{run_all, Operation}

pub record Link : Type 0 where
  pub others : List Operation
  pub clock : Clock
  pub delivery : Delivery

module _ (id_before : String → String → Bool) where
  -- One call of the store.
  unfoldable pub call : {A : Type 0} → Link → Transaction A → Database → Answer A × Database
  call link transaction db =
      let before = run_all id_before link.others db in
      deliver link.delivery (transaction before) before
