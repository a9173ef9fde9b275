-- ===== src/Store/Machine.antt =====
-- The database under any sequence of operations of internal/store/store.go: an interleaving of API
-- handlers, workers and schedulers is the list of their transactions in the order in which they
-- commit, each with its own readings of the clock and its own set of locked rows.
pub mod Effect
pub mod Laws
pub mod Stored
pub mod Fencing
pub mod Claims
pub mod Call
pub mod Reaches
pub mod Quiet
use run_state.Base.{◌∷◌, [], String, List, Bool, ℕ}
use run_state.Store.Types.{StepOutcome, StepAttempt, LeaseToken, Clock}
use run_state.Store.Database.{transact, Database}
use run_state.Task.Model.{Definition, Decision}
use run_state.Store.Control.{timeout_owned_task, cancel_task, cancel_owned_task}
use run_state.Store.Scan.{wake_due_retry, process_due_control, claim_task}
use run_state.Store.Create.{create_task}
use run_state.Store.Approval.{wait_for_approval, decide_approval}
use run_state.Store.Finish.{finish_step}
use run_state.Store.Lease.{renew_lease}
use run_state.Store.Start.{start_step}

pub data Operation : Type 0 where
  create : Clock → String → (ℕ → String) → Definition → Operation
  claim : Clock → (String → Bool) → ℕ → String → Operation
  renew : Clock → ℕ → LeaseToken → Operation
  start : Clock → LeaseToken → String → Operation
  await : Clock → LeaseToken → String → Operation
  decide : Clock → String → String → Decision → Operation
  finish : Clock → LeaseToken → StepAttempt → StepOutcome → Operation
  time_out : Clock → LeaseToken → Operation
  cancel : Clock → String → Operation
  cancel_owned : Clock → LeaseToken → Operation
  control : Clock → (String → Bool) → Operation
  wake_retry : Clock → (String → Bool) → Operation

module _ (id_before : String → String → Bool) where
  -- The database after an operation, whatever its answer.
  unfoldable pub run : Operation → Database → Database
  run (create c id new_id d) db = (create_task c id new_id d db).1
  run (claim c skip lease_duration worker) db =
      (claim_task id_before c skip lease_duration worker db).1
  run (renew c lease_duration lease) db =
      (transact lease.task_id (renew_lease c lease_duration lease) db).1
  run (start c lease step_id) db = (transact lease.task_id (start_step c lease step_id) db).1
  run (await c lease step_id) db = (transact lease.task_id (wait_for_approval c lease step_id) db).1
  run (decide c id step_id decision) db = (transact id (decide_approval c step_id decision) db).1
  run (finish c lease a o) db = (transact lease.task_id (finish_step c lease a o) db).1
  run (time_out c lease) db = (transact lease.task_id (timeout_owned_task c lease) db).1
  run (cancel c id) db = (transact id (cancel_task c) db).1
  run (cancel_owned c lease) db = (transact lease.task_id (cancel_owned_task c lease) db).1
  run (control c skip) db = (process_due_control id_before c skip db).1
  run (wake_retry c skip) db = (wake_due_retry id_before c skip db).1

  unfoldable pub run_all : List Operation → Database → Database
  run_all [] db = db
  run_all (op ∷ rest) db = run_all rest (run op db)
