-- ===== src/Worker/Monitor.antt =====
-- `monitorControl` (internal/worker/worker.go): beside the loop over the steps it renews the lease and
-- looks for a cancellation, until the context of the task ends or it ends that itself.
pub mod Cancelled
use run_state.Store.Answer.{CallError, Answer, store_error, is_error, is_cancelled_task}
use run_state.Base.{
  List, Bool, ◌∷◌, ◌>>=◌, ℕ, true, or_fail, ok, if◌then◌else◌, false, err, [], String,
}
use run_state.Store.Types.{not_found, Error, Clock, Outcome, LeaseToken}
use run_state.Store.Database.{find_task, Database, transact}
use run_state.Store.Machine.Call.{Link, call}
use run_state.Worker.{cancel_claim}
use run_state.Store.Control.{cancellation_requested_for}
use run_state.Store.Lease.{renew_lease}

-- What the monitor is woken by; where no more comes, the context is done.
pub data Tick : Type 0 where
  heartbeat : Link → Link → Tick
  cancellation : Link → Link → Tick

-- What it sends to `heartbeatDone`: nil, or the error with which it has called `cancel`.
pub data Done : Type 0 where
  context_done : Done
  stopped : CallError → Done

-- `CancellationRequested` on the database.
abbrev pub read_cancellation : Clock → LeaseToken → Database → Outcome Bool
read_cancellation c lease db = or_fail (find_task lease.task_id db) not_found >>= λ r.
    cancellation_requested_for c lease r.task

module _ (id_before : String → String → Bool) (lease_duration : ℕ) (lease : LeaseToken) where
  abbrev pub renew_call : Link → Database → Answer (Unit {0}) × Database
  renew_call link =
      call id_before link (transact lease.task_id (renew_lease link.clock lease_duration lease))

  abbrev pub cancellation_call : Link → Database → Answer Bool × Database
  cancellation_call link = call id_before link (λ db. (read_cancellation link.clock lease db, db))

  -- What follows `RenewLease`.
  abbrev pub after_renew :
      {A : Type 0} → Link → Answer A × Database → (Database → Done × Database) → Done × Database
  after_renew cancel_link (ok a, db) go_on = go_on db
  after_renew cancel_link (err e, db) go_on = (
    stopped e,
    if is_error {A = Unit {0}} is_cancelled_task (err e)
        then (cancel_claim id_before cancel_link lease db).1
        else db,
  )

  -- What follows `CancellationRequested`.
  abbrev pub after_poll :
      Link → Answer Bool × Database → (Database → Done × Database) → Done × Database
  after_poll cancel_link (err e, db) go_on = (stopped e, db)
  after_poll cancel_link (ok false, db) go_on = go_on db
  after_poll cancel_link (ok true, db) go_on =
      (stopped (store_error Error.cancelled_task), (cancel_claim id_before cancel_link lease db).1)

  -- The loop.
  unfoldable pub monitor_control : List Tick → Database → Done × Database
  monitor_control [] db = (context_done, db)
  monitor_control (heartbeat link cancel_link ∷ rest) db =
      after_renew cancel_link (renew_call link db) (λ now. monitor_control rest now)
  monitor_control (cancellation link cancel_link ∷ rest) db =
      after_poll cancel_link (cancellation_call link db) (λ now. monitor_control rest now)
