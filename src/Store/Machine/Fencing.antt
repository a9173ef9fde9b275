-- ===== src/Store/Machine/Fencing.antt =====
-- Fencing (internal/store/store.go): the lease of a worker after its task has been claimed again.
use run_state.Base.{ℕ, ◌≡◌, ◌<◌, some, err, arith, String, List, Bool}
use run_state.Store.Types.{lease_lost, Clock, StepOutcome, StepAttempt, Outcome, LeaseToken, Error}
use run_state.Store.Database.{Database, transact, find_task, commit}
use run_state.Store.Machine.Laws.{run_all-Extends, IsValid}
use run_state.Store.Machine.{run_all, Operation}
use run_state.Store.Rows.{TaskRows}
use run_state.Store.Finish.{finish_step}
use run_state.Store.Lease.{renew_lease}
use run_state.Store.Lock.{validate_ownership, lock_task}
use run_state.Store.Start.{start_step}
use run_state.Store.Approval.{wait_for_approval}

module _ (c : Clock) (lease : LeaseToken) (r : TaskRows)
    (stale : lease.lease_version < r.task.lease_version) where
  stale_ownership : validate_ownership (lock_task c r.task) lease ≡ err lease_lost
  unfolding validate_ownership
  stale_ownership = ground arith

  stale_renew : (d : ℕ) → renew_lease c d lease r ≡ err lease_lost
  unfolding renew_lease
  stale_renew d = rw (stale_ownership, renew_lease)

  stale_start : (step_id : String) → start_step c lease step_id r ≡ err lease_lost
  unfolding start_step
  stale_start step_id = rw (stale_ownership, start_step)

  stale_await : (step_id : String) → wait_for_approval c lease step_id r ≡ err lease_lost
  unfolding wait_for_approval
  stale_await step_id = rw (stale_ownership, wait_for_approval)

  stale_finish : (a : StepAttempt) (o : StepOutcome) → finish_step c lease a o r ≡ err lease_lost
  unfolding finish_step
  stale_finish a o = rw (stale_ownership, finish_step)

-- A body that fails leaves the database alone.
transact-err :
    {A : Type 0} (id : String) (body : TaskRows → Outcome (A × TaskRows)) (db : Database)
    (e : Error) {r : TaskRows}
    → find_task id db ≡ some r
    → body r ≡ err e
    → transact id body db ≡ (err e, db)
unfolding transact
transact-err id body db e found fails = rw (found, transact) (rw (fails, commit))

-- Every write of a worker under a lease is refused, and changes nothing.
pub record IsFenced (lease : LeaseToken) (db : Database) : Type 0 where
  pub renewal :
      (c : Clock) (d : ℕ) → transact lease.task_id (renew_lease c d lease) db ≡ (err lease_lost, db)
  pub start :
      (c : Clock) (step_id : String)
      → transact lease.task_id (start_step c lease step_id) db ≡ (err lease_lost, db)
  pub await :
      (c : Clock) (step_id : String)
      → transact lease.task_id (wait_for_approval c lease step_id) db ≡ (err lease_lost, db)
  pub finish :
      (c : Clock) (a : StepAttempt) (o : StepOutcome)
      → transact lease.task_id (finish_step c lease a o) db ≡ (err lease_lost, db)

stale-IsFenced :
    (lease : LeaseToken) (db : Database) {r : TaskRows}
    → find_task lease.task_id db ≡ some r
    → lease.lease_version < r.task.lease_version
    → IsFenced lease db
stale-IsFenced lease db {r} found stale = record {
  renewal = λ c d. transact-err lease.task_id _ db lease_lost found (stale_renew c lease r stale d);
  start = λ c s. transact-err lease.task_id _ db lease_lost found (stale_start c lease r stale s);
  await = λ c s. transact-err lease.task_id _ db lease_lost found (stale_await c lease r stale s);
  finish =
      λ c a o. transact-err lease.task_id _ db lease_lost found (stale_finish c lease r stale a o);
}

-- A lease whose version a task of a valid database has passed is fenced after any interleaving of
-- operations: renewing, starting, waiting for approval and finishing under it all fail with
-- ErrLeaseLost and leave the database as it was.
pub run_all-IsFenced :
    (id_before : String → String → Bool) (ops : List Operation) (db : Database) (lease : LeaseToken)
    {r : TaskRows}
    → IsValid db
    → find_task lease.task_id db ≡ some r
    → lease.lease_version < r.task.lease_version
    → IsFenced lease (run_all id_before ops db)
run_all-IsFenced id_before ops db lease v found stale =
    let (r', later, extends) = run_all-Extends id_before ops db lease.task_id v found in
    stale-IsFenced lease (run_all id_before ops db) later
      (omega (arith, stale, extends.task.lease_version))
