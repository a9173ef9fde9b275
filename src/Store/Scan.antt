-- ===== src/Store/Scan.antt =====
-- The transactions that look for a task: `ClaimTask`, `ProcessDueControl` and `WakeDueRetry`
-- (internal/store/store.go). The rows that other transactions hold are skipped (SKIP LOCKED), and the
-- order of ids is that of the database's collation: both are arguments.
pub mod Order
pub mod Unstuck
use run_state.Base.{
  ltb, ◌||◌, ◌==◌, ◌&&◌, true, str_eq, some, or_fail, ok, not, none, if◌then◌else◌, false, err,
  String, Option, Bool, ℕ,
}
use run_state.Store.Types.{due, worker_id_required, no_task, Outcome, Clock, Claim}
use run_state.Store.Database.{put_task, first_by, Transaction, Database}
use run_state.Task.Model.{Task}
use run_state.Store.Rows.{TaskRows}
use run_state.Store.Lease.{claimable, claim_selected}
use run_state.Store.Control.{
  wake_retry_task, retry_due, is_retry_wait, control_selected, control_due,
}

-- `at <= at'` with NULL last, strictly.
abbrev pub time_before : Option ℕ → Option ℕ → Bool
time_before (some a) (some b) = ltb a b
time_before (some a) none = true
time_before none _ = false

abbrev pub same_time : Option ℕ → Option ℕ → Bool
same_time (some a) (some b) = a == b
same_time none none = true
same_time _ _ = false

-- The first key of `ProcessDueControl`'s ORDER BY.
abbrev pub control_rank : Task → ℕ → ℕ
control_rank t now = if t.cancel_requested then 0 else if due t.deadline_at now then 1 else 2

-- The second: `CASE WHEN status = 'RETRY_WAIT' THEN retry_at ELSE run_at END`.
abbrev pub control_time : Task → Option ℕ
control_time t = if is_retry_wait t.status then t.retry_at else some t.run_at

module _ (id_before : String → String → Bool) where
  -- ORDER BY created_at, id
  unfoldable pub created_before : TaskRows → TaskRows → Bool
  created_before a b =
      ltb a.task.created_at b.task.created_at
      || ((a.task.created_at == b.task.created_at) && id_before a.task.id b.task.id)

  unfoldable pub control_before : ℕ → TaskRows → TaskRows → Bool
  control_before now a b =
      ltb (control_rank a.task now) (control_rank b.task now)
      || ((control_rank a.task now == control_rank b.task now)
          && (time_before (control_time a.task) (control_time b.task)
              || (same_time (control_time a.task) (control_time b.task)
                  && id_before a.task.id b.task.id)))

  -- ORDER BY retry_at, id
  unfoldable pub retry_before : TaskRows → TaskRows → Bool
  retry_before a b =
      time_before a.task.retry_at b.task.retry_at
      || (same_time a.task.retry_at b.task.retry_at && id_before a.task.id b.task.id)

  -- The query that selects a task to claim.
  unfoldable pub claim_candidate : Clock → (String → Bool) → Database → Option TaskRows
  claim_candidate c skip db =
      first_by (λ r. claimable r.task c.select && not (skip r.task.id)) created_before db

  unfoldable pub control_candidate : Clock → (String → Bool) → Database → Option TaskRows
  control_candidate c skip db =
      first_by (λ r. control_due r.task c.select && not (skip r.task.id)) (control_before c.select)
        db

  unfoldable pub retry_candidate : Clock → (String → Bool) → Database → Option TaskRows
  retry_candidate c skip db =
      first_by (λ r. retry_due r.task c.select && not (skip r.task.id)) retry_before db

  abbrev pub claim_row : Clock → ℕ → String → Database → Option TaskRows → Outcome Claim × Database
  claim_row c lease_duration worker db none = (err no_task, db)
  claim_row c lease_duration worker db (some r) =
      let (r', claim) = claim_selected c lease_duration worker r in
      (or_fail claim no_task, put_task r.task.id r' db)

  -- The transaction commits after an exhausted recovery too, and then reports that there is no task.
  unfoldable pub claim_task : Clock → (String → Bool) → ℕ → String → Transaction Claim
  claim_task c skip lease_duration worker db =
      if str_eq worker ""
      then (err worker_id_required, db)
      else claim_row c lease_duration worker db (claim_candidate c skip db)

  abbrev pub control_row : Database → String → Option TaskRows → Outcome Bool × Database
  control_row db id none = (ok false, db)
  control_row db id (some r') = (ok true, put_task id r' db)

  abbrev pub control_found : Clock → Database → Option TaskRows → Outcome Bool × Database
  control_found c db none = (ok false, db)
  control_found c db (some r) = control_row db r.task.id (control_selected c r)

  unfoldable pub process_due_control : Clock → (String → Bool) → Transaction Bool
  process_due_control c skip db = control_found c db (control_candidate c skip db)

  abbrev pub retry_found : Clock → Database → Option TaskRows → Outcome Bool × Database
  retry_found c db none = (ok false, db)
  retry_found c db (some r) = (ok true, put_task r.task.id (wake_retry_task c r) db)

  unfoldable pub wake_due_retry : Clock → (String → Bool) → Transaction Bool
  wake_due_retry c skip db = retry_found c db (retry_candidate c skip db)
