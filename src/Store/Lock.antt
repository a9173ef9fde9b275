-- ===== src/Store/Lock.antt =====
-- The lock on a task and the fencing test: `lockTask`, `validateOwnership`, `ownsActiveLease`.
pub mod Exclusion
use run_state.Base.{
  ℕ, String, Option, none, some, Bool, false, ◌&&◌, ◌==◌, str_eq, guard, ◌>>◌, not,
}
use run_state.Task.Json.{Json}
use run_state.Task.Model.{Task, Status}
use run_state.Store.Types.{
  Outcome, LeaseToken, Clock, lease_lost, cancelled_task, deadline_exceeded, after, due,
}
use run_state.Store.Rows.{is_running}

pub record LockedTask : Type 0 where
  pub status : Status
  pub worker_id : Option String
  pub lease_version : ℕ
  pub lease_expires_at : Option ℕ
  pub cancel_requested : Bool
  pub deadline_at : Option ℕ
  pub database_now : ℕ
  pub current_step : ℕ
  pub checkpoint : Json

-- `lockTask` on a row that exists: its columns, and the clock read after the lock is held.
abbrev pub lock_task : Clock → Task → LockedTask
lock_task c t = record {
  status = t.status;
  worker_id = t.worker_id;
  lease_version = t.lease_version;
  lease_expires_at = t.lease_expires_at;
  cancel_requested = t.cancel_requested;
  deadline_at = t.deadline_at;
  database_now = c.lock;
  current_step = t.current_step;
  checkpoint = t.checkpoint;
}

-- `locked.workerID != nil && *locked.workerID == lease.WorkerID`
abbrev pub held_by : Option String → String → Bool
held_by none worker = false
held_by (some holder) worker = str_eq holder worker

-- `locked.leaseExpiresAt != nil && locked.leaseExpiresAt.After(locked.databaseNow)`
abbrev pub unexpired : Option ℕ → ℕ → Bool
unexpired none now = false
unexpired (some t) now = after t now

unfoldable pub owns_active_lease : LockedTask → LeaseToken → Bool
owns_active_lease locked lease =
    is_running locked.status
    && held_by locked.worker_id lease.worker_id
    && (locked.lease_version == lease.lease_version)
    && unexpired locked.lease_expires_at locked.database_now

unfoldable pub validate_ownership : LockedTask → LeaseToken → Outcome (Unit {0})
unfolding owns_active_lease
validate_ownership locked lease = do
  guard (owns_active_lease locked lease) lease_lost
  guard (not locked.cancel_requested) cancelled_task
  guard (not (due locked.deadline_at locked.database_now)) deadline_exceeded
