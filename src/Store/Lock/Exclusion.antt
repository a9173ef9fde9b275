-- ===== src/Store/Lock/Exclusion.antt =====
-- Which leases and claims exclude one another (internal/store/store.go).
use run_state.Base.{ℕ, true, false, ◌≡◌, ◌≤◌, arith, ok, eq_iff, Option-cases, inl, inr}
use run_state.Store.Types.{LeaseToken, Clock}
use run_state.Task.Model.{Task}
use run_state.Store.Lock.{validate_ownership, owns_active_lease, lock_task}
use run_state.Store.Lease.{claimable}

-- Two leases that both pass the ownership test on the same row of a task, at any two times, are
-- of the same worker and the same version.
pub validate_ownership-exclusive :
    (c c' : Clock) (t : Task) (lease lease' : LeaseToken)
    → validate_ownership (lock_task c t) lease ≡ ok tt
    → validate_ownership (lock_task c' t) lease' ≡ ok tt
    → (lease.worker_id ≡ lease'.worker_id) × (lease.lease_version ≡ lease'.lease_version)
unfolding validate_ownership owns_active_lease
validate_ownership-exclusive c c' t lease lease' h h' = elim (Option-cases t.worker_id) [
  | inl e ↦ absurd (ground (arith, e))
  | inr (w, e) ↦
      (ground (arith, e, eq_iff w lease.worker_id, eq_iff w lease'.worker_id), ground (arith, e))
]

-- A task that the scan of ClaimTask finds claimable is held by no active lease at that time or
-- later, as long as its row stays the same.
pub claimable-unowned :
    (c : Clock) (t : Task) (lease : LeaseToken) (now : ℕ)
    → claimable t now ≡ true
    → now ≤ c.lock
    → owns_active_lease (lock_task c t) lease ≡ false
unfolding claimable owns_active_lease
claimable-unowned c t lease now h later = ground arith
