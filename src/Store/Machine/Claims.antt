-- ===== src/Store/Machine/Claims.antt =====
-- What a worker gets from `ClaimTask` (internal/store/store.go), and what becomes of the leases before
-- it.
use run_state.Base.{
  Bool, ◌≤◌, ℕ, ltb, ◌≡◌, ◌<◌, ◌+◌, true, subst, str_eq, some, refl, or_fail-eq-ok, ok, none, inr,
  inl, eq_refl, arith, ap, String, Option-cases, Option, List, Bool-cases,
}
use run_state.Store.Types.{no_task, Clock, Claim, Outcome, LeaseToken}
use run_state.Store.Database.{put_task, find_task, Database}
use run_state.Store.Machine.Fencing.{run_all-IsFenced, IsFenced}
use run_state.Store.Machine.Laws.{run-IsValid, IsValid}
use run_state.Store.Machine.{run_all, Operation, run}
use run_state.Store.Lease.{
  after_recovery, Recovery, claimable, recovered, recover_step, recover_expired_task, grant_lease,
  exhausted, claim_selected,
}
use run_state.Task.Model.{Step, Status}
use run_state.Store.Rows.{step_at, is_running, TaskRows, is_running_step}
use run_state.Store.Scan.{claim_task, claim_row, claim_candidate}
use run_state.Store.Database.Rows.{first_by_sound, find_task-put_task}

recovered_task :
    (c : Clock) (r : TaskRows) (o : Option Step)
    → (recover_step c r o).1 ≡ recovered
    → (recover_step c r o).0.task ≡ r.task
unfolding recover_step
recovered_task c r none h = cc
recovered_task c r (some s) h = elim (Bool-cases (is_running_step s.status)) [
  | inr idle ↦ rw (idle, recover_step)
  | inl busy ↦ elim (Bool-cases (ltb s.attempt s.max_attempts)) [
    | inl room ↦ rw (busy, room, recover_step)
    | inr spent ↦ absurd (cc (rw (busy, spent, recover_step) at h))
  ]
]

-- The rows on which the lease is assigned: those of the task, after the recovery if there was one.
pub record IsGranted (c : Clock) (d : ℕ) (worker : String) (r : TaskRows) : Type 0 where
  pub rows : TaskRows
  pub task : rows.task ≡ r.task
  pub granted : claim_selected c d worker r ≡ grant_lease c d worker r.task rows

after_recovery-IsGranted :
    (c : Clock) (d : ℕ) (worker : String) (r : TaskRows) (p : TaskRows × Recovery) {claim : Claim}
    → (p.1 ≡ recovered → p.0.task ≡ r.task)
    → claim_selected c d worker r ≡ after_recovery c d worker r.task p
    → (after_recovery c d worker r.task p).1 ≡ some claim
    → IsGranted c d worker r
after_recovery-IsGranted c d worker r (s, recovered) same e h = record {
  rows = s;
  task = same refl;
  granted = e;
}
after_recovery-IsGranted c d worker r (s, exhausted) same e h = cc

claim_selected-IsGranted :
    (c : Clock) (d : ℕ) (worker : String) (r : TaskRows) {claim : Claim}
    → (claim_selected c d worker r).1 ≡ some claim
    → IsGranted c d worker r
unfolding claim_selected recover_expired_task
claim_selected-IsGranted c d worker r h = elim (Bool-cases (is_running r.task.status)) [
  | inl running ↦
      after_recovery-IsGranted c d worker r (recover_expired_task c r)
        (recovered_task c _ (step_at r.task.current_step r.steps))
        (rw (running, claim_selected) refl) (rw (running, claim_selected) at h)
  | inr idle ↦ record { rows = r; task = refl; granted = rw (idle, claim_selected) refl }
]

-- What a worker gets with a claim: a lease on a task that was claimable, under a version that no lease
-- before had, and rows that say so.
pub record IsClaimed (d : ℕ) (c : Clock) (worker : String) (db db' : Database) (claim : Claim)
    : Type 0 where
  pub before : TaskRows
  pub after : TaskRows
  pub chosen : claimable before.task c.select ≡ true
  pub found : find_task claim.token.task_id db ≡ some before
  pub stored : find_task claim.token.task_id db' ≡ some after
  pub named : claim.token.worker_id ≡ worker
  pub holder : after.task.worker_id ≡ some worker
  pub fresh : claim.token.lease_version ≡ before.task.lease_version + 1
  pub version : after.task.lease_version ≡ claim.token.lease_version
  pub running : after.task.status ≡ Status.running
  pub expires : after.task.lease_expires_at ≡ some (c.write + d)

module _ (c : Clock) (d : ℕ) (worker : String) (db : Database) (r : TaskRows)
    (found : find_task r.task.id db ≡ some r) (test : claimable r.task c.select ≡ true) where
  granted-IsClaimed :
      (s : TaskRows) (claim : Claim)
      → s.task ≡ r.task
      → (grant_lease c d worker r.task s).1 ≡ some claim
      → IsClaimed d c worker db (put_task r.task.id (grant_lease c d worker r.task s).0 db) claim
  unfolding grant_lease
  granted-IsClaimed s claim same h =
      let id : claim.token.task_id ≡ r.task.id = ground arith in
      record {
        before = r;
        after = (grant_lease c d worker r.task s).0;
        chosen = test;
        found = rw id found;
        stored = rw id (
            rw
              (
                find_task-put_task r.task.id r.task.id (grant_lease c d worker r.task s).0 db
                    (ground arith) found,
                eq_refl r.task.id,
              )
              refl);
        named = ground arith;
        holder = refl;
        fresh = ground arith;
        version = ground arith;
        running = refl;
        expires = refl;
      }

  claim_row-IsClaimed :
      (id_before : String → String → Bool) {claim : Claim} {db' : Database}
      → claim_row id_before c d worker db (some r) ≡ (ok claim, db')
      → IsClaimed d c worker db db' claim
  claim_row-IsClaimed id_before {claim} {db'} h =
      let answer : (claim_selected c d worker r).1 ≡ some claim =
        or_fail-eq-ok (claim_selected c d worker r).1 no_task
          (ap (λ (p : Outcome Claim × Database). p.0) h) in
      let g = claim_selected-IsGranted c d worker r answer in
      let stored : put_task r.task.id (grant_lease c d worker r.task g.rows).0 db ≡ db' =
        rw (← g.granted) (ap (λ (p : Outcome Claim × Database). p.1) h) in
      subst (λ x. IsClaimed d c worker db x claim) stored
        (granted-IsClaimed g.rows claim g.task (rw (← g.granted) answer))

-- A claim that is granted on a valid database is for a task that was claimable at the time of the
-- scan; the task is then RUNNING under the worker until the end of the lease, and the version of
-- the lease is one above the last one.
pub claim_task-IsClaimed :
    (id_before : String → String → Bool) (c : Clock) (skip : String → Bool) (d : ℕ)
    (worker : String) (db : Database) {claim : Claim} {db' : Database}
    → IsValid db
    → claim_task id_before c skip d worker db ≡ (ok claim, db')
    → IsClaimed d c worker db db' claim
unfolding claim_task claim_candidate
claim_task-IsClaimed id_before c skip d worker db v h = elim (Bool-cases (str_eq worker "")) [
  | inl e ↦ absurd (cc (rw (e, claim_task) at h))
  | inr e ↦ elim (Option-cases (claim_candidate id_before c skip db)) [
    | inl missing ↦ absurd (cc (rw (e, missing, claim_task) at h))
    | inr (r, chosen) ↦
        let (test, found) = first_by_sound _ _ db v.keyed chosen in
        claim_row-IsClaimed c d worker db r found (ground arith) id_before
          (rw (e, chosen, claim_task) at h)
  ]
]

-- A claim that is granted on a valid database fences every earlier lease on the task for good. A
-- lease on it whose version is at most the one that its row had before the claim is refused after
-- any further operations: renewing, starting, waiting for approval and finishing under it fail
-- with ErrLeaseLost and change nothing.
pub claim_task-fences :
    (id_before : String → String → Bool) (c : Clock) (skip : String → Bool) (d : ℕ)
    (worker : String) (db : Database) (ops : List Operation) (lease : LeaseToken) {claim : Claim}
    {db' : Database} {r : TaskRows}
    → IsValid db
    → claim_task id_before c skip d worker db ≡ (ok claim, db')
    → lease.task_id ≡ claim.token.task_id
    → find_task lease.task_id db ≡ some r
    → lease.lease_version ≤ r.task.lease_version
    → IsFenced lease (run_all id_before ops db')
unfolding run
claim_task-fences id_before c skip d worker db ops lease {claim} {db'} {r} v h same found reached =
    let p = claim_task-IsClaimed id_before c skip d worker db v h in
    let valid : IsValid db' =
      subst IsValid (ap (λ (p : Outcome Claim × Database). p.1) h)
        (run-IsValid id_before (Operation.claim c skip d worker) db v) in
    let it : r ≡ p.before = ground (arith, found, p.found, same) in
    let before : r.task.lease_version < p.after.task.lease_version =
      rw it (omega (arith, p.version, p.fresh)) in
    run_all-IsFenced id_before ops db' lease {r = p.after} valid (rw same p.stored)
      (omega (arith, reached, before))
