-- ===== src/Worker/Completion/Claim.antt =====
-- A turn of a slot of the worker that nothing disturbs, from the claim of a task on
-- (internal/worker/worker.go, internal/store/store.go).
use run_state.Base.{
  String, ◌∙◌, Bool, ◌∷◌, ◌-◌, subst, some, eq_refl, [], All, ◌≤◌, ◌≡◌, ◌<◌, ◌+◌, ℕ, ok, length,
  false, dec_lt, arith, ap,
}
use run_state.Store.Types.{Clock, Claim, due}
use run_state.Store.Database.{find_task, Database}
use run_state.Store.Machine.Claims.{claim_task-IsClaimed, IsClaimed}
use run_state.Worker.Completion.Rows.{IsDoable}
use run_state.Worker.Completion.Course.{IsOnCourse}
use run_state.Worker.Completion.Round.{IsQuietRound}
use run_state.Store.Invariant.{IsWellFormed}
use run_state.Executor.Decode.{Library}
use run_state.Task.Model.{Status}
use run_state.Store.Rows.{is_terminal_status, is_running, TaskRows}
use run_state.Worker.Slot.{
  run_slot, claim_fuel, next_turn, claim_task-Reaches, after_claim, Turn, execute_claim,
}
use run_state.Store.Lock.{validate_ownership, owns_active_lease, lock_task}
use run_state.Store.Database.Rows.{All-find_task}
use run_state.Store.Machine.Quiet.{call-quiet, IsQuietLink}
use run_state.Worker.Completion.Run.{execute_from-IsSucceeded, IsSucceeded}
use run_state.Store.Machine.Laws.{IsValid}
use run_state.Store.Scan.{claim_task}
use run_state.Store.Machine.Reaches.{IsValid-Reaches}

-- The lease of a claim is active until its end, where the task is not cancelled and its deadline has not
-- passed.
claimed-owned :
    (d : ℕ) (c now : Clock) (worker : String) (db db' : Database) (granted : Claim)
    (p : IsClaimed d c worker db db' granted)
    → now.lock < c.write + d
    → p.after.task.cancel_requested ≡ false
    → due p.after.task.deadline_at now.lock ≡ false
    → validate_ownership (lock_task now p.after.task) granted.token ≡ ok tt
unfolding validate_ownership owns_active_lease
claimed-owned d c now worker db db' granted p below going in_time = rw p.running (
    rw p.holder (
      rw p.named (
        rw (eq_refl worker)
          (rw p.version (rw p.expires (rw going (rw in_time (ground (arith, below)))))))))

not_last :
    (r : TaskRows)
    → IsWellFormed r
    → 0 < length r.steps
    → r.task.status ≡ Status.running
    → r.task.current_step < length r.steps
not_last r wf some_steps running = elim (dec_lt r.task.current_step (length r.steps)) [
  | yes h ↦ h
  | no h ↦
      let at_end : r.task.current_step ≡ length r.steps = omega (arith, h, wf.task.in_range) in
      let over = wf.task.unfinished at_end some_steps in absurd (ground (arith, over, running))
]

module _ (id_before : String → String → Bool) (lib : Library) (lease_duration : ℕ) (worker : String)
    (turn : Turn) (limit : ℕ) (quiet : (i : ℕ) → IsQuietRound limit (turn.rounds i)) where
  -- What a claimed task needs in order to succeed.
  pub record CanSucceed (granted : Claim) (r : TaskRows) : Type 0 where
    pub some_steps : 0 < length r.steps
    pub going : r.task.cancel_requested ≡ false
    pub in_time : (now : ℕ) → now < limit → due r.task.deadline_at now ≡ false
    pub leased : limit ≤ turn.claim.clock.write + lease_duration
    pub doable :
        All
          (λ s.
            r.task.current_step ≤ s.index
            → IsDoable lib granted.token (λ k. (turn.rounds k).environment) s)
          r.steps

  claimed-IsOnCourse :
      (db db' : Database) (granted : Claim)
      (p : IsClaimed lease_duration turn.claim.clock worker db db' granted)
      → IsWellFormed p.after
      → CanSucceed granted p.after
      → IsOnCourse lib granted.token (λ k. (turn.rounds k).environment) limit p.after
  claimed-IsOnCourse db db' granted p wf able = record {
    owned = λ now below.
        claimed-owned lease_duration turn.claim.clock now worker db db' granted p
          (omega (arith, below, able.leased)) able.going (able.in_time now.lock below);
    running = ap is_running p.running;
    doable = able.doable;
    some_left = not_last p.after wf able.some_steps p.running;
  }

  execute_claim-IsSucceeded :
      (db db' : Database) (granted : Claim)
      (p : IsClaimed lease_duration turn.claim.clock worker db db' granted)
      → IsValid db'
      → CanSucceed granted p.after
      → (e : Database) × (execute_claim id_before lib lease_duration worker turn.rounds granted db'
          ≡ some e)
        × IsSucceeded granted.token.task_id e
  unfolding execute_claim
  execute_claim-IsSucceeded db db' granted p valid able =
      let wf = All-find_task IsWellFormed granted.token.task_id db' p.stored valid.rows in
      let ongoing : is_terminal_status p.after.task.status ≡ false =
        ap is_terminal_status p.running in
      let enough : length p.after.steps - p.after.task.current_step < claim_fuel (some p.after) =
        rw ongoing (omega arith) in
      rw p.stored (
        execute_from-IsSucceeded id_before lib granted.token turn.rounds limit quiet
          (claim_fuel (some p.after)) 0 db' p.after valid p.stored
          (claimed-IsOnCourse db db' granted p wf able) enough)

  -- A slot of a worker whose call of ClaimTask is answered with a task of a valid database, and
  -- which nothing disturbs, takes the task to its success: where the task has steps, is not
  -- cancelled, its lease and its deadline last for the calls of the rounds, which are answered
  -- with no other process in between, and its steps that are left are no approvals, do not run
  -- and, whatever the rows of the task once the step before them has succeeded, have an input
  -- that resolves and with which the execution succeeds, in the environment of every round with
  -- the same output, which is valid JSON, not empty and at most 1 MiB, the turn ends and leaves
  -- the task SUCCEEDED with all its steps.
  pub run_slot-IsSucceeded :
      (db db' : Database) (granted : Claim) {r : TaskRows}
      → IsValid db
      → IsQuietLink turn.claim
      → claim_task id_before turn.claim.clock turn.skip lease_duration worker db ≡ (ok granted, db')
      → find_task granted.token.task_id db' ≡ some r
      → CanSucceed granted r
      → (e : Database) × (run_slot id_before lib lease_duration worker (turn ∷ []) db ≡ some e)
        × IsSucceeded granted.token.task_id e
  unfolding run_slot
  run_slot-IsSucceeded db db' granted {r} valid still claimed found able =
      let p =
        claim_task-IsClaimed id_before turn.claim.clock turn.skip lease_duration worker db valid
          claimed in
      let same : r ≡ p.after = ground (arith, found, p.stored) in
      let called =
        call-quiet id_before turn.claim
          (claim_task id_before turn.claim.clock turn.skip lease_duration worker) db still
          claimed in
      let valid' =
        IsValid-Reaches id_before
          (claim_task-Reaches id_before lib lease_duration worker turn db claimed) valid in
      let (e, done, succeeded) =
        execute_claim-IsSucceeded db db' granted p valid' (subst (CanSucceed granted) same able) in
      (
        e,
        ap
            (λ o.
              next_turn id_before lib lease_duration worker o
                (λ now. run_slot id_before lib lease_duration worker [] now))
            (ap (after_claim id_before lib lease_duration worker turn) called ∙ done),
        succeeded,
      )
