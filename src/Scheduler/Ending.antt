-- ===== src/Scheduler/Ending.antt =====
-- The end of `Run` (internal/scheduler/scheduler.go) with its context.
use run_state.Store.Answer.{Answer}
use run_state.Base.{
  ◌≤◌, ◌∙◌, subst, ok, err, dec_lt, ap, Bool, ◌≡◌, ◌<◌, ◌-◌, ℕ, zero, true, suc, some, refl, inr,
  inl, false, arith, String, Bool-cases,
}
use run_state.Store.Database.{Database}
use run_state.Store.Machine.Reaches.{call-Reaches, Reaches-trans, Reaches, Reaches-refl}
use run_state.Scheduler.{run_scheduler, after_scan, Scan, drain, scan, is_done}
use run_state.Store.Machine.{run, control}
use run_state.Store.Scan.{process_due_control}

module _ (id_before : String → String → Bool) (scans : ℕ → Scan) where
  scan-Reaches : (s : Scan) (db : Database) → Reaches id_before db (scan id_before scans s db).1
  unfolding run
  scan-Reaches s db =
      call-Reaches id_before s.link (process_due_control id_before s.link.clock s.skip)
        (control s.link.clock s.skip) db (λ d. refl)

  -- A round of the inner loop.
  pub drain-scan :
      (fuel i : ℕ) (db : Database) (p : Answer Bool × Database)
      → is_done (scans i).context ≡ false
      → scan id_before scans (scans i) db ≡ p
      → drain id_before scans (suc fuel) i db
        ≡ after_scan id_before scans (suc i) p (λ d. drain id_before scans fuel (suc i) d)
  unfolding drain
  drain-scan fuel i db p going scanned =
      rw (going, drain)
        (ap (λ q. after_scan id_before scans (suc i) q (λ d. drain id_before scans fuel (suc i) d))
          scanned)

  -- The inner loop, from a scan to one that is no later than `last`.
  pub record Drains (drain_fuel i last : ℕ) (db : Database) : Type 0 where
    pub next : ℕ
    pub after : Database
    pub ends : drain id_before scans drain_fuel i db ≡ some (next, after)
    pub not_before : i ≤ next
    pub not_after : next ≤ last
    pub later : is_done (scans i).context ≡ false → i < next
    pub reaches : Reaches id_before db after

  module _ (last : ℕ) (ended : is_done (scans last).context ≡ true) where
    scan-Drains :
        (fuel i : ℕ) (db : Database) (p : Answer Bool × Database)
        → scan id_before scans (scans i) db ≡ p
        → is_done (scans i).context ≡ false
        → i < last
        → ((d : Database) → Drains fuel (suc i) last d)
        → Drains (suc fuel) i last db
    scan-Drains fuel i db (ok true, d) scanned going before rest = record {
      next = (rest d).next;
      after = (rest d).after;
      ends = drain-scan fuel i db (ok true, d) going scanned ∙ (rest d).ends;
      not_before = omega (arith, (rest d).not_before);
      not_after = (rest d).not_after;
      later = λ h. omega (arith, (rest d).not_before);
      reaches =
          Reaches-trans id_before
            (subst (λ q. Reaches id_before db q.1) scanned (scan-Reaches (scans i) db))
            (rest d).reaches;
    }
    scan-Drains fuel i db (ok false, d) scanned going before rest = record {
      next = suc i;
      after = d;
      ends = drain-scan fuel i db (ok false, d) going scanned;
      not_before = omega arith;
      not_after = before;
      later = λ h. omega arith;
      reaches = subst (λ q. Reaches id_before db q.1) scanned (scan-Reaches (scans i) db);
    }
    scan-Drains fuel i db (err e, d) scanned going before rest = record {
      next = suc i;
      after = d;
      ends = drain-scan fuel i db (err e, d) going scanned;
      not_before = omega arith;
      not_after = before;
      later = λ h. omega arith;
      reaches = subst (λ q. Reaches id_before db q.1) scanned (scan-Reaches (scans i) db);
    }

    before_last : (i : ℕ) → i ≤ last → is_done (scans i).context ≡ false → i < last
    before_last i before going = elim (dec_lt i last) [
      | yes h ↦ h
      | no h ↦
          let same : i ≡ last = omega (arith, before, h) in
          let over = ap (λ k. is_done (scans k).context) same ∙ ended in
          absurd (ground (arith, over, going))
    ]

    drain-Drains : (fuel i : ℕ) (db : Database) → i ≤ last → last - i < fuel → Drains fuel i last db
    unfolding drain
    drain-Drains zero i db before enough = absurd (omega (arith, enough))
    drain-Drains (suc fuel) i db before enough = elim (Bool-cases (is_done (scans i).context)) [
      | inl over ↦ record {
        next = i;
        after = db;
        ends = rw (over, drain) refl;
        not_before = omega arith;
        not_after = before;
        later = λ h. absurd (ground (arith, h, over));
        reaches = Reaches-refl id_before db;
      }
      | inr going ↦
          let some_left = before_last i before going in
          scan-Drains fuel i db (scan id_before scans (scans i) db) refl going some_left
            (λ d. drain-Drains fuel (suc i) d some_left (omega (arith, some_left, enough)))
    ]

    -- Where the context has ended by some scan, Run of the scheduler returns, with fuel for the
    -- scans up to that one, whatever the scans meet, and the database that it leaves comes from
    -- the first one by a sequence of operations.
    pub run_scheduler-Reaches :
        (drain_fuel fuel i : ℕ) (db : Database)
        → i ≤ last
        → last - i < drain_fuel
        → last - i < fuel
        → (e : Database) × (run_scheduler id_before scans drain_fuel fuel i db ≡ some e)
          × Reaches id_before db e
    unfolding run_scheduler
    run_scheduler-Reaches drain_fuel zero i db before inner enough = absurd (omega (arith, enough))
    run_scheduler-Reaches drain_fuel (suc fuel) i db before inner enough =
        elim (Bool-cases (is_done (scans i).context)) [
          | inl over ↦ (db, rw (over, run_scheduler) refl, Reaches-refl id_before db)
          | inr going ↦
              let d = drain-Drains drain_fuel i db before inner in
              let further = d.later going in
              let (e, done, reached) =
                run_scheduler-Reaches drain_fuel fuel d.next d.after d.not_after
                  (omega (arith, further, inner))
                  (omega (arith, further, before, enough, d.not_after)) in
              (
                e,
                rw (going, run_scheduler) (rw d.ends done),
                Reaches-trans id_before d.reaches reached,
              )
        ]
