-- ===== src/Scheduler/Drained.antt =====
-- The inner loop of internal/scheduler/scheduler.go while no other process commits.
use run_state.Executor.Types.{live}
use run_state.Base.{
  [], String, Option-cases, Bool-cases, ◌∙◌, sym, ap, Bool, All, ◌⊎◌, ◌≤◌, ◌≡◌, ◌∷◌, ◌<◌, ℕ, zero,
  true, suc, some, refl, ok, none, inr, inl, false, arith,
}
use run_state.Store.Database.{put_task, Database, first_by}
use run_state.Store.Answer.{lift_answer, delivered}
use run_state.Store.Machine.Laws.{run_all-IsValid, IsValid}
use run_state.Store.Machine.{run_all, run, control}
use run_state.Store.Machine.Reaches.{Reaches-trans, Reaches, Reaches-refl}
use run_state.Scheduler.{is_done, after_scan, Scan, scan, drain}
use run_state.Store.Rows.{TaskRows}
use run_state.Store.Scan.{process_due_control, control_candidate}
use run_state.Store.Control.{control_due}
use run_state.Scheduler.Drain.{total-put_task, control_selected-weight, control_selected-due, total}
use run_state.Store.Database.Rows.{first_by_sound}
use run_state.Store.Types.{Outcome}
use run_state.Scheduler.Ending.{drain-scan}
use run_state.Store.Machine.Quiet.{call-quiet}

-- A scan that nothing disturbs: the context is live, no other process commits before it or holds a row,
-- the call is answered, and the clock does not go back within it.
pub record IsQuiet (s : Scan) : Type 0 where
  pub is_open : s.context ≡ live
  pub alone : s.link.others ≡ []
  pub answered : s.link.delivery ≡ delivered
  pub free : (id : String) → s.skip id ≡ false
  pub order : s.link.clock.select ≤ s.link.clock.lock

first_by-none :
    (test : TaskRows → Bool) (before : TaskRows → TaskRows → Bool) (db : Database)
    → first_by test before db ≡ none
    → All (λ r. test r ≡ false) db
unfolding first_by
first_by-none test before [] h = tt
first_by-none test before (x ∷ rest) h = elim (Bool-cases (test x)) [
  | inl e ↦ let h' = rw (e, first_by) at h in absurd (ground (arith, h'))
  | inr e ↦ (e, first_by-none test before rest (rw (e, first_by) at h))
]

All-map :
    (P Q : TaskRows → Type 0) (db : Database) → ((r : TaskRows) → P r → Q r) → All P db → All Q db
All-map P Q [] f all = tt
All-map P Q (x ∷ rest) f all = (f x all.0, All-map P Q rest f all.1)

module _ (id_before : String → String → Bool) where
  scan-quiet :
      (s : Scan) (scans : ℕ → Scan) (db : Database)
      → IsQuiet s
      → scan id_before scans s db ≡ (
        lift_answer (process_due_control id_before s.link.clock s.skip db).0,
        (process_due_control id_before s.link.clock s.skip db).1,
      )
  scan-quiet s scans db quiet =
      call-quiet id_before s.link (process_due_control id_before s.link.clock s.skip) db
        (record { alone = quiet.alone; answered = quiet.answered }) refl

  -- What a scan of a valid database does.
  abbrev pub NothingDue : Scan → Database → Type 0
  NothingDue s db = All (λ r. control_due r.task s.link.clock.select ≡ false) db

  process_due_control-cases :
      (s : Scan) (db : Database)
      → IsQuiet s
      → IsValid db
      → ((process_due_control id_before s.link.clock s.skip db ≡ (ok false, db)) × NothingDue s db)
        ⊎ ((db' : Database) × (process_due_control id_before s.link.clock s.skip db
              ≡ (ok true, db'))
            × (total db' < total db))
  unfolding process_due_control control_candidate
  process_due_control-cases s db quiet valid =
      elim (Option-cases (control_candidate id_before s.link.clock s.skip db)) [
        | inl gone ↦ inl (
          rw (gone, process_due_control) refl,
          All-map _ _ db (λ r miss. ground (arith, miss, quiet.free r.task.id))
              (first_by-none _ _ db gone),
        )
        | inr (r, chosen) ↦
            let (passed, found) = first_by_sound _ _ db valid.keyed chosen in
            let due_now : control_due r.task s.link.clock.select ≡ true = ground (arith, passed) in
            let (r', selected) = control_selected-due s.link.clock r quiet.order due_now in
            inr (
              put_task r.task.id r' db,
              rw (chosen, process_due_control) (rw selected refl),
              total-put_task r.task.id db r r' found
                  (control_selected-weight s.link.clock r due_now selected),
            )
      ]

  module _ (scans : ℕ → Scan) (quiet : (i : ℕ) → IsQuiet (scans i)) where
    drain-step :
        (fuel i : ℕ) (db : Database) {answer : Outcome Bool} {db' : Database}
        → process_due_control id_before (scans i).link.clock (scans i).skip db ≡ (answer, db')
        → drain id_before scans (suc fuel) i db
          ≡ after_scan id_before scans
              (suc i)
              (lift_answer answer, db')
              (λ d. drain id_before scans fuel (suc i) d)
    drain-step fuel i db {answer} {db'} processed =
        drain-scan id_before scans fuel i db (lift_answer answer, db')
          (ap is_done (quiet i).is_open)
          (scan-quiet (scans i) scans db (quiet i) ∙ ap (λ p. (lift_answer p.0, p.1)) processed)

    process_due_control-Reaches :
        (s : Scan) (db : Database) {answer : Outcome Bool} {db' : Database}
        → process_due_control id_before s.link.clock s.skip db ≡ (answer, db')
        → Reaches id_before db db'
    unfolding run run_all
    process_due_control-Reaches s db processed = record {
      ops = control s.link.clock s.skip ∷ [];
      same = sym (ap (λ p. p.1) processed);
    }

    -- While no other process commits or holds a row, calls are answered, the context is live and
    -- each scan reads no later time when it selects than when it has locked the row, the inner
    -- loop of the scheduler ends on a valid database, with more fuel than the times that its
    -- tasks may still be processed, which are at most two for each, and leaves by operations a
    -- database in which no task was due at the last scan.
    pub drain-NothingDue :
        (fuel i : ℕ) (db : Database)
        → IsValid db
        → total db < fuel
        → (k : ℕ) × (db' : Database) × (drain id_before scans fuel i db ≡ some (suc k, db'))
          × Reaches id_before db db'
          × NothingDue (scans k) db'
    drain-NothingDue zero i db valid enough = absurd (omega (arith, enough))
    drain-NothingDue (suc fuel) i db valid enough =
        elim (process_due_control-cases (scans i) db (quiet i) valid) [
          | inl (idle, nothing) ↦
              (i, db, drain-step fuel i db idle, Reaches-refl id_before db, nothing)
          | inr (d, worked, less) ↦
              let reached = process_due_control-Reaches (scans i) db worked in
              let still : IsValid d =
                rw reached.same (run_all-IsValid id_before reached.ops db valid) in
              let (k, e, ended, later, nothing) =
                drain-NothingDue fuel (suc i) d still (omega (arith, less, enough)) in
              (
                k,
                e,
                drain-step fuel i db worked ∙ ended,
                Reaches-trans id_before reached later,
                nothing,
              )
        ]
