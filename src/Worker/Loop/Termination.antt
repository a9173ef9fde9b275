-- ===== src/Worker/Loop/Termination.antt =====
-- The rounds that a task has left for the loop of the worker (internal/worker/worker.go).
use run_state.Base.{
  ◌<◌, ◌≤◌, ◌-◌, subst, err, eq_refl, ◌∙◌, arith, String, Bool, length, inr, inl, false, Bool-cases,
  true, some, ok, if◌then◌else◌, List, [], ◌∷◌, ◌≡◌, refl, ap, ℕ, suc,
}
use run_state.Store.Extension.{Extends, AllPreserved}
use run_state.Store.Types.{permanent, StepOutcome, Clock, StepAttempt, Outcome, LeaseToken}
use run_state.Store.Invariant.{IsWellFormed}
use run_state.Task.Model.{Task, Step}
use run_state.Store.Rows.{is_terminal_status, TaskRows}
use run_state.Store.Finish.{
  succeed_step, limit_outcome, finish_succeeded, finish_step, finish_failed,
}
use run_state.Store.Finish.Success.{finish_step-Finishing}
use run_state.Store.Rows.Steps.{length-update_step, index-find_step_lt}
use run_state.Store.Lock.{validate_ownership, lock_task, owns_active_lease}
use run_state.Store.Database.{put_task, find_task, commit, Database, transact}
use run_state.Store.Machine.Laws.{
  run_all-terminal, run_all-IsValid, run_all-Extends, run-IsValid, IsValid,
}
use run_state.Store.Database.Rows.{id-find_task, find_task-put_task, All-find_task}
use run_state.Store.Transition.Laws.{Transition-Extends}
use run_state.Store.Machine.{run, finish}
use run_state.Store.Transition.{finishes}
use run_state.Store.Machine.Reaches.{Reaches}

length-AllPreserved : (xs ys : List Step) → AllPreserved xs ys → length ys ≡ length xs
length-AllPreserved [] [] p = refl
length-AllPreserved [] (y ∷ ys) p = absurd p
length-AllPreserved (x ∷ xs) [] p = absurd p
length-AllPreserved (x ∷ xs) (y ∷ ys) p = ap suc (length-AllPreserved xs ys p.1)

-- The rounds that may still be started on the rows of a task.
abbrev pub rounds_left : TaskRows → ℕ
rounds_left r =
    if is_terminal_status r.task.status then 0 else suc (length r.steps - r.task.current_step)

-- No operation adds rounds.
rounds_left-Extends :
    (r r' : TaskRows)
    → Extends r r'
    → (is_terminal_status r.task.status ≡ true → r' ≡ r)
    → rounds_left r' ≤ rounds_left r
rounds_left-Extends r r' e ended = elim (Bool-cases (is_terminal_status r.task.status)) [
  | inl over ↦ rw (ended over) (omega arith)
  | inr ongoing ↦
      let same = length-AllPreserved r.steps r'.steps e.steps in
      ground (arith, ongoing, e.task.current_step, same)
]

owned-ongoing :
    (c : Clock) (t : Task) (lease : LeaseToken)
    → validate_ownership (lock_task c t) lease ≡ ok tt
    → is_terminal_status t.status ≡ false
unfolding validate_ownership owns_active_lease
owned-ongoing c t lease h = ground arith

limit_outcome-permanent :
    (o : StepOutcome) → o.failure_class ≡ permanent → (limit_outcome o).failure_class ≡ permanent
unfolding limit_outcome
limit_outcome-permanent o h = ground arith

-- Finishing an attempt that did not fail for a time takes a round.
finish_step-rounds :
    (c : Clock) (lease : LeaseToken) (a : StepAttempt) (o : StepOutcome) (r : TaskRows)
    {r' : TaskRows}
    → IsWellFormed r
    → o.failure_class ≡ permanent
    → finish_step c lease a o r ≡ ok (tt, r')
    → rounds_left r' < rounds_left r
unfolding finish_failed finish_succeeded
finish_step-rounds c lease a o r {r'} wf class h =
    let p = finish_step-Finishing c lease a o r h in
    let ongoing = owned-ongoing c r.task lease p.owned in
    let bound = index-find_step_lt a.step_id 0 r.steps p.found wf.indexed in
    let current = p.finishing.current in
    let failed = limit_outcome-permanent o class in
    elim p.branch [
      | inl (e, rows) ↦ rw rows (ground (arith, failed, ongoing))
      | inr (e, checked, rows) ↦ rw rows (
          ground (
            arith,
            ongoing,
            current,
            bound,
            length-update_step a.step_id (succeed_step c (limit_outcome o).output.document) r.steps,
          ))
    ]

commit-eq-ok :
    {A : Type 0} (id : String) (db : Database) (m : Outcome (A × TaskRows)) {a : A} {db' : Database}
    → commit id db m ≡ (ok a, db')
    → (r' : TaskRows) × (m ≡ ok (a, r')) × (put_task id r' db ≡ db')
commit-eq-ok id db (ok (b, r')) {a} {db'} h = (r', ground (arith, h), ap (λ p. p.1) h)
commit-eq-ok id db (err e) h = absurd (ground (arith, h))

-- A valid database in which a task is there, with a bound on the rounds that it has left.
pub record AtMost (id : String) (n : ℕ) (db : Database) : Type 0 where
  pub valid : IsValid db
  pub rows : TaskRows
  pub found : find_task id db ≡ some rows
  pub left : rounds_left rows ≤ n

module _ (id_before : String → String → Bool) where
  pub AtMost-Reaches :
      {id : String} {n : ℕ} {d e : Database} → Reaches id_before d e → AtMost id n d → AtMost id n e
  AtMost-Reaches {id} {n} {d} p h =
      let (r, found, later) = run_all-Extends id_before p.ops d id h.valid h.found in
      let ended = λ (over : is_terminal_status h.rows.task.status ≡ true).
        run_all-terminal id_before p.ops d id h.valid h.found over in
      rw p.same (record {
        valid = run_all-IsValid id_before p.ops d h.valid;
        rows = r;
        found = found;
        left =
            let fewer =
              rounds_left-Extends h.rows r later (λ over. ground (arith, found, ended over)) in
            omega (arith, fewer, h.left);
      })

  -- An answered `FinishStep` for a success leaves fewer rounds.
  pub finish-fewer :
      (c : Clock) (lease : LeaseToken) (a : StepAttempt) (o : StepOutcome) (n : ℕ) (db : Database)
      {db' : Database}
      → o.failure_class ≡ permanent
      → AtMost lease.task_id n db
      → transact lease.task_id (finish_step c lease a o) db ≡ (ok tt, db')
      → (m : ℕ) × (m < n) × AtMost lease.task_id m db'
  unfolding transact run
  finish-fewer c lease a o n db {db'} class h done =
      let r = h.rows in
      let wf = All-find_task IsWellFormed lease.task_id db h.found h.valid.rows in
      let body = rw (h.found, transact) at done in
      let (r', finished, stored) = commit-eq-ok lease.task_id db (finish_step c lease a o r) body in
      let id : r'.task.id ≡ lease.task_id =
        (Transition-Extends (finishes c lease a o finished) wf).task.id
        ∙ id-find_task lease.task_id db h.found in
      (
        rounds_left r',
        omega (arith, finish_step-rounds c lease a o r wf class finished, h.left),
        record {
          valid =
              subst IsValid (ap (λ p. p.1) done)
                (run-IsValid id_before (finish c lease a o) db h.valid);
          rows = r';
          found = rw (← stored) (
              rw (find_task-put_task lease.task_id lease.task_id r' db id h.found)
                (rw (eq_refl lease.task_id) refl));
          left = omega arith;
        },
      )
