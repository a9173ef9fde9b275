-- ===== src/Worker/Completion/Run.antt =====
-- The rounds of the worker's loop that nothing disturbs, one after the other
-- (internal/worker/worker.go).
use run_state.Base.{
  String, List, Bool, All, ◌≤◌, ◌≡◌, ◌∷◌, ◌∙◌, ◌<◌, ◌-◌, ◌+◌, ℕ, zero, true, suc, subst, some, refl,
  length, inr, inl, arith, ap, [],
}
use run_state.Store.Database.Rows.{All-find_task}
use run_state.Store.Invariant.{IsWellFormed, AllConsistent}
use run_state.Store.Database.{find_task, Database}
use run_state.Store.Rows.Steps.{Indexed}
use run_state.Worker.Completion.Course.{IsOnCourse}
use run_state.Worker.Completion.Round.{
  execute_round-load, execute_round-RoundAdvanced, IsQuietRound,
}
use run_state.Store.Machine.Laws.{IsValid}
use run_state.Store.Machine.Reaches.{Reaches, IsValid-Reaches}
use run_state.Store.Types.{LeaseToken}
use run_state.Executor.Decode.{Library}
use run_state.Worker.Loop.{
  execute_from, again, Round, Next, continue, leave, is_live, execute_round,
}
use run_state.Task.Model.{StepStatus, Step, Status}
use run_state.Store.Rows.{is_running, TaskRows}
use run_state.Worker.Loop.Refinement.{execute_round-Reaches}

-- The steps of a task that stands past the last of them.
All-done :
    (status : Status) (n k : ℕ) (steps : List Step)
    → Indexed k steps
    → k + length steps ≤ n
    → AllConsistent status n steps
    → All (λ s. s.status ≡ StepStatus.succeeded) steps
All-done status n k [] ix h all = tt
All-done status n k (s ∷ rest) ix h all = (
  all.0.done (omega (arith, h, ix.0)),
  All-done status n (suc k) rest ix.2 (omega (arith, h)) all.1,
)

-- A task that has succeeded with all its steps.
pub record IsSucceeded (id : String) (db : Database) : Type 0 where
  pub rows : TaskRows
  pub stored : find_task id db ≡ some rows
  pub status : rows.task.status ≡ Status.succeeded
  pub steps : All (λ s. s.status ≡ StepStatus.succeeded) rows.steps

find_task-IsSucceeded :
    (id : String) (db : Database) {r : TaskRows}
    → IsValid db
    → find_task id db ≡ some r
    → r.task.status ≡ Status.succeeded
    → IsSucceeded id db
find_task-IsSucceeded id db {r} valid found status =
    let wf = All-find_task IsWellFormed id db found valid.rows in
    let last = wf.task.finished status in
    record {
      rows = r;
      stored = found;
      status = status;
      steps =
          All-done r.task.status r.task.current_step 0 r.steps wf.indexed (omega (arith, last))
            wf.steps;
    }

module _ (id_before : String → String → Bool) (lib : Library) (lease : LeaseToken)
    (rounds : ℕ → Round) (limit : ℕ) (quiet : (i : ℕ) → IsQuietRound limit (rounds i)) where
  abbrev pub OnCourse : TaskRows → Type 0
  OnCourse = IsOnCourse lib lease (λ k. (rounds k).environment) limit

  round-IsValid :
      (i : ℕ) (db : Database) {v : Next} {after : Database}
      → execute_round id_before lib lease (rounds i) db ≡ (v, after)
      → IsValid db
      → IsValid after
  round-IsValid i db went valid =
      IsValid-Reaches id_before
        (subst (λ p. Reaches id_before db p.1) went
          (execute_round-Reaches id_before lib lease (rounds i) db))
        valid

  execute_from-round :
      (fuel i : ℕ) (db : Database)
      → execute_from id_before lib lease rounds (suc fuel) i db
        ≡ continue
            (execute_round id_before lib lease (rounds i) db)
            (λ d. execute_from id_before lib lease rounds fuel (suc i) d)
  unfolding execute_from
  execute_from-round fuel i db =
      let on : is_live (rounds i).context ≡ true = ap is_live (quiet i).context in
      rw (on, execute_from) refl

  -- The round after the last step leaves the task as it is.
  execute_from-ended :
      (fuel i : ℕ) (db : Database) {r : TaskRows}
      → 0 < fuel
      → find_task lease.task_id db ≡ some r
      → r.task.status ≡ Status.succeeded
      → execute_from id_before lib lease rounds fuel i db ≡ some db
  execute_from-ended zero i db enough found status = absurd (omega (arith, enough))
  execute_from-ended (suc fuel) i db enough found status =
      let over = ap is_running status in
      let left : execute_round id_before lib lease (rounds i) db ≡ (leave, db) =
        execute_round-load id_before lib lease (rounds i) limit db (quiet i) found ∙ rw over refl in
      execute_from-round fuel i db
      ∙ ap (λ p. continue p (λ d. execute_from id_before lib lease rounds fuel (suc i) d)) left

  execute_from-more :
      (fuel i : ℕ) (db after : Database) {e : Database}
      → execute_round id_before lib lease (rounds i) db ≡ (again, after)
      → execute_from id_before lib lease rounds fuel (suc i) after ≡ some e
      → execute_from id_before lib lease rounds (suc fuel) i db ≡ some e
  execute_from-more fuel i db after went rest =
      execute_from-round fuel i db
      ∙ ap (λ p. continue p (λ d. execute_from id_before lib lease rounds fuel (suc i) d)) went
      ∙ rest

  -- While the calls of the worker are answered with no other process in between, before the lease
  -- and the deadline end, and the steps that are left are no approvals, are not started and succeed
  -- when they are executed, the loop of executeClaim ends with more fuel than they are, and the task
  -- has succeeded with all its steps.
  pub execute_from-IsSucceeded :
      (fuel i : ℕ) (db : Database) (r : TaskRows)
      → IsValid db
      → find_task lease.task_id db ≡ some r
      → OnCourse r
      → length r.steps - r.task.current_step < fuel
      → (e : Database) × (execute_from id_before lib lease rounds fuel i db ≡ some e)
        × IsSucceeded lease.task_id e
  execute_from-IsSucceeded zero i db r valid found course enough = absurd (omega (arith, enough))
  execute_from-IsSucceeded (suc fuel) i db r valid found course enough =
      let wf = All-find_task IsWellFormed lease.task_id db found valid.rows in
      let p =
        execute_round-RoundAdvanced id_before lib lease rounds i limit db r (quiet i) found wf
          course in
      let valid' = round-IsValid i db p.went_on valid in
      elim p.advanced [
        | inl status ↦ (
          p.after_db,
          execute_from-more fuel i db p.after_db p.went_on (
              execute_from-ended fuel (suc i) p.after_db (omega (arith, enough, course.some_left))
                p.stored status),
          find_task-IsSucceeded lease.task_id p.after_db valid' p.stored status,
        )
        | inr (still, current, count) ↦
            let (e, ended, succeeded) =
              execute_from-IsSucceeded fuel (suc i) p.after_db p.rows valid' p.stored still
                (omega (arith, current, count, enough, course.some_left)) in
            (e, execute_from-more fuel i db p.after_db p.went_on ended, succeeded)
      ]
