-- ===== src/Worker/Completion/Round.antt =====
-- A round of the worker's loop that nothing disturbs, on a step that succeeds
-- (internal/worker/worker.go).
use run_state.Base.{
  ap, Bool, ◌≡◌, ◌<◌, ℕ, some, leb, ◌≤◌, ◌+◌, subst, refl, length, get_elem?, false, arith, ok,
  eq_refl, String, ◌∙◌,
}
use run_state.Store.Database.{put_task, find_task, Database, load_task}
use run_state.Store.Machine.Quiet.{call-transact, IsQuietLink, call-quiet}
use run_state.Store.Types.{LeaseToken}
use run_state.Executor.Decode.{Library}
use run_state.Worker.Loop.{
  steps_of, after_finish, after_execute, execute_current, again, after_load_steps, after_load,
  Round, outcome_of, execute_round, after_start,
}
use run_state.Store.Rows.{step_at, TaskRows}
use run_state.Executor.Types.{live}
use run_state.Store.Machine.Call.{call}
use run_state.Worker.Completion.Rows.{
  previous_output-done, get_elem?-Indexed, IsRunnable, completed-id, finish_step-finished, IsDoable,
  completed, begun,
}
use run_state.Worker.Completion.Course.{completed-Advanced, IsOnCourse, Advanced}
use run_state.Store.Invariant.{IsWellFormed}
use run_state.Task.Model.{Step}
use run_state.Store.Start.{start_step, attempt_of}
use run_state.Store.Finish.{finish_step, empty_message}
use run_state.Store.Database.Rows.{id-find_task, find_task-put_task}
use run_state.Worker.{start_call, finish_call}
use run_state.Store.Lock.{lock_task}
use run_state.Store.Progress.{start_step-current}
use run_state.Executor.{execute}
use run_state.Store.Rows.Steps.{index-step_at, All-step_at}

-- The calls of the round are answered with no other process in between, before the end of the lease.
pub record IsQuietRound (limit : ℕ) (x : Round) : Type 0 where
  pub context : x.context ≡ live
  pub load_task : IsQuietLink x.load_task
  pub load_steps : IsQuietLink x.load_steps
  pub start : IsQuietLink x.start
  pub start_time : x.start.clock.lock < limit
  pub context_executed : x.context_executed ≡ live
  pub finish : IsQuietLink x.finish
  pub finish_time : x.finish.clock.lock < limit

-- A round that took the task one step further.
pub record RoundAdvanced (id_before : String → String → Bool) (lib : Library) (lease : LeaseToken)
    (rounds : ℕ → Round) (i limit : ℕ) (db : Database) (r : TaskRows) : Type 0 where
  pub after_db : Database
  pub rows : TaskRows
  pub went_on : execute_round id_before lib lease (rounds i) db ≡ (again, after_db)
  pub stored : find_task lease.task_id after_db ≡ some rows
  pub advanced : Advanced lib lease (λ k. (rounds k).environment) limit r rows

module _ (id_before : String → String → Bool) (lib : Library) (lease : LeaseToken) where
  -- What the round loads.
  pub execute_round-load :
      (x : Round) (limit : ℕ) (db : Database) {r : TaskRows}
      → IsQuietRound limit x
      → find_task lease.task_id db ≡ some r
      → execute_round id_before lib lease x db
        ≡ after_load_steps id_before lib lease x r.task (ok r.steps, db)
  unfolding execute_round load_task
  execute_round-load x limit db {r} quiet found =
      let load_steps =
        call id_before x.load_steps (λ now. (ok (steps_of (find_task lease.task_id now)), now)) in
      let loaded : call id_before x.load_task (λ now. (load_task lease.task_id now, now)) db
          ≡ (ok r, db) =
        call-quiet id_before x.load_task (λ now. (load_task lease.task_id now, now)) db {a = ok r}
          quiet.load_task (rw found refl) in
      let steps : call id_before x.load_steps
            (λ now. (ok (steps_of (find_task lease.task_id now)), now)) db
          ≡ (ok r.steps, db) =
        call-quiet id_before x.load_steps
          (λ now. (ok (steps_of (find_task lease.task_id now)), now)) db {a = ok r.steps}
          quiet.load_steps (rw found refl) in
      ap (λ p. after_load id_before lib lease x p load_steps) loaded
      ∙ ap (λ p. after_load_steps id_before lib lease x r.task p) steps

  module _ (rounds : ℕ → Round) (i limit : ℕ) (db : Database) (r : TaskRows) (s : Step)
      (doable : IsDoable lib lease (λ k. (rounds k).environment) s)
      (d : IsRunnable lib lease
        (λ k. (rounds k).environment)
        (lock_task (rounds i).start.clock r.task)
        r.steps
        s)
      (quiet : IsQuietRound limit (rounds i)) (found : find_task lease.task_id db ≡ some r)
      (wf : IsWellFormed r) (course : IsOnCourse lib lease (λ k. (rounds k).environment) limit r)
      (at_current : step_at r.task.current_step r.steps ≡ some s) where
    abbrev pub after_begin : TaskRows
    after_begin = begun lib lease (λ k. (rounds k).environment) (rounds i).start.clock r s d

    abbrev pub after_success : TaskRows
    after_success =
        completed lib lease (λ k. (rounds k).environment) (rounds i).start.clock r s d
          (rounds i).finish.clock

    abbrev pub db_begun : Database
    db_begun = put_task lease.task_id after_begin db

    found_begun : find_task lease.task_id db_begun ≡ some after_begin
    found_begun =
        find_task-put_task lease.task_id lease.task_id after_begin db
          (id-find_task lease.task_id db found) found
        ∙ rw (eq_refl lease.task_id) refl

    started_call :
        start_call id_before (rounds i).start lease s.id db
        ≡ (ok (attempt_of lease d.input s), db_begun)
    started_call =
        call-transact id_before (rounds i).start lease.task_id
          (start_step (rounds i).start.clock lease s.id) db quiet.start found
          (start_step-current (rounds i).start.clock lease r wf
            (course.owned (rounds i).start.clock quiet.start_time) at_current doable.ordinary
            doable.idle d.resolved)

    finished_call :
        finish_call id_before
          (rounds i).finish
          lease
          (attempt_of lease d.input s)
          (outcome_of (ok (d.output, empty_message)))
          db_begun
        ≡ (ok tt, put_task lease.task_id after_success db_begun)
    finished_call =
        call-transact id_before (rounds i).finish lease.task_id
          (finish_step (rounds i).finish.clock lease (attempt_of lease d.input s)
            (outcome_of (ok (d.output, empty_message))))
          db_begun quiet.finish found_begun
          (finish_step-finished lib lease (λ k. (rounds k).environment) (rounds i).start.clock r s d
            (rounds i).finish.clock wf at_current
            (course.owned (rounds i).finish.clock quiet.finish_time))

    after_execute-success :
        after_execute id_before lib lease
          (rounds i)
          (rounds i).context_executed
          (attempt_of lease d.input s)
          (execute lib (rounds i).environment (attempt_of lease d.input s))
          db_begun
        ≡ (again, put_task lease.task_id after_success db_begun)
    after_execute-success =
        rw quiet.context_executed
          (rw (d.executes i) (ap (after_finish id_before lib lease (rounds i) again) finished_call))

    pub execute_current-success :
        execute_current id_before lib lease (rounds i) (some s) db
        ≡ (again, put_task lease.task_id after_success db_begun)
    execute_current-success =
        rw doable.ordinary
          (ap (after_start id_before lib lease (rounds i)) started_call ∙ after_execute-success)

    found_success :
        find_task lease.task_id (put_task lease.task_id after_success db_begun) ≡ some after_success
    found_success =
        find_task-put_task lease.task_id lease.task_id after_success db_begun
          (completed-id lib lease (λ k. (rounds k).environment) (rounds i).start.clock r s d
              (rounds i).finish.clock
            ∙ id-find_task lease.task_id db found)
          found_begun
        ∙ rw (eq_refl lease.task_id) refl

    execute_round-current :
        get_elem? r.steps r.task.current_step ≡ some s
        → execute_round id_before lib lease (rounds i) db
          ≡ execute_current id_before lib lease (rounds i) (some s) db
    execute_round-current there =
        let more : leb (length r.steps) r.task.current_step ≡ false =
          ground (arith, course.some_left) in
        execute_round-load (rounds i) limit db quiet found
        ∙ rw course.running (rw more (rw there refl))

    pub success-RoundAdvanced :
        get_elem? r.steps r.task.current_step ≡ some s
        → RoundAdvanced id_before lib lease rounds i limit db r
    success-RoundAdvanced there = record {
      after_db = put_task lease.task_id after_success db_begun;
      rows = after_success;
      went_on = execute_round-current there ∙ execute_current-success;
      stored = found_success;
      advanced =
          completed-Advanced lib lease (λ k. (rounds k).environment) limit (rounds i).start.clock
            (rounds i).finish.clock r s d wf course at_current;
    }

  pub execute_round-RoundAdvanced :
      (rounds : ℕ → Round) (i limit : ℕ) (db : Database) (r : TaskRows)
      → IsQuietRound limit (rounds i)
      → find_task lease.task_id db ≡ some r
      → IsWellFormed r
      → IsOnCourse lib lease (λ k. (rounds k).environment) limit r
      → RoundAdvanced id_before lib lease rounds i limit db r
  execute_round-RoundAdvanced rounds i limit db r quiet found wf course =
      let Doable : Step → Type 0 = IsDoable lib lease (λ k. (rounds k).environment) in
      let (s, there, at) =
        get_elem?-Indexed r.task.current_step 0 r.steps course.some_left wf.indexed in
      let same : 0 + r.task.current_step ≡ r.task.current_step = omega arith in
      let at_current = subst (λ k. step_at k r.steps ≡ some s) same at in
      let index = index-step_at r.task.current_step r.steps at_current in
      let doable =
        All-step_at (λ x. r.task.current_step ≤ x.index → Doable x) r.task.current_step r.steps
          at_current course.doable (omega (arith, index)) in
      let (previous, before) =
        previous_output-done r s.index wf index (omega (arith, index, course.some_left)) in
      success-RoundAdvanced rounds i limit db r s doable
        (doable.runnable (lock_task (rounds i).start.clock r.task) r.steps previous before) quiet
        found wf course at_current there
