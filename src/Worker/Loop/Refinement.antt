-- ===== src/Worker/Loop/Refinement.antt =====
-- The loop of the worker as a sequence of operations of the store, mixed with those of the others
-- (internal/worker/worker.go).
use run_state.Executor.Types.{live, ContextState, deadline_passed, ExecuteError}
use run_state.Base.{
  String, Bool, List, refl, leb, ◌||◌, str_eq, some, ok, not, none, length, inr, inl, get_elem?,
  err, Result, Option, Bool-cases,
}
use run_state.Store.Database.{load_task, find_task, Database, transact}
use run_state.Store.Types.{StepAttempt, LeaseToken}
use run_state.Executor.Decode.{Library}
use run_state.Worker.Loop.{
  steps_of, after_finish, after_execute, Round, Next, outcome_of, next_of, is_deadline_passed,
  execute_round, execute_current, after_wait, after_start, after_load_steps, after_load,
}
use run_state.Task.Json.{RawMessage}
use run_state.Worker.Refinement.{timeout_claim-Reaches, cancel_claim-Reaches, if-Reaches}
use run_state.Task.Model.{step_type_approval, Task, Step}
use run_state.Store.Rows.{is_running, TaskRows}
use run_state.Store.Machine.{run, finish, await, start}
use run_state.Store.Finish.{finish_step}
use run_state.Store.Start.{start_step}
use run_state.Store.Approval.{wait_for_approval}
use run_state.Executor.{execute}
use run_state.Store.Answer.{is_error, is_deadline_exceeded, is_cancelled_task, Answer}
use run_state.Store.Machine.Reaches.{read-Reaches, call-Reaches, Reaches-trans, Reaches}
use run_state.Store.Machine.Call.{call}

module _ (id_before : String → String → Bool) (lib : Library) (lease : LeaseToken)
    (round : Round) where
  after_finish-Reaches :
      (v : Next) (p : Answer (Unit {0}) × Database) {db : Database}
      → Reaches id_before db p.1
      → Reaches id_before db (after_finish id_before lib lease round v p).1
  after_finish-Reaches v (ok u, d) h = h
  after_finish-Reaches v (err e, d) h =
      if-Reaches id_before (is_error {A = Unit {0}} is_deadline_exceeded (err e))
        (Reaches-trans id_before h
          (timeout_claim-Reaches id_before round.time_out round.cancel lease d))
        h

  after_execute-Reaches :
      (state : ContextState) (a : StepAttempt)
      (result : Result ExecuteError (RawMessage × RawMessage)) (d : Database) {db : Database}
      → Reaches id_before db d
      → Reaches id_before db (after_execute id_before lib lease round state a result d).1
  unfolding run
  after_execute-Reaches deadline_passed a result d h =
      Reaches-trans id_before h
        (timeout_claim-Reaches id_before round.time_out round.cancel lease d)
  after_execute-Reaches ContextState.cancelled a result d h = h
  after_execute-Reaches live a result d h = after_finish-Reaches (next_of result) _ (
      Reaches-trans id_before h (
        call-Reaches id_before round.finish
          (transact lease.task_id (finish_step round.finish.clock lease a (outcome_of result)))
          (finish round.finish.clock lease a (outcome_of result)) d (λ x. refl)))

  after_start-Reaches :
      (p : Answer StepAttempt × Database) {db : Database}
      → Reaches id_before db p.1
      → Reaches id_before db (after_start id_before lib lease round p).1
  after_start-Reaches (ok a, d) h =
      after_execute-Reaches round.context_executed a (execute lib round.environment a) d h
  after_start-Reaches (err e, d) h = h

  after_wait-Reaches :
      (p : Answer (Unit {0}) × Database) {db : Database}
      → Reaches id_before db p.1
      → Reaches id_before db (after_wait id_before lib lease round p).1
  after_wait-Reaches (answer, d) h =
      if-Reaches id_before (is_error is_cancelled_task answer)
        (Reaches-trans id_before h (cancel_claim-Reaches id_before round.cancel lease d))
        (if-Reaches id_before
          (is_error is_deadline_exceeded answer || is_deadline_passed round.context_waited)
          (Reaches-trans id_before h
            (timeout_claim-Reaches id_before round.time_out round.cancel lease d))
          h)

  execute_current-Reaches :
      (o : Option Step) (d : Database) {db : Database}
      → Reaches id_before db d
      → Reaches id_before db (execute_current id_before lib lease round o d).1
  unfolding run
  execute_current-Reaches none d h = h
  execute_current-Reaches (some s) d h = elim (Bool-cases (str_eq s.step_type step_type_approval)) [
    | inl approval ↦ rw approval (
        after_wait-Reaches _ (
          Reaches-trans id_before h (
            call-Reaches id_before round.wait
              (transact lease.task_id (wait_for_approval round.wait.clock lease s.id))
              (await round.wait.clock lease s.id) d (λ x. refl))))
    | inr ordinary ↦ rw ordinary (
        after_start-Reaches _ (
          Reaches-trans id_before h (
            call-Reaches id_before round.start
              (transact lease.task_id (start_step round.start.clock lease s.id))
              (start round.start.clock lease s.id) d (λ x. refl))))
  ]

  after_load_steps-Reaches :
      (t : Task) (p : Answer (List Step) × Database) {db : Database}
      → Reaches id_before db p.1
      → Reaches id_before db (after_load_steps id_before lib lease round t p).1
  after_load_steps-Reaches t (err e, d) h = h
  after_load_steps-Reaches t (ok steps, d) h =
      elim (Bool-cases (not (is_running t.status) || leb (length steps) t.current_step)) [
        | inl over ↦ rw over h
        | inr more ↦ rw more (execute_current-Reaches (get_elem? steps t.current_step) d h)
      ]

  after_load-Reaches :
      (p : Answer TaskRows × Database) (load_steps : Database → Answer (List Step) × Database)
      {db : Database}
      → Reaches id_before db p.1
      → ((d : Database) → Reaches id_before d (load_steps d).1)
      → Reaches id_before db (after_load id_before lib lease round p load_steps).1
  after_load-Reaches (err e, d) load_steps h reads = h
  after_load-Reaches (ok r, d) load_steps h reads =
      after_load_steps-Reaches r.task (load_steps d) (Reaches-trans id_before h (reads d))

  pub execute_round-Reaches :
      (db : Database) → Reaches id_before db (execute_round id_before lib lease round db).1
  unfolding execute_round
  execute_round-Reaches db =
      after_load-Reaches (call id_before round.load_task (λ d. (load_task lease.task_id d, d)) db)
        (call id_before round.load_steps (λ d. (ok (steps_of (find_task lease.task_id d)), d)))
        (read-Reaches id_before round.load_task (load_task lease.task_id) db)
        (read-Reaches id_before round.load_steps (λ d. ok (steps_of (find_task lease.task_id d))))
