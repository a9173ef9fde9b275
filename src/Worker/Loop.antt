-- ===== src/Worker/Loop.antt =====
-- `executeClaim` (internal/worker/worker.go): the steps of one claim, one after the other.
pub mod Refinement
pub mod Termination
pub mod Ending
use run_state.Executor.Types.{
  deadline_passed, ExecuteError, Environment, ContextState, classify, live,
}
use run_state.Base.{
  ok, err, length, get_elem?, ℕ, zero, suc, String, Option, none, some, Bool, true, false, not,
  ◌||◌, leb, str_eq, List, [], if◌then◌else◌, Result,
}
use run_state.Worker.{finish_call, cancel_claim, wait_call, timeout_claim, start_call}
use run_state.Store.Database.{find_task, Database, load_task}
use run_state.Store.Types.{permanent, deadline_exceeded, StepOutcome, StepAttempt, LeaseToken}
use run_state.Executor.Decode.{Library}
use run_state.Task.Json.{RawMessage}
use run_state.Task.Model.{step_type_approval, Task, Step}
use run_state.Store.Rows.{is_running, TaskRows}
use run_state.Store.Finish.{empty_message}
use run_state.Executor.{execute}
use run_state.Store.Answer.{is_error, Answer, is_deadline_exceeded, is_cancelled_task}
use run_state.Store.Machine.Call.{call, Link}

-- What one round of the loop meets.
pub record Round : Type 0 where
  pub context : ContextState
  pub load_task : Link
  pub load_steps : Link
  pub wait : Link
  pub context_waited : ContextState
  pub start : Link
  pub environment : Environment
  pub context_executed : ContextState
  pub finish : Link
  pub time_out : Link
  pub cancel : Link

-- Whether the loop goes on.
pub data Next : Type 0 where
  again leave : Next

abbrev pub is_deadline_passed : ContextState → Bool
is_deadline_passed deadline_passed = true
is_deadline_passed _ = false

abbrev pub is_live : ContextState → Bool
is_live live = true
is_live _ = false

abbrev pub continue : Next × Database → (Database → Option Database) → Option Database
continue (again, db) go_on = go_on db
continue (leave, db) go_on = some db

-- The `store.StepOutcome` of an execution. A success leaves the class empty, which `FinishStep` does not
-- tell from a permanent one.
abbrev pub outcome_of : Result ExecuteError (RawMessage × RawMessage) → StepOutcome
outcome_of (ok (output, checkpoint)) = record {
  output = output;
  checkpoint = checkpoint;
  error = "";
  failure_class = permanent;
}
outcome_of (err e) = record {
  output = empty_message;
  checkpoint = empty_message;
  error = if e.deadline_exceeded then "step_timeout" else e.text;
  failure_class = classify e;
}

abbrev pub next_of : {A E : Type 0} → Result E A → Next
next_of (ok a) = again
next_of (err e) = leave

-- The steps that the second query of `LoadTask` reads.
abbrev pub steps_of : Option TaskRows → List Step
steps_of none = []
steps_of (some r) = r.steps

module _ (id_before : String → String → Bool) (lib : Library) (lease : LeaseToken)
    (round : Round) where
  -- What follows `FinishStep`.
  abbrev pub after_finish : Next → Answer (Unit {0}) × Database → Next × Database
  after_finish verdict (ok u, db) = (verdict, db)
  after_finish verdict (err e, db) = (
    leave,
    if is_error {A = Unit {0}} is_deadline_exceeded (err e)
        then timeout_claim id_before round.time_out round.cancel lease db
        else db,
  )

  -- What follows `Execute`, by the state of the task's context.
  abbrev pub after_execute :
      ContextState
      → StepAttempt
      → Result ExecuteError (RawMessage × RawMessage)
      → Database
      → Next × Database
  after_execute deadline_passed attempt result db =
      (leave, timeout_claim id_before round.time_out round.cancel lease db)
  after_execute ContextState.cancelled attempt result db = (leave, db)
  after_execute live attempt result db =
      after_finish (next_of result)
        (finish_call id_before round.finish lease attempt (outcome_of result) db)

  -- What follows `StartStep`.
  abbrev pub after_start : Answer StepAttempt × Database → Next × Database
  after_start (err e, db) = (leave, db)
  after_start (ok attempt, db) =
      after_execute round.context_executed attempt (execute lib round.environment attempt) db

  -- What follows `WaitForApproval`.
  abbrev pub after_wait : Answer (Unit {0}) × Database → Next × Database
  after_wait (answer, db) = (
    leave,
    if is_error is_cancelled_task answer
        then (cancel_claim id_before round.cancel lease db).1
        else if is_error is_deadline_exceeded answer || is_deadline_passed round.context_waited
        then timeout_claim id_before round.time_out round.cancel lease db
        else db,
  )

  abbrev pub execute_current : Option Step → Database → Next × Database
  execute_current none db = (leave, db)
  execute_current (some s) db =
      if str_eq s.step_type step_type_approval
      then after_wait (wait_call id_before round.wait lease s.id db)
      else after_start (start_call id_before round.start lease s.id db)

  abbrev pub after_load_steps : Task → Answer (List Step) × Database → Next × Database
  after_load_steps t (err e, db) = (leave, db)
  after_load_steps t (ok steps, db) =
      if not (is_running t.status) || leb (length steps) t.current_step
      then (leave, db)
      else execute_current (get_elem? steps t.current_step) db

  -- What follows `LoadTask`: the task's row, and the rows of its steps, which are read later.
  abbrev pub after_load :
      Answer TaskRows × Database → (Database → Answer (List Step) × Database) → Next × Database
  after_load (err e, db) load_steps = (leave, db)
  after_load (ok r, db) load_steps = after_load_steps r.task (load_steps db)

  -- One round of the loop.
  unfoldable pub execute_round : Database → Next × Database
  execute_round db =
      after_load (call id_before round.load_task (λ now. (load_task lease.task_id now, now)) db) (
        call id_before round.load_steps (λ now. (ok (steps_of (find_task lease.task_id now)), now)))

module _ (id_before : String → String → Bool) (lib : Library) (lease : LeaseToken)
    (rounds : ℕ → Round) where
  -- The loop, from the round with the given number; `none` means that the fuel ran out.
  unfoldable pub execute_from : ℕ → ℕ → Database → Option Database
  execute_from zero i db = none
  execute_from (suc fuel) i db = elim (is_live (rounds i).context) [
    | false ↦ some db
    | true ↦
        continue (execute_round id_before lib lease (rounds i) db)
          (λ db'. execute_from fuel (suc i) db')
  ]
