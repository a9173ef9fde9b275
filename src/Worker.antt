-- ===== src/Worker.antt =====
-- The worker (internal/worker/worker.go): it claims tasks and runs their steps. What it meets is an
-- argument, round by round: what the other processes commit before each of its calls of the store, the
-- clock of each call, whether the call and its answer get through, the state of its context, and what
-- a step's execution meets.
pub mod Loop
pub mod Refinement
pub mod Monitor
pub mod Slot
pub mod Process
pub mod Outcome
pub mod Completion
use run_state.Base.{Bool, if◌then◌else◌, String}
use run_state.Store.Types.{StepAttempt, LeaseToken, StepOutcome}
use run_state.Store.Database.{Database, transact}
use run_state.Store.Control.{timeout_owned_task, cancel_owned_task}
use run_state.Store.Finish.{finish_step}
use run_state.Store.Start.{start_step}
use run_state.Store.Approval.{wait_for_approval}
use run_state.Store.Answer.{is_error, Answer, is_cancelled_task}
use run_state.Store.Machine.Call.{call, Link}

module _ (id_before : String → String → Bool) where
  abbrev pub start_call : Link → LeaseToken → String → Database → Answer StepAttempt × Database
  start_call link lease step_id =
      call id_before link (transact lease.task_id (start_step link.clock lease step_id))

  abbrev pub wait_call : Link → LeaseToken → String → Database → Answer (Unit {0}) × Database
  wait_call link lease step_id =
      call id_before link (transact lease.task_id (wait_for_approval link.clock lease step_id))

  abbrev pub finish_call :
      Link → LeaseToken → StepAttempt → StepOutcome → Database → Answer (Unit {0}) × Database
  finish_call link lease attempt outcome =
      call id_before link (transact lease.task_id (finish_step link.clock lease attempt outcome))

  -- `cancelClaim`
  abbrev pub cancel_claim : Link → LeaseToken → Database → Answer (Unit {0}) × Database
  cancel_claim link lease =
      call id_before link (transact lease.task_id (cancel_owned_task link.clock lease))

  -- What follows `TimeoutOwnedTask`.
  abbrev pub after_timeout : Link → LeaseToken → Answer (Unit {0}) × Database → Database
  after_timeout cancel_link lease (answer, db) =
      if is_error is_cancelled_task answer then (cancel_claim cancel_link lease db).1 else db

  -- `timeoutClaim`
  unfoldable pub timeout_claim : Link → Link → LeaseToken → Database → Database
  timeout_claim timeout_link cancel_link lease db = after_timeout cancel_link lease (
      call id_before timeout_link
        (transact lease.task_id (timeout_owned_task timeout_link.clock lease)) db)
