-- ===== src/Samples/ServiceRuns.antt =====
-- What the processes of the samples do, step by step.
use run_state.Executor.Types.{answered}
use run_state.Scheduler.Drained.{IsQuiet}
use run_state.Store.Machine.Laws.{IsValid}
use run_state.Store.Invariant.{IsWellFormed}
use run_state.Store.Transition.Laws.{Transition-IsWellFormed}
use run_state.Base.{◌≤◌, refl, ok, arith, ◌≡◌, [], String, Option, ◌∷◌, ℕ, true, some}
use run_state.Executor.Steps.{validate_echo, execute_echo, implementation_of}
use run_state.Executor.Decode.{fold_field, as_fields}
use run_state.Store.Lease.{grant_lease, claim_selected, assign_lease, claimable}
use run_state.Store.Transition.{claims}
use run_state.Store.Create.{
  unused_step, new_steps, new_rows, distinct_steps, insertable, unused_steps,
}
use run_state.Samples.Services.{
  tool_environment, echo_request, echo_definition, statuses_of, quiet_turn, echo_created,
  echo_started, echo_claimed, echo_attempt, library, quiet_scan, parse_no_time, later_definition,
  later_created,
}
use run_state.Store.Rows.{update_step, find_step, unfinished_before}
use run_state.Store.Database.{first_by, find_task, transact, put_task, load_task}
use run_state.Samples.{by_id, lease, new_id, at}
use run_state.Store.Create.Initial.{new_rows-IsWellFormed}
use run_state.Executor.{validate_definition, execute}
use run_state.Task.Resolve.{
  validate_references, resolve_value, resolve_input, decode_json, validate_input_references,
}
use run_state.Api.Validation.{validate_steps, validate_request, validate_step}
use run_state.Task.Json.{RawMessage, Json}
use run_state.Store.Start.{step_input, start_step, previous_output, check_startable}
use run_state.Store.Finish.{
  limit_outcome, check_outcome, check_finishing, is_valid, finish_succeeded, finish_step,
  finish_limited,
}
use run_state.Store.Lock.{validate_ownership, owns_active_lease, lock_task}
use run_state.Task.Model.{Status}
use run_state.Store.Scan.{claim_task, claim_candidate}
use run_state.Worker.Slot.{run_slot, execute_claim}
use run_state.Worker.Loop.{execute_round, execute_from}
use run_state.Store.Machine.{run_all}
use run_state.Store.Machine.Call.{call}

pub echo_validated : validate_request library parse_no_time echo_request ≡ ok echo_definition
unfolding validate_request validate_steps validate_step validate_definition validate_echo
    implementation_of as_fields validate_input_references validate_references
echo_validated = refl

pub echo-insertable : insertable echo_created echo_definition [] ≡ true
unfolding new_rows insertable new_steps find_task distinct_steps unused_steps unused_step find_step
echo-insertable = refl

pub later-insertable : insertable later_created later_definition [] ≡ true
unfolding new_rows insertable new_steps find_task distinct_steps unused_steps unused_step find_step
later-insertable = refl

pub echo_created-IsWellFormed : IsWellFormed echo_created
echo_created-IsWellFormed =
    new_rows-IsWellFormed (at 100) "task_0" new_id echo_definition [] echo-insertable

pub echo_created-IsValid : IsValid (echo_created ∷ [])
unfolding find_task
echo_created-IsValid = record { keyed = (refl, tt); rows = (echo_created-IsWellFormed, tt) }

pub later_created-IsValid : IsValid (later_created ∷ [])
unfolding find_task
later_created-IsValid = record {
  keyed = (refl, tt);
  rows = (new_rows-IsWellFormed (at 100) "task_0" new_id later_definition [] later-insertable, tt);
}

pub echo_claimed-IsValid : IsValid (echo_claimed ∷ [])
unfolding find_task new_rows claimable
echo_claimed-IsValid = record {
  keyed = (refl, tt);
  rows = (
    Transition-IsWellFormed (claims (at 200) 1000 "worker_0" 200 refl refl)
        echo_created-IsWellFormed,
    tt,
  );
}

pub found_echo : find_task "task_0" (echo_claimed ∷ []) ≡ some echo_claimed
unfolding find_task claim_selected grant_lease assign_lease new_rows
found_echo = refl

pub quiet_scan-IsQuiet : (i : ℕ) → IsQuiet (quiet_scan i)
quiet_scan-IsQuiet i = record {
  is_open = refl;
  alone = refl;
  answered = refl;
  free = λ id. refl;
  order = omega arith;
}

pub echo_started_ok :
    start_step (at 300) lease "step_0" echo_claimed ≡ ok (echo_attempt, echo_started)
unfolding new_rows new_steps find_step start_step claim_selected grant_lease assign_lease
    validate_ownership owns_active_lease update_step check_startable unfinished_before step_input
    resolve_input resolve_value decode_json previous_output
echo_started_ok = refl

pub echo_started_owned : validate_ownership (lock_task (at 400) echo_started.task) lease ≡ ok tt
unfolding new_rows new_steps find_step start_step claim_selected grant_lease assign_lease
    validate_ownership owns_active_lease update_step check_startable unfinished_before step_input
    resolve_input resolve_value decode_json previous_output
echo_started_owned = refl

pub tool_environment-nonempty :
    (key : String) (payload : Option Json) (status : ℕ) (body : RawMessage)
    → tool_environment.exchange key payload ≡ answered status body
    → is_valid body.document ≡ true
    → 1 ≤ body.size
tool_environment-nonempty key payload status body h valid = ground (arith, h)

-- The slot claims the created task, runs its echo step and finds it done.
echo_succeeded :
    statuses_of (run_slot by_id library 1000 "worker_0" (quiet_turn ∷ []) (echo_created ∷ []))
    ≡ Status.succeeded ∷ []
unfolding new_rows new_steps find_step start_step claim_selected grant_lease assign_lease
    validate_ownership owns_active_lease update_step check_startable unfinished_before step_input
    resolve_input resolve_value decode_json previous_output finish_step check_finishing
    finish_limited check_outcome finish_succeeded limit_outcome run_slot call execute_claim
    execute_from execute_round execute execute_echo implementation_of fold_field as_fields
    claim_task claim_candidate first_by put_task claimable run_all transact find_task load_task
echo_succeeded = refl
