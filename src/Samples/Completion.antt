-- ===== src/Samples/Completion.antt =====
-- The completion of a task at the sample (internal/worker/worker.go).
use run_state.Worker.Completion.Claim.{run_slot-IsSucceeded, CanSucceed}
use run_state.Store.Types.{Claim}
use run_state.Store.Database.{put_task, first_by, find_task, Database}
use run_state.Worker.Completion.Round.{IsQuietRound}
use run_state.Worker.Completion.Run.{IsSucceeded}
use run_state.Base.{◌≡◌, [], true, Option, List, ◌∷◌, ℕ, some, refl, ok, arith}
use run_state.Store.Lock.{LockedTask}
use run_state.Task.Model.{StepDefinition, Definition, Step}
use run_state.Executor.Decode.{fold_field, as_fields}
use run_state.Store.Lease.{claim_selected, assign_lease, claimable, grant_lease}
use run_state.Samples.{new_id, by_id, at, lease, none_locked}
use run_state.Store.Scan.{claim_task, claim_candidate}
use run_state.Task.Resolve.{resolve_value, resolve_input, decode_json}
use run_state.Samples.Services.{quiet_turn, quiet_round, echo_definition, library, value_input}
use run_state.Executor.Steps.{implementation_of, execute_echo}
use run_state.Store.Create.{
  new_step, insertable, unused_steps, unused_step, new_steps, new_rows, distinct_steps,
}
use run_state.Store.Start.{step_input, previous_output}
use run_state.Worker.Slot.{run_slot}
use run_state.Executor.{execute}
use run_state.Worker.Completion.Rows.{IsDoable}
use run_state.Store.Machine.Laws.{IsValid}
use run_state.Task.Json.{Json}
use run_state.Store.Rows.{find_step, TaskRows}
use run_state.Store.Create.Initial.{new_rows-IsWellFormed}

-- A task of two steps, each of which gives its value back.
abbrev echo_step_definition : StepDefinition
echo_step_definition = record {
  step_type = "echo";
  input = value_input;
  timeout_seconds = 30;
  max_attempts = 3;
}

abbrev two_definition : Definition
two_definition = record echo_definition { steps = echo_step_definition ∷ echo_step_definition ∷ [] }

abbrev two_created : TaskRows
two_created = new_rows (at 100) "task_0" new_id two_definition

abbrev two_claimed : TaskRows
two_claimed = (claim_selected (at 200) 1000 "worker_0" two_created).0

two-insertable : insertable two_created two_definition [] ≡ true
unfolding new_rows insertable new_steps find_task distinct_steps unused_steps unused_step find_step
two-insertable = refl

two_created-IsValid : IsValid (two_created ∷ [])
unfolding find_task
two_created-IsValid = record {
  keyed = (refl, tt);
  rows = (new_rows-IsWellFormed (at 100) "task_0" new_id two_definition [] two-insertable, tt);
}

found_two : find_task "task_0" (two_claimed ∷ []) ≡ some two_claimed
unfolding find_task claim_selected grant_lease assign_lease new_rows
found_two = refl

abbrev two_claim : Claim
two_claim = record { token = lease; lease_expires_at = some 1200; deadline_at = some 600000200 }

two_claim_ok :
    claim_task by_id (at 200) none_locked 1000 "worker_0" (two_created ∷ [])
    ≡ (ok two_claim, two_claimed ∷ [])
unfolding claim_task claim_candidate first_by put_task claimable claim_selected grant_lease
    assign_lease new_rows new_steps
two_claim_ok = refl

quiet_round-IsQuietRound : (i : ℕ) → IsQuietRound 1000 (quiet_round i)
quiet_round-IsQuietRound i = record {
  context = refl;
  load_task = record { alone = refl; answered = refl };
  load_steps = record { alone = refl; answered = refl };
  start = record { alone = refl; answered = refl };
  start_time = omega arith;
  context_executed = refl;
  finish = record { alone = refl; answered = refl };
  finish_time = omega arith;
}

abbrev step_of : ℕ → Step
step_of index = new_step "task_0" (new_id index) index echo_step_definition

resolved_value :
    (locked : LockedTask) (steps : List Step) (index : ℕ) (previous : Option Json)
    → previous_output index steps ≡ ok previous
    → step_input locked (step_of index) steps ≡ ok value_input
unfolding step_input resolve_input resolve_value decode_json
resolved_value locked steps index previous before = rw (before, step_input) refl

step_of-IsDoable :
    (index : ℕ) → IsDoable library lease (λ k. (quiet_round k).environment) (step_of index)
unfolding execute execute_echo implementation_of fold_field as_fields
step_of-IsDoable index = record {
  ordinary = refl;
  idle = refl;
  runnable = λ locked steps previous before. record {
    input = value_input;
    output = record { size = 2; document = some value_input };
    resolved = resolved_value locked steps index previous before;
    executes = λ i. refl;
    small = refl;
    document = refl;
    some_bytes = omega arith;
  };
}

two_claimed-CanSucceed :
    CanSucceed by_id library 1000 "worker_0" quiet_turn 1000 quiet_round-IsQuietRound two_claim
      two_claimed
unfolding claim_selected grant_lease assign_lease new_rows new_steps
two_claimed-CanSucceed = record {
  some_steps = omega arith;
  going = refl;
  in_time = λ now below. ground (arith, below);
  leased = omega arith;
  doable = (λ h. step_of-IsDoable 0, (λ h. step_of-IsDoable 1, tt));
}

run_slot-IsSucceeded_example :
    (e : Database) × (run_slot by_id library 1000 "worker_0" (quiet_turn ∷ []) (two_created ∷ [])
      ≡ some e)
    × IsSucceeded "task_0" e
run_slot-IsSucceeded_example =
    run_slot-IsSucceeded by_id library 1000 "worker_0" quiet_turn 1000 quiet_round-IsQuietRound
      (two_created ∷ []) (two_claimed ∷ []) two_claim two_created-IsValid
      (record { alone = refl; answered = refl }) two_claim_ok found_two two_claimed-CanSucceed
