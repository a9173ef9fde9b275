-- ===== src/Samples/Witnesses.antt =====
-- The theorems at the sample rows.
use run_state.FakeTool.{record_effect, record_all, new_effect, find_effect, Effect}
use run_state.Task.Json.{boolean, null}
use run_state.Task.Json.{null, Json, object, end}
use run_state.Base.{◌⊎◌, err, inr, ◌≤◌, arith, some, false, [], ◌∷◌, ◌≡◌, true, refl, ok}
use run_state.Store.Types.{conflict}
use run_state.Task.Model.{rejected, approved}
use run_state.Store.Machine.Laws.{run_all-terminal, run_all-Extends}
use run_state.Store.Machine.{run_all}
use run_state.Store.Rows.{update_step, step_at, find_step, TaskRows, unfinished_before}
use run_state.Store.Lease.{grant_lease, claim_selected, assign_lease, claimable}
use run_state.Store.Start.{
  step_input, check_startable, started_rows, start_step, attempt_of, previous_output,
}
use run_state.Store.Approval.{
  wait_for_approval, check_awaitable, decide_approval, record_decision, decide_step,
  check_decidable,
}
use run_state.Task.Resolve.{
  validate_references, resolve_input, validate_input_references, resolve_value, decode_json,
  check_reference,
}
use run_state.Store.Create.{new_steps, new_rows}
use run_state.Store.Database.{find_task}
use run_state.Store.Finish.{
  limit_outcome, check_outcome, check_finishing, finish_succeeded, finish_step, finish_limited,
}
use run_state.Store.Lock.{validate_ownership, owns_active_lease, lock_task}
use run_state.Store.Commit.Facts.{CommitReport}
use run_state.Store.Extension.{Extends}
use run_state.Store.Machine.Claims.{claim_task-fences, claim_task-IsClaimed, IsClaimed}
use run_state.Store.Machine.Fencing.{run_all-IsFenced, IsFenced}
use run_state.Store.Scan.{control_rank, claim_candidate, control_candidate}
use run_state.Store.Commit.{
  wait_persisted, not_committed, decision_persisted, commit_with_fact_check, step_start_persisted,
  step_finish_persisted, response_lost, persisted,
}
use run_state.Store.Commit.Approval.{wait_for_approval-commit, decide_approval-commit}
use run_state.Store.Commit.Finish.{finish_step-commit}
use run_state.Store.Commit.Start.{start_step-commit}
use run_state.Store.Finish.Success.{budgeted}
use run_state.Store.Scan.Order.{claim_candidate-oldest}
use run_state.Store.Progress.{start_step-finish_step, decide_approval-replay, start_step-current}
use run_state.Task.Resolve.Laws.{resolve_input-validated}
use run_state.Samples.{
  running_step, old_lease, none_locked, next_claim, checkpoint_reference, request, conflicting,
  pending_step, other_request, by_id, waiting, outcome, started, reclaimed, decided, finished,
  attempt, claimed, lease, at, interleaving, created,
}
use run_state.Samples.Runs.{
  waiting_ok, finished_ok, decided_ok, decided-IsValid, claimed-IsWellFormed, claimed-IsValid,
  waiting_found, started_ok, running_found, reclaimed_ok, found_decided, found_claimed,
}
use run_state.FakeTool.Idempotency.{record_effect-idempotent, SameEffect}
use run_state.Store.Lock.Exclusion.{claimable-unowned}
use run_state.Samples.Equality.{json_eq_refl, json_eq}
use run_state.Store.Scan.Unstuck.{unfinished-IsFound}

claim_task-IsClaimed_example :
    IsClaimed 1000 (at 2000) "worker_1" (claimed ∷ []) reclaimed next_claim
claim_task-IsClaimed_example =
    claim_task-IsClaimed by_id (at 2000) none_locked 1000 "worker_1" (claimed ∷ []) claimed-IsValid
      reclaimed_ok

claim_task-fences_example : IsFenced lease (run_all by_id interleaving reclaimed)
unfolding claim_selected grant_lease new_rows
claim_task-fences_example =
    claim_task-fences by_id (at 2000) none_locked 1000 "worker_1" (claimed ∷ []) interleaving lease
      claimed-IsValid reclaimed_ok refl found_claimed (omega arith)

run_all-terminal_example :
    find_task "task_0" (run_all by_id interleaving (decided ∷ [])) ≡ some decided
unfolding new_rows new_steps find_step start_step claim_selected grant_lease assign_lease
    validate_ownership owns_active_lease update_step check_startable unfinished_before step_input
    resolve_input resolve_value decode_json previous_output finish_step check_finishing
    finish_limited check_outcome finish_succeeded limit_outcome wait_for_approval check_awaitable
    step_at decide_approval decide_step check_decidable record_decision
run_all-terminal_example =
    run_all-terminal by_id interleaving (decided ∷ []) "task_0" decided-IsValid found_decided refl

run_all-Extends_example :
    (r' : TaskRows) × (find_task "task_0" (run_all by_id interleaving (claimed ∷ [])) ≡ some r')
    × Extends claimed r'
run_all-Extends_example =
    run_all-Extends by_id interleaving (claimed ∷ []) "task_0" claimed-IsValid found_claimed

run_all-IsFenced_example : IsFenced old_lease (run_all by_id interleaving (claimed ∷ []))
unfolding claim_selected grant_lease assign_lease new_rows
run_all-IsFenced_example =
    run_all-IsFenced by_id interleaving (claimed ∷ []) old_lease claimed-IsValid found_claimed
      (ground arith)

start_step-commit_example : CommitReport response_lost (
    commit_with_fact_check response_lost (persisted (step_start_persisted json_eq attempt started)))
start_step-commit_example =
    start_step-commit json_eq json_eq_refl response_lost (at 300) lease "step_0" claimed started_ok

finish_step-commit_example : CommitReport response_lost (
    commit_with_fact_check response_lost (
      persisted (
        step_finish_persisted json_eq
          (budgeted attempt running_step)
          (limit_outcome outcome)
          finished)))
finish_step-commit_example =
    finish_step-commit json_eq json_eq_refl response_lost (at 400) lease attempt outcome started
      running_found finished_ok

wait_for_approval-commit_example :
    CommitReport not_committed
      (commit_with_fact_check not_committed (persisted (wait_persisted "step_1" finished)))
wait_for_approval-commit_example =
    wait_for_approval-commit not_committed (at 500) lease "step_1" finished waiting_ok

decide_approval-commit_example : CommitReport response_lost (
    commit_with_fact_check response_lost (persisted (decision_persisted "step_1" approved decided)))
decide_approval-commit_example =
    decide_approval-commit (at 600) "step_1" waiting response_lost approved waiting_found refl
      decided_ok

claim_candidate-oldest_example :
    (r : TaskRows) × (claim_candidate by_id (at 2000) none_locked (claimed ∷ []) ≡ some r)
    × (r.task.created_at ≤ claimed.task.created_at)
unfolding claimable claim_selected grant_lease assign_lease new_rows
claim_candidate-oldest_example =
    claim_candidate-oldest by_id (at 2000) none_locked (claimed ∷ []) "task_0" found_claimed refl
      refl

start_step-current_example :
    start_step (at 300) lease "step_0" claimed
    ≡ ok (
      attempt_of lease (object end) pending_step,
      started_rows (at 300) lease (object end) pending_step claimed,
    )
unfolding new_rows new_steps claim_selected grant_lease assign_lease validate_ownership
    owns_active_lease step_at step_input resolve_input resolve_value decode_json previous_output
start_step-current_example =
    start_step-current (at 300) lease claimed {s = pending_step} {input = object end}
      claimed-IsWellFormed refl refl refl refl refl

start_step-finish_step_example :
    (r : TaskRows) × (finish_step (at 400) lease attempt outcome started ≡ ok (tt, r))
unfolding new_rows new_steps find_step start_step claim_selected grant_lease assign_lease
    validate_ownership owns_active_lease update_step check_startable unfinished_before step_input
    resolve_input resolve_value decode_json previous_output check_outcome limit_outcome
start_step-finish_step_example =
    start_step-finish_step (at 300) (at 400) lease "step_0" outcome claimed started_ok refl
      (inr refl)

decide_approval-replay_example : decide_approval (at 700) "step_1" rejected decided ≡ err conflict
decide_approval-replay_example =
    decide_approval-replay (at 600) (at 700) "step_1" approved rejected waiting decided_ok

resolve_input-validated_example :
    (w : Json) × (resolve_input (some checkpoint_reference) (some null) (some (object end)) ≡ ok w)
unfolding validate_input_references validate_references check_reference
resolve_input-validated_example =
    resolve_input-validated null (object end) false (λ h. ground arith) refl checkpoint_reference
      refl

record_effect-idempotent_example :
    (e : Effect) × ((record_effect json_eq other_request
        (record_all json_eq (conflicting ∷ []) (record_effect json_eq request []).1)).0
      ≡ ok (e, false))
    × SameEffect (new_effect "task_0:step_0" null (boolean true)) e
unfolding record_effect find_effect json_eq
record_effect-idempotent_example =
    record_effect-idempotent json_eq request (conflicting ∷ []) (boolean false) []
      {e = new_effect "task_0:step_0" null (boolean true)} {created = true} refl

claimable-unowned_example : owns_active_lease (lock_task (at 2000) claimed.task) lease ≡ false
unfolding claimable claim_selected grant_lease assign_lease new_rows
claimable-unowned_example = claimable-unowned (at 2000) claimed.task lease 1200 refl (ground arith)

unfinished-IsFound_example :
    ((x : TaskRows) × (claim_candidate by_id (at 2000) none_locked (claimed ∷ []) ≡ some x)
      × (x.task.created_at ≤ claimed.task.created_at))
    ⊎ ((x : TaskRows) × (control_candidate by_id (at 2000) none_locked (claimed ∷ []) ≡ some x)
        × (control_rank x.task 2000 ≤ control_rank claimed.task 2000))
unfolding claim_selected grant_lease assign_lease new_rows
unfinished-IsFound_example =
    unfinished-IsFound by_id (at 2000) none_locked (claimed ∷ []) "task_0" claimed-IsValid
      found_claimed refl refl (omega arith)
