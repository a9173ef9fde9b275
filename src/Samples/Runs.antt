-- ===== src/Samples/Runs.antt =====
-- The results of the runs, step by step, and that their rows are well formed.

use run_state.Base.{◌≡◌, refl, ok, some, true, [], ◌∷◌}
use run_state.Task.Model.{approved}
use run_state.Store.Machine.Laws.{IsValid}
use run_state.Store.Invariant.{IsWellFormed}
use run_state.Store.Rows.{update_step, unfinished_before, step_at, find_step}
use run_state.Store.Transition.{starts, finishes, decides, claims, awaits, Transition}
use run_state.Store.Transition.Laws.{Transition-IsWellFormed}
use run_state.Store.Lease.{
  recover_step, grant_lease, recover_expired_task, claim_selected, assign_lease, claimable,
}
use run_state.Store.Start.{step_input, check_startable, start_step, previous_output}
use run_state.Store.Approval.{
  wait_for_approval, record_decision, decide_step, check_decidable, check_awaitable,
  decide_approval,
}
use run_state.Task.Resolve.{resolve_value, decode_json, resolve_input}
use run_state.Store.Create.{
  unused_steps, unused_step, new_steps, new_rows, distinct_steps, insertable,
}
use run_state.Store.Database.{put_task, first_by, find_task}
use run_state.Store.Finish.{
  limit_outcome, check_finishing, finish_succeeded, finish_step, finish_limited, check_outcome,
}
use run_state.Store.Create.Initial.{new_rows-IsWellFormed}
use run_state.Store.Lock.{validate_ownership, owns_active_lease, lock_task}
use run_state.Store.Scan.{claim_task, claim_candidate}
use run_state.Samples.{
  outcome, attempt, reclaimed, approval, lease, definition, decided, finished, started, waiting, at,
  claimed, created, waiting_step, running_step, none_locked, next_claim, new_id, by_id,
}

pub created-insertable : insertable created definition [] ≡ true
unfolding new_rows insertable new_steps find_task distinct_steps unused_steps unused_step find_step
created-insertable = refl

pub created-IsWellFormed : IsWellFormed created
created-IsWellFormed =
    new_rows-IsWellFormed (at 100) "task_0" new_id definition [] created-insertable

pub created-IsValid : IsValid (created ∷ [])
unfolding find_task
created-IsValid = record { keyed = (refl, tt); rows = (created-IsWellFormed, tt) }

pub claimed-Transition : Transition created claimed
unfolding new_rows claimable
claimed-Transition = claims (at 200) 1000 "worker_0" 200 refl refl

pub claimed-IsWellFormed : IsWellFormed claimed
claimed-IsWellFormed = Transition-IsWellFormed claimed-Transition created-IsWellFormed

pub claimed_ok :
    (claim_selected (at 200) 1000 "worker_0" created).1
    ≡ some (record { token = lease; lease_expires_at = some 1200; deadline_at = some 600000200 })
unfolding new_rows claim_selected grant_lease assign_lease
claimed_ok = refl

pub started_ok : start_step (at 300) lease "step_0" claimed ≡ ok (attempt, started)
unfolding new_rows new_steps find_step start_step claim_selected grant_lease assign_lease
    validate_ownership owns_active_lease update_step check_startable unfinished_before step_input
    resolve_input resolve_value decode_json previous_output
started_ok = refl

pub finished_ok : finish_step (at 400) lease attempt outcome started ≡ ok (tt, finished)
unfolding new_rows new_steps find_step start_step claim_selected grant_lease assign_lease
    validate_ownership owns_active_lease update_step check_startable unfinished_before step_input
    resolve_input resolve_value decode_json previous_output finish_step check_finishing
    finish_limited check_outcome finish_succeeded limit_outcome
finished_ok = refl

pub waiting_ok : wait_for_approval (at 500) lease "step_1" finished ≡ ok (tt, waiting)
unfolding new_rows new_steps find_step start_step claim_selected grant_lease assign_lease
    validate_ownership owns_active_lease update_step check_startable unfinished_before step_input
    resolve_input resolve_value decode_json previous_output finish_step check_finishing
    finish_limited check_outcome finish_succeeded limit_outcome wait_for_approval check_awaitable
    step_at
waiting_ok = refl

pub decided_ok : decide_approval (at 600) "step_1" approved waiting ≡ ok (approval, decided)
unfolding new_rows new_steps find_step start_step claim_selected grant_lease assign_lease
    validate_ownership owns_active_lease update_step check_startable unfinished_before step_input
    resolve_input resolve_value decode_json previous_output finish_step check_finishing
    finish_limited check_outcome finish_succeeded limit_outcome wait_for_approval check_awaitable
    step_at decide_approval decide_step check_decidable record_decision
decided_ok = refl

pub waiting_found : find_step "step_1" waiting.steps ≡ some waiting_step
unfolding new_rows new_steps find_step start_step claim_selected grant_lease assign_lease
    validate_ownership owns_active_lease update_step check_startable unfinished_before step_input
    resolve_input resolve_value decode_json previous_output finish_step check_finishing
    finish_limited check_outcome finish_succeeded limit_outcome wait_for_approval check_awaitable
    step_at
waiting_found = refl

pub running_found : find_step "step_0" started.steps ≡ some running_step
unfolding new_rows new_steps find_step start_step claim_selected grant_lease assign_lease
    validate_ownership owns_active_lease update_step check_startable unfinished_before step_input
    resolve_input resolve_value decode_json previous_output
running_found = refl

pub started-IsWellFormed : IsWellFormed started
started-IsWellFormed =
    Transition-IsWellFormed (starts (at 300) lease "step_0" attempt started_ok) claimed-IsWellFormed

pub finished-IsWellFormed : IsWellFormed finished
finished-IsWellFormed =
    Transition-IsWellFormed (finishes (at 400) lease attempt outcome finished_ok)
      started-IsWellFormed

pub waiting-IsWellFormed : IsWellFormed waiting
waiting-IsWellFormed =
    Transition-IsWellFormed (awaits (at 500) lease "step_1" waiting_ok) finished-IsWellFormed

pub decided-IsWellFormed : IsWellFormed decided
decided-IsWellFormed =
    Transition-IsWellFormed (decides (at 600) "step_1" approved approval decided_ok)
      waiting-IsWellFormed

pub decided-IsValid : IsValid (decided ∷ [])
unfolding find_task
decided-IsValid = record { keyed = (refl, tt); rows = (decided-IsWellFormed, tt) }

pub claimed-IsValid : IsValid (claimed ∷ [])
unfolding find_task
claimed-IsValid = record { keyed = (refl, tt); rows = (claimed-IsWellFormed, tt) }

pub found_decided : find_task "task_0" (decided ∷ []) ≡ some decided
unfolding find_task new_rows new_steps find_step start_step claim_selected grant_lease assign_lease
    validate_ownership owns_active_lease update_step check_startable unfinished_before step_input
    resolve_input resolve_value decode_json previous_output finish_step check_finishing
    finish_limited check_outcome finish_succeeded limit_outcome wait_for_approval check_awaitable
    step_at decide_approval decide_step check_decidable record_decision
found_decided = refl

pub found_claimed : find_task "task_0" (claimed ∷ []) ≡ some claimed
unfolding find_task claim_selected grant_lease assign_lease new_rows
found_claimed = refl

pub reclaimed_ok :
    claim_task by_id (at 2000) none_locked 1000 "worker_1" (claimed ∷ [])
    ≡ (ok next_claim, reclaimed)
unfolding claim_task claim_candidate first_by put_task claim_selected grant_lease assign_lease
    new_rows new_steps claimable recover_expired_task recover_step step_at
reclaimed_ok = refl

pub claimed_owned : validate_ownership (lock_task (at 300) claimed.task) lease ≡ ok tt
unfolding validate_ownership owns_active_lease claim_selected grant_lease assign_lease new_rows
claimed_owned = refl
