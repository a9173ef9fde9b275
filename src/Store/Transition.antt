-- ===== src/Store/Transition.antt =====
-- What one committed transaction can do to the rows of a task (internal/store/store.go), as a step
-- relation, and its closure.
pub mod Laws
use run_state.Base.{◌≡◌, true, some, ok, String, ℕ}
use run_state.Store.Types.{
  StepOutcome, StepAttempt, LeaseToken, Clock, CancelResult, ApprovalResult,
}
use run_state.Task.Model.{Decision}
use run_state.Store.Rows.{TaskRows}
use run_state.Store.Control.{
  wake_retry_task, timeout_owned_task, retry_due, control_selected, control_due, cancel_task,
  cancel_owned_task,
}
use run_state.Store.Lease.{claimable, renew_lease, claim_selected}
use run_state.Store.Approval.{wait_for_approval, decide_approval}
use run_state.Store.Finish.{finish_step}
use run_state.Store.Start.{start_step}

pub data Transition (r r' : TaskRows) : Type 0 where
  claims :
      (c : Clock) (lease_duration : ℕ) (worker : String) (now : ℕ)
      → claimable r.task now ≡ true
      → (claim_selected c lease_duration worker r).0 ≡ r'
      → Transition r r'
  renews :
      (c : Clock) (lease_duration : ℕ) (lease : LeaseToken)
      → renew_lease c lease_duration lease r ≡ ok (tt, r')
      → Transition r r'
  starts :
      (c : Clock) (lease : LeaseToken) (step_id : String) (a : StepAttempt)
      → start_step c lease step_id r ≡ ok (a, r')
      → Transition r r'
  awaits :
      (c : Clock) (lease : LeaseToken) (step_id : String)
      → wait_for_approval c lease step_id r ≡ ok (tt, r')
      → Transition r r'
  decides :
      (c : Clock) (step_id : String) (decision : Decision) (a : ApprovalResult)
      → decide_approval c step_id decision r ≡ ok (a, r')
      → Transition r r'
  finishes :
      (c : Clock) (lease : LeaseToken) (a : StepAttempt) (o : StepOutcome)
      → finish_step c lease a o r ≡ ok (tt, r')
      → Transition r r'
  times_out :
      (c : Clock) (lease : LeaseToken)
      → timeout_owned_task c lease r ≡ ok (tt, r')
      → Transition r r'
  cancels : (c : Clock) (a : CancelResult) → cancel_task c r ≡ ok (a, r') → Transition r r'
  cancels_owned :
      (c : Clock) (lease : LeaseToken) → cancel_owned_task c lease r ≡ ok (tt, r') → Transition r r'
  controls :
      (c : Clock) (now : ℕ)
      → control_due r.task now ≡ true
      → control_selected c r ≡ some r'
      → Transition r r'
  wakes :
      (c : Clock) (now : ℕ)
      → retry_due r.task now ≡ true
      → wake_retry_task c r ≡ r'
      → Transition r r'

-- The rows of a task after any number of transactions.
pub data Evolves (r : TaskRows) : TaskRows → Type 0 where
  here : Evolves r r
  next : {s t : TaskRows} → Evolves r s → Transition s t → Evolves r t
