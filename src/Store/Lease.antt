-- ===== src/Store/Lease.antt =====
-- `ClaimTask` with `recoverExpiredTask`, and `RenewLease` (internal/store/store.go).
use run_state.Base.{
  ℕ, String, Option, none, some, Bool, false, not, ◌&&◌, List, [], ◌∷◌, ◌++◌, ◌+◌, ◌*◌, ltb, leb,
  if◌then◌else◌, ok, ◌>>◌,
}
use run_state.Task.Model.{
  Task, Status, Step, StepStatus, Event, Payload, text, int, maybe_text, lease_expired,
  task_succeeded, step_failed, task_failed, task_recovered, task_claimed,
}
use run_state.Store.Types.{Outcome, LeaseToken, Claim, Clock, due}
use run_state.Store.Rows.{TaskRows, is_running, is_running_step, step_at, update_step, event, entry}
use run_state.Store.Lock.{lock_task, validate_ownership}

abbrev pub second : ℕ
second = 1000000

-- `status = 'RUNNABLE' AND run_at <= now OR status = 'RUNNING' AND lease_expires_at <= now`
abbrev pub is_claimable_status : Status → ℕ → Option ℕ → ℕ → Bool
is_claimable_status Status.runnable run_at lease_expires_at now = leb run_at now
is_claimable_status Status.running run_at lease_expires_at now = due lease_expires_at now
is_claimable_status _ run_at lease_expires_at now = false

-- The WHERE clause of the query that selects a candidate.
unfoldable pub claimable : Task → ℕ → Bool
claimable t now =
    is_claimable_status t.status t.run_at t.lease_expires_at now
    && not t.cancel_requested
    && not (due t.deadline_at now)

-- What `recoverExpiredTask` returns: nil, or `errRecoveryExhausted`.
pub data Recovery : Type 0 where
  recovered exhausted : Recovery

abbrev pub abandon : Clock → Step → Step
abandon c s = record s {
  status = StepStatus.failed;
  error = some "worker_lost";
  finished_at = some c.write;
}

abbrev pub released : Clock → Status → Task → Task
released c status t = record t {
  status = status;
  worker_id = none;
  lease_expires_at = none;
  updated_at = c.write;
}

abbrev pub abandoned_payload : Task → Step → Payload
abandoned_payload t s =
    entry "step_id" (text s.id)
    ∷ entry "step_index" (int t.current_step)
    ∷ entry "attempt" (int s.attempt)
    ∷ entry "error" (text "worker_lost")
    ∷ entry "worker_id" (maybe_text t.worker_id)
    ∷ entry "lease_version" (int t.lease_version)
    ∷ []

-- After the event LEASE_EXPIRED: the step at `current_step`, if it is running, is lost.
unfoldable pub recover_step : Clock → TaskRows → Option Step → TaskRows × Recovery
recover_step c r none = (
  record r {
    task = released c Status.succeeded r.task;
    events = r.events ++ event c task_succeeded [] ∷ [];
  },
  exhausted,
)
recover_step c r (some s) =
    let failed_step = record r {
      steps = update_step s.id (abandon c) r.steps;
      events = r.events ++ event c step_failed (abandoned_payload r.task s) ∷ [];
    } in
    if not (is_running_step s.status)
    then (r, recovered)
    else if ltb s.attempt s.max_attempts
    then (failed_step, recovered)
    else (
      record failed_step {
        task = released c Status.failed r.task;
        events = failed_step.events ++ event c task_failed (abandoned_payload r.task s) ∷ [];
      },
      exhausted,
    )

unfoldable pub recover_expired_task : Clock → TaskRows → TaskRows × Recovery
unfolding recover_step
recover_expired_task c r =
    recover_step c (record r { events = r.events ++ event c lease_expired payload ∷ [] })
      (step_at r.task.current_step r.steps)
  where
    payload : Payload
    payload =
        entry "worker_id" (maybe_text r.task.worker_id)
        ∷ entry "lease_version" (int r.task.lease_version)
        ∷ []

abbrev pub or_else : Option ℕ → ℕ → ℕ
or_else none fallback = fallback
or_else (some t) fallback = t

-- The UPDATE that assigns the lease.
unfoldable pub assign_lease : Clock → ℕ → String → Task → Task
assign_lease c lease_duration worker t = record t {
  status = Status.running;
  worker_id = some worker;
  lease_version = t.lease_version + 1;
  lease_expires_at = some (c.write + lease_duration);
  first_started_at = some (or_else t.first_started_at c.statement);
  deadline_at = some (or_else t.deadline_at (c.statement + t.task_timeout_seconds * second));
  updated_at = c.write;
}

abbrev pub claim_of : Task → String → Claim
claim_of t worker = record {
  token = record { task_id = t.id; worker_id = worker; lease_version = t.lease_version };
  lease_expires_at = t.lease_expires_at;
  deadline_at = t.deadline_at;
}

abbrev pub claimed_payload : String → ℕ → Payload
claimed_payload worker version =
    entry "worker_id" (text worker) ∷ entry "lease_version" (int version) ∷ []

abbrev pub recovered_payload : Task → String → ℕ → Payload
recovered_payload before worker version =
    entry "previous_worker_id" (maybe_text before.worker_id)
    ∷ entry "previous_lease_version" (int before.lease_version)
    ∷ claimed_payload worker version

-- What follows the recovery: `before` is the task as it was selected.
unfoldable pub grant_lease : Clock → ℕ → String → Task → TaskRows → TaskRows × Option Claim
unfolding assign_lease
grant_lease c lease_duration worker before r =
    let task = assign_lease c lease_duration worker r.task in
    let recovery : List Event =
      if is_running before.status
      then event c task_recovered (recovered_payload before worker task.lease_version) ∷ []
      else [] in
    (
      record r {
        task = task;
        events =
            r.events
            ++ (recovery ++ event c task_claimed (claimed_payload worker task.lease_version) ∷ []);
      },
      some (claim_of task worker),
    )

abbrev pub after_recovery :
    Clock → ℕ → String → Task → TaskRows × Recovery → TaskRows × Option Claim
after_recovery c lease_duration worker before (r, exhausted) = (r, none)
after_recovery c lease_duration worker before (r, recovered) =
    grant_lease c lease_duration worker before r

-- The body of `ClaimTask` on the selected task. The rows are committed on both branches; no claim is
-- `ErrNoTask`, after the commit of an exhausted recovery.
unfoldable pub claim_selected : Clock → ℕ → String → TaskRows → TaskRows × Option Claim
claim_selected c lease_duration worker r =
    if is_running r.task.status
    then after_recovery c lease_duration worker r.task (recover_expired_task c r)
    else grant_lease c lease_duration worker r.task r

unfoldable pub renew_lease : Clock → ℕ → LeaseToken → TaskRows → Outcome (Unit {0} × TaskRows)
unfolding validate_ownership
renew_lease c lease_duration lease r = do
  validate_ownership (lock_task c r.task) lease
  ok (
    tt,
    record r {
      task = record r.task {
        lease_expires_at = some (c.write + lease_duration);
        updated_at = c.write;
      };
    },
  )
