-- ===== src/Store/Extension/Claimed.antt =====
-- What `ClaimTask` keeps (internal/store/store.go).
use run_state.Base.{
  ltb, ◌≡◌, ◌++◌, true, some, refl, none, inr, inl, arith, append_assoc, String, Option, List,
  Bool-cases, ℕ,
}
use run_state.Store.Extension.{
  TaskExtends-refl, TaskExtends, Preserves, Extends-trans, Extends-refl, Extends,
  AllPreserved-update_step, AllPreserved-refl,
}
use run_state.Store.Types.{Clock}
use run_state.Task.Model.{Task, Step, Status, Event}
use run_state.Store.Rows.Steps.{find_step-step_at, Indexed}
use run_state.Store.Lease.{
  released, abandon, recovered, recover_step, recover_expired_task, grant_lease, exhausted,
  claim_selected, assign_lease, after_recovery, Recovery,
}
use run_state.Store.Rows.{step_at, is_running_step, is_running, find_step, TaskRows}

assign_lease-TaskExtends :
    (c : Clock) (lease_duration : ℕ) (worker : String) (t : Task)
    → TaskExtends t (assign_lease c lease_duration worker t)
unfolding assign_lease
assign_lease-TaskExtends c lease_duration worker t = record {
  id = refl;
  tenant_id = refl;
  created_at = refl;
  run_at = refl;
  task_timeout_seconds = refl;
  lease_version = omega arith;
  current_step = omega arith;
  cancel_requested = λ h. h;
  first_started_at = λ x h. rw h;
  deadline_at = λ x h. rw h;
}

pub grant_lease-Extends :
    (c : Clock) (lease_duration : ℕ) (worker : String) (before : Task) (r : TaskRows)
    → Extends r (grant_lease c lease_duration worker before r).0
unfolding grant_lease
grant_lease-Extends c lease_duration worker before r = record {
  task = assign_lease-TaskExtends c lease_duration worker r.task;
  steps = AllPreserved-refl r.steps;
  added = _;
  events = refl;
}

abandon-Preserves :
    (c : Clock) (s : Step) → is_running_step s.status ≡ true → Preserves s (abandon c s)
abandon-Preserves c s h = ground arith

released-TaskExtends :
    (c : Clock) (status : Status) (t : Task) → TaskExtends t (released c status t)
released-TaskExtends c status t = ground arith

module _ (c : Clock) (r : TaskRows) {s : Step} (found : find_step s.id r.steps ≡ some s) where
  recover_found-Extends : Extends r (recover_step c r (some s)).0
  unfolding recover_step
  recover_found-Extends = elim (Bool-cases (is_running_step s.status)) [
    | inr idle ↦ rw (idle, recover_step) (Extends-refl r)
    | inl busy ↦
        let kept =
          AllPreserved-update_step s.id (abandon c) r.steps found (abandon-Preserves c s busy) in
        elim (Bool-cases (ltb s.attempt s.max_attempts)) [
          | inl room ↦
              rw (busy, room, recover_step)
                (record { task = TaskExtends-refl r.task; steps = kept; added = _; events = refl })
          | inr spent ↦
              rw (busy, spent, recover_step)
                (record {
                  task = released-TaskExtends c Status.failed r.task;
                  steps = kept;
                  added = _;
                  events = append_assoc r.events _ _;
                })
        ]
  ]

recover_missing-Extends : (c : Clock) (r : TaskRows) → Extends r (recover_step c r none).0
unfolding recover_step
recover_missing-Extends c r = record {
  task = released-TaskExtends c Status.succeeded r.task;
  steps = AllPreserved-refl r.steps;
  added = _;
  events = refl;
}

recover_step-Extends :
    (c : Clock) (r : TaskRows) (o : Option Step)
    → Indexed 0 r.steps
    → step_at r.task.current_step r.steps ≡ o
    → Extends r (recover_step c r o).0
recover_step-Extends c r none ix h = recover_missing-Extends c r
recover_step-Extends c r (some s) ix h =
    recover_found-Extends c r (find_step-step_at r.task.current_step 0 r.steps h ix)

pub events-Extends :
    (r : TaskRows) (added : List Event) → Extends r (record r { events = r.events ++ added })
events-Extends r added = record {
  task = TaskExtends-refl r.task;
  steps = AllPreserved-refl r.steps;
  added = added;
  events = refl;
}

recover_expired_task-Extends :
    (c : Clock) (r : TaskRows) → Indexed 0 r.steps → Extends r (recover_expired_task c r).0
unfolding recover_expired_task
recover_expired_task-Extends c r ix =
    Extends-trans (events-Extends r _)
      (recover_step-Extends c _ (step_at r.task.current_step r.steps) ix refl)

after_recovery-Extends :
    (c : Clock) (lease_duration : ℕ) (worker : String) (before : Task) (p : TaskRows × Recovery)
    → Extends p.0 (after_recovery c lease_duration worker before p).0
after_recovery-Extends c lease_duration worker before (r, recovered) =
    grant_lease-Extends c lease_duration worker before r
after_recovery-Extends c lease_duration worker before (r, exhausted) = Extends-refl r

pub claim_selected-Extends :
    (c : Clock) (lease_duration : ℕ) (worker : String) (r : TaskRows)
    → Indexed 0 r.steps
    → Extends r (claim_selected c lease_duration worker r).0
unfolding claim_selected
claim_selected-Extends c lease_duration worker r ix = elim (Bool-cases (is_running r.task.status)) [
  | inl running ↦
      rw (running, claim_selected)
        (Extends-trans (recover_expired_task-Extends c r ix)
          (after_recovery-Extends c lease_duration worker r.task (recover_expired_task c r)))
  | inr idle ↦ rw (idle, claim_selected) (grant_lease-Extends c lease_duration worker r.task r)
]
