-- ===== src/Store/Extension/Leased.antt =====
-- What the operations of a worker that holds a lease keep, and the decisions on approvals
-- (internal/store/store.go).
use run_state.Base.{
  ℕ, ◌⊎◌, ◌≤◌, ◌≡◌, ◌+◌, sym, subst, some, refl, ok, inr, inl, arith, append-nil, [], String,
  Option, List, >>=-eq-ok,
}
use run_state.Store.Extension.{
  TaskExtends-refl, AllPreserved-refl, TaskExtends, Preserves, Extends-refl, Extends,
  AllPreserved-update_step,
}
use run_state.Store.Types.{StepAttempt, ApprovalResult, LeaseToken, Clock}
use run_state.Store.Approval.Success.{wait_for_approval-Awaited, Decided, decide_approval-cases}
use run_state.Task.Model.{rejected, Decision, approved, Task, StepStatus, Step, Status}
use run_state.Task.Json.{Json}
use run_state.Store.Lock.{validate_ownership, LockedTask, lock_task}
use run_state.Store.Rows.{find_step, TaskRows}
use run_state.Store.Approval.{
  approve_step, moved, wait_for_approval, reject_step, record_decision, decide_approval,
  await_decision,
}
use run_state.Store.Start.{step_input, begin_attempt, start_step}
use run_state.Store.Rows.Steps.{id-find_step}
use run_state.Store.Lease.{renew_lease}
use run_state.Store.Start.Success.{start_step-Started}

renewed-TaskExtends :
    (t : Task) (expires : Option ℕ) (now : ℕ)
    → TaskExtends t (record t { lease_expires_at = expires; updated_at = now })
renewed-TaskExtends t expires now = ground arith

pub renew_lease-Extends :
    (c : Clock) (lease_duration : ℕ) (lease : LeaseToken) (r : TaskRows) {r' : TaskRows}
    → renew_lease c lease_duration lease r ≡ ok (tt, r')
    → Extends r r'
unfolding renew_lease
renew_lease-Extends c lease_duration lease r h =
    let (u, owned, h) = >>=-eq-ok (validate_ownership (lock_task c r.task) lease) _ h in
    subst (Extends r) (ground arith) (record {
      task = renewed-TaskExtends r.task (some (c.write + lease_duration)) c.write;
      steps = AllPreserved-refl r.steps;
      added = [];
      events = sym (append-nil r.events);
    })

-- The input that an attempt runs on is the persisted one, if there is one.
step_input-some :
    (locked : LockedTask) (s : Step) (steps : List Step) {x input : Json}
    → step_input locked s steps ≡ ok input
    → s.resolved_input ≡ some x
    → some input ≡ some x
unfolding step_input
step_input-some locked s steps h e = ground arith

begin_attempt-Preserves :
    (c : Clock) (input : Json) (s : Step)
    → (s.status ≡ StepStatus.pending) ⊎ (s.status ≡ StepStatus.failed)
    → ((x : Json) → s.resolved_input ≡ some x → some input ≡ some x)
    → Preserves s (begin_attempt c input s)
begin_attempt-Preserves c input s ready same = record {
  id = refl;
  task_id = refl;
  index = refl;
  step_type = refl;
  max_attempts = refl;
  idempotency_key = refl;
  input = refl;
  timeout_seconds = refl;
  attempt = omega arith;
  resolved = same;
  succeeded = λ h. absurd (ground arith);
}

pub start_step-Extends :
    (c : Clock) (lease : LeaseToken) (id : String) (r : TaskRows) {a : StepAttempt} {r' : TaskRows}
    → start_step c lease id r ≡ ok (a, r')
    → Extends r r'
start_step-Extends c lease id r h =
    let p = start_step-Started c lease id r h in
    rw p.rows (record {
      task = TaskExtends-refl r.task;
      steps =
          AllPreserved-update_step p.step.id (begin_attempt c p.input) r.steps
            (subst (λ i. find_step i r.steps ≡ some p.step) (sym (id-find_step id r.steps p.found))
              p.found)
            (begin_attempt-Preserves c p.input p.step p.startable.ready
              (λ x e. step_input-some (lock_task c r.task) p.step r.steps p.resolved e));
      added = _;
      events = refl;
    })

moved-TaskExtends :
    (c : Clock) (status : Status) (n : ℕ) (t : Task)
    → t.current_step ≤ n
    → TaskExtends t (moved c status n t)
moved-TaskExtends c status n t h = ground arith

await_decision-Preserves :
    (c : Clock) (input : Json) (s : Step)
    → s.status ≡ StepStatus.pending
    → ((x : Json) → s.resolved_input ≡ some x → some input ≡ some x)
    → Preserves s (await_decision c input s)
await_decision-Preserves c input s ready same = record {
  id = refl;
  task_id = refl;
  index = refl;
  step_type = refl;
  max_attempts = refl;
  idempotency_key = refl;
  input = refl;
  timeout_seconds = refl;
  attempt = omega arith;
  resolved = same;
  succeeded = λ h. absurd (ground arith);
}

pub wait_for_approval-Extends :
    (c : Clock) (lease : LeaseToken) (id : String) (r : TaskRows) {u : Unit {0}} {r' : TaskRows}
    → wait_for_approval c lease id r ≡ ok (u, r')
    → Extends r r'
wait_for_approval-Extends c lease id r h =
    let p = wait_for_approval-Awaited c lease id r h in
    rw p.rows (record {
      task = moved-TaskExtends c Status.waiting_approval r.task.current_step r.task (omega arith);
      steps =
          AllPreserved-update_step p.step.id (await_decision c p.input) r.steps
            (subst (λ i. find_step i r.steps ≡ some p.step) (sym (id-find_step id r.steps p.found))
              p.found)
            (await_decision-Preserves c p.input p.step p.awaitable.pending
              (λ x e. step_input-some (lock_task c r.task) p.step r.steps p.resolved e));
      added = _;
      events = refl;
    })

-- A write that leaves the definition, the attempt and the resolved input of a step that has not
-- succeeded.
approve_step-Preserves :
    (c : Clock) (s : Step) → s.status ≡ StepStatus.waiting_approval → Preserves s (approve_step c s)
approve_step-Preserves c s h = ground arith

reject_step-Preserves :
    (c : Clock) (s : Step) → s.status ≡ StepStatus.waiting_approval → Preserves s (reject_step c s)
reject_step-Preserves c s h = ground arith

Decided-Extends :
    (c : Clock) (id : String) (decision : Decision) (r : TaskRows) {a : ApprovalResult}
    {r' : TaskRows}
    → Decided c id decision r a r'
    → Extends r r'
unfolding record_decision
Decided-Extends c id approved r p =
    let found =
      subst (λ i. find_step i r.steps ≡ some p.step) (sym (id-find_step id r.steps p.found))
        p.found in
    rw p.rows (record {
      task = moved-TaskExtends c _ (p.step.index + 1) r.task (omega (arith, p.decidable.current));
      steps =
          AllPreserved-update_step p.step.id (approve_step c) r.steps found
            (approve_step-Preserves c p.step p.decidable.step_waiting);
      added = _;
      events = refl;
    })
Decided-Extends c id rejected r p =
    let found =
      subst (λ i. find_step i r.steps ≡ some p.step) (sym (id-find_step id r.steps p.found))
        p.found in
    rw p.rows (record {
      task = moved-TaskExtends c Status.failed r.task.current_step r.task (omega arith);
      steps =
          AllPreserved-update_step p.step.id (reject_step c) r.steps found
            (reject_step-Preserves c p.step p.decidable.step_waiting);
      added = _;
      events = refl;
    })

pub decide_approval-Extends :
    (c : Clock) (id : String) (decision : Decision) (r : TaskRows) {a : ApprovalResult}
    {r' : TaskRows}
    → decide_approval c id decision r ≡ ok (a, r')
    → Extends r r'
decide_approval-Extends c id decision r h = elim (decide_approval-cases c id decision r h) [
  | inl p ↦ Decided-Extends c id decision r p
  | inr p ↦ rw p.rows (Extends-refl r)
]
