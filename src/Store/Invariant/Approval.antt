-- ===== src/Store/Invariant/Approval.antt =====
-- Well-formedness after `WaitForApproval` and `DecideApproval` (internal/store/store.go).
use run_state.Base.{inl, inr, String, ok, ◌≡◌, arith, refl, true, ◌<◌, ◌+◌, ℕ, length}
use run_state.Task.Json.{Json}
use run_state.Task.Model.{rejected, approved, Decision, Status, Step, StepStatus, Task}
use run_state.Store.Types.{ApprovalResult, LeaseToken, Clock}
use run_state.Store.Rows.{TaskRows}
use run_state.Store.Rows.Steps.{All-find_step, id-find_step, index-find_step_lt}
use run_state.Store.Approval.{
  decide_approval, record_decision, await_decision, wait_for_approval, moved, approve_step,
  reject_step, status_after_approval,
}
use run_state.Store.Approval.Success.{decide_approval-cases, Decided, wait_for_approval-Awaited}
use run_state.Store.Invariant.{IsConsistent, IsCoherent, IsWellFormed, agrees}
use run_state.Store.Invariant.Start.{running-validate_ownership}
use run_state.Store.Invariant.Updates.{advance-IsWellFormed, stay-IsWellFormed}

await_decision-IsConsistent :
    (c : Clock) (input : Json) (status : Status) (s : Step)
    → s.status ≡ StepStatus.pending
    → {current : ℕ} → s.index ≡ current
    → IsConsistent status current s
    → IsConsistent Status.waiting_approval current (await_decision c input s)
await_decision-IsConsistent c input status s pending here h = ground arith

waiting-IsCoherent :
    (c : Clock) (t : Task) (n : ℕ)
    → t.status ≡ Status.running
    → IsCoherent t n
    → IsCoherent (moved c Status.waiting_approval t.current_step t) n
waiting-IsCoherent c t n running h = ground arith

pub wait_for_approval-IsWellFormed :
    (c : Clock) (lease : LeaseToken) (id : String) (r : TaskRows) {u : Unit {0}} {r' : TaskRows}
    → wait_for_approval c lease id r ≡ ok (u, r')
    → IsWellFormed r
    → IsWellFormed r'
wait_for_approval-IsWellFormed c lease id r h wf =
    let p = wait_for_approval-Awaited c lease id r h in
    let same_id = id-find_step id r.steps p.found in
    rw (p.rows, same_id)
      (stay-IsWellFormed wf (moved c Status.waiting_approval r.task.current_step r.task) _ id
        (await_decision c p.input) p.found p.awaitable.current
        (record { id = λ s. refl; index = λ s. refl }) refl
        (await_decision-IsConsistent c p.input r.task.status p.step p.awaitable.pending
          p.awaitable.current (All-find_step _ id r.steps p.found wf.steps))
        (waiting-IsCoherent c r.task (length r.steps) (running-validate_ownership _ lease p.owned)
          wf.task))

approve_step-IsConsistent :
    (c : Clock) (status status' : Status) (s : Step) {current : ℕ}
    → s.index ≡ current
    → IsConsistent status current s
    → IsConsistent status' (current + 1) (approve_step c s)
approve_step-IsConsistent c status status' s here h = ground arith

approved-IsCoherent :
    (c : Clock) (t : Task) (n : ℕ)
    → t.status ≡ Status.waiting_approval
    → t.current_step < n
    → IsCoherent t n
    → IsCoherent (moved c (status_after_approval (t.current_step + 1) n) (t.current_step + 1) t) n
approved-IsCoherent c t n waiting room h = ground arith

pub pending-status_after_approval :
    (n m : ℕ) → agrees (status_after_approval n m) StepStatus.pending ≡ true
pending-status_after_approval n m = ground arith

reject_step-IsConsistent :
    (c : Clock) (status : Status) (s : Step) {current : ℕ}
    → s.index ≡ current
    → IsConsistent status current s
    → IsConsistent Status.failed current (reject_step c s)
reject_step-IsConsistent c status s here h = ground arith

rejected-IsCoherent :
    (c : Clock) (t : Task) (n : ℕ)
    → t.status ≡ Status.waiting_approval
    → IsCoherent t n
    → t.current_step < n
    → IsCoherent (moved c Status.failed t.current_step t) n
rejected-IsCoherent c t n waiting h room = ground arith

module _ (c : Clock) (id : String) {r : TaskRows} (wf : IsWellFormed r) where
  approved-IsWellFormed :
      {a : ApprovalResult} {r' : TaskRows} → Decided c id approved r a r' → IsWellFormed r'
  unfolding record_decision
  approved-IsWellFormed p =
      let room = index-find_step_lt id 0 r.steps p.found wf.indexed in
      rw (p.rows, id-find_step id r.steps p.found)
        (advance-IsWellFormed wf _ _ id (approve_step c) p.found p.decidable.current
          (record { id = λ s. refl; index = λ s. refl }) (rw p.decidable.current)
          (pending-status_after_approval _ _)
          (approve_step-IsConsistent c r.task.status _ p.step p.decidable.current
            (All-find_step _ id r.steps p.found wf.steps))
          (rw p.decidable.current (
            approved-IsCoherent c r.task (length r.steps) p.decidable.waiting
              (omega (arith, room, p.decidable.current)) wf.task)))

  rejected-IsWellFormed :
      {a : ApprovalResult} {r' : TaskRows} → Decided c id rejected r a r' → IsWellFormed r'
  unfolding record_decision
  rejected-IsWellFormed p =
      let room = index-find_step_lt id 0 r.steps p.found wf.indexed in
      rw (p.rows, id-find_step id r.steps p.found)
        (stay-IsWellFormed wf _ _ id (reject_step c) p.found p.decidable.current
          (record { id = λ s. refl; index = λ s. refl }) refl
          (reject_step-IsConsistent c r.task.status p.step p.decidable.current
            (All-find_step _ id r.steps p.found wf.steps))
          (rejected-IsCoherent c r.task (length r.steps) p.decidable.waiting wf.task
            (omega (arith, room, p.decidable.current))))

  Decided-IsWellFormed :
      (decision : Decision) {a : ApprovalResult} {r' : TaskRows}
      → Decided c id decision r a r'
      → IsWellFormed r'
  Decided-IsWellFormed approved p = approved-IsWellFormed p
  Decided-IsWellFormed rejected p = rejected-IsWellFormed p

  pub decide_approval-IsWellFormed :
      (decision : Decision) {a : ApprovalResult} {r' : TaskRows}
      → decide_approval c id decision r ≡ ok (a, r')
      → IsWellFormed r'
  decide_approval-IsWellFormed decision h = elim (decide_approval-cases c id decision r h) [
    | inl p ↦ Decided-IsWellFormed decision p
    | inr p ↦ rw p.rows wf
  ]
