-- ===== src/Store/Commit/Approval.antt =====
-- When the facts that `WaitForApproval` and `DecideApproval` read back hold (internal/store/store.go).
use run_state.Store.Types.{LeaseToken, Clock, ApprovalResult}
use run_state.Store.Commit.Facts.{is_committed, commit-exact, any-append, CommitReport}
use run_state.Store.Commit.{
  wait_persisted, decision_persisted, commit_with_fact_check, CommitResult, persisted,
  is_step_event, is_decision_event,
}
use run_state.Store.Approval.Success.{wait_for_approval-Awaited, Decided, decide_approval-cases}
use run_state.Task.Model.{
  task_waiting_approval, Step, Event, Decision, task_succeeded, task_rejected, task_failed,
  task_approved, rejected, approved,
}
use run_state.Base.{
  ◌≡◌, sym, [], String, subst, List, ◌∷◌, ◌==◌, ◌+◌, true, some, refl, ok, none, length, inr, inl,
  if◌then◌else◌, false, eq_refl, arith,
}
use run_state.Store.Rows.{find_step, TaskRows, event}
use run_state.Store.Approval.{
  waiting_payload, decide_approval, await_decision, approve_step, wait_for_approval, reject_step,
  record_decision, decided_payload,
}
use run_state.Store.Rows.Steps.{id-find_step, find_step-update_step}

wait_fact_before :
    (c : Clock) (lease : LeaseToken) (id : String) (r : TaskRows) {u : Unit {0}} {r' : TaskRows}
    → wait_for_approval c lease id r ≡ ok (u, r')
    → wait_persisted id r ≡ false
unfolding wait_persisted
wait_fact_before c lease id r h =
    let p = wait_for_approval-Awaited c lease id r h in
    rw p.found (ground (arith, p.awaitable.pending))

wait_fact_after :
    (c : Clock) (lease : LeaseToken) (id : String) (r : TaskRows) {u : Unit {0}} {r' : TaskRows}
    → wait_for_approval c lease id r ≡ ok (u, r')
    → wait_persisted id r' ≡ true
unfolding wait_persisted
wait_fact_after c lease id r h =
    let p = wait_for_approval-Awaited c lease id r h in
    let same = id-find_step id r.steps p.found in
    let found =
      find_step-update_step id (await_decision c p.input)
        (record { id = λ s. refl; index = λ s. refl }) r.steps p.found in
    rw (p.rows, same, found)
      (ground (
        arith,
        eq_refl id,
        eq_refl "TASK_WAITING_APPROVAL",
        any-append (is_step_event task_waiting_approval id) r.events
            (event c task_waiting_approval (waiting_payload p.step) ∷ []),
      ))

-- A WaitForApproval that reaches its COMMIT and reads its fact back at once returns nil exactly
-- if the wait was persisted, whatever becomes of its COMMIT.
pub wait_for_approval-commit :
    (k : CommitResult) (c : Clock) (lease : LeaseToken) (id : String) (r : TaskRows) {u : Unit {0}}
    {r' : TaskRows}
    → wait_for_approval c lease id r ≡ ok (u, r')
    → CommitReport k (
        commit_with_fact_check k (persisted (wait_persisted id (if is_committed k then r' else r))))
wait_for_approval-commit k c lease id r {u} {r'} h =
    commit-exact k (wait_persisted id) r r' (wait_fact_before c lease id r h)
      (wait_fact_after c lease id r h)

module _ (c : Clock) (s : Step) (r : TaskRows) (found : find_step s.id r.steps ≡ some s)
    (here : s.index ≡ r.task.current_step) where
  recorded_fact :
      (decision : Decision)
      → decision_persisted s.id decision (record_decision c decision s r).1 ≡ true
  unfolding decision_persisted record_decision
  recorded_fact approved =
      let completion : List Event =
        if s.index + 1 == length r.steps
        then event c task_succeeded (decided_payload s approved) ∷ []
        else [] in
      rw
        (find_step-update_step s.id (approve_step c) (record { id = λ s. refl; index = λ s. refl })
          r.steps found)
        (ground (
          arith,
          eq_refl s.id,
          eq_refl "TASK_APPROVED",
          eq_refl "approved",
          any-append (is_decision_event task_approved s.id approved) r.events
              (event c task_approved (decided_payload s approved) ∷ completion),
        ))
  recorded_fact rejected =
      rw
        (find_step-update_step s.id (reject_step c) (record { id = λ s. refl; index = λ s. refl })
          r.steps found)
        (ground (
          arith,
          eq_refl s.id,
          eq_refl "TASK_REJECTED",
          eq_refl "rejected",
          any-append (is_decision_event task_rejected s.id rejected) r.events (
              event c task_rejected (decided_payload s rejected)
              ∷ event c task_failed (decided_payload s rejected)
              ∷ []),
        ))

module _ (c : Clock) (id : String) (r : TaskRows) where
  decision_fact_before :
      (decision : Decision) {a : ApprovalResult} {r' : TaskRows}
      → Decided c id decision r a r'
      → decision_persisted id decision r ≡ false
  unfolding decision_persisted
  decision_fact_before approved p = rw p.found (ground (arith, p.undecided))
  decision_fact_before rejected p = rw p.found (ground (arith, p.undecided))

  decision_fact_after :
      (decision : Decision) {a : ApprovalResult} {r' : TaskRows}
      → Decided c id decision r a r'
      → decision_persisted id decision r' ≡ true
  decision_fact_after decision p =
      let same = id-find_step id r.steps p.found in
      rw p.rows (
        subst (λ i. decision_persisted i decision (record_decision c decision p.step r).1 ≡ true)
          same
          (recorded_fact c p.step r
            (subst (λ i. find_step i r.steps ≡ some p.step) (sym same) p.found) p.decidable.current
            decision))

  -- A decision on a step that had none, if it reaches its COMMIT and reads its fact back at once,
  -- returns nil exactly if it was persisted, whatever becomes of its COMMIT.
  pub decide_approval-commit :
      (k : CommitResult) (decision : Decision) {s : Step} {a : ApprovalResult} {r' : TaskRows}
      → find_step id r.steps ≡ some s
      → s.approval_decision ≡ none
      → decide_approval c id decision r ≡ ok (a, r')
      → CommitReport k (
          commit_with_fact_check k
            (persisted (decision_persisted id decision (if is_committed k then r' else r))))
  decide_approval-commit k decision {s} {a} {r'} found fresh h =
      elim (decide_approval-cases c id decision r h) [
        | inl p ↦
            commit-exact k (decision_persisted id decision) r r' (decision_fact_before decision p)
              (decision_fact_after decision p)
        | inr p ↦ absurd (ground (arith, p.found, p.saved))
      ]
