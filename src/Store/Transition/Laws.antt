-- ===== src/Store/Transition/Laws.antt =====
-- What holds of every committed transaction, and of any number of them (internal/store/store.go).
use run_state.Base.{String, >>=-eq-ok, ℕ, ◌≡◌, ◌∙◌, true, subst, refl, ok, inr, inl, false, arith}
use run_state.Store.Types.{LeaseToken, Clock, CancelResult, ApprovalResult}
use run_state.Task.Model.{Task, Status, Decision}
use run_state.Store.Transition.{
  here, cancels_owned, Transition, Evolves, wakes, controls, cancels, finishes, decides, awaits,
  starts, renews, next, claims, times_out,
}
use run_state.Store.Extension.{Extends-trans, Extends, Extends-refl}
use run_state.Store.Invariant.{IsWellFormed}
use run_state.Store.Rows.{is_terminal_status, TaskRows}
use run_state.Store.Control.{
  timeout_owned_task, control_due, cancel_task, cancel_owned_task, retry_due,
}
use run_state.Store.Extension.Controlled.{
  wake_retry_task-Extends, control_selected-Extends, cancel_task-Extends, cancel_owned_task-Extends,
  timeout_owned_task-Extends,
}
use run_state.Store.Invariant.Control.{
  timeout_owned_task-IsWellFormed, cancel_owned_task-IsWellFormed, cancel_task-IsWellFormed,
}
use run_state.Store.Extension.Claimed.{claim_selected-Extends}
use run_state.Store.Invariant.Lease.{renew_lease-IsWellFormed, claim_selected-IsWellFormed}
use run_state.Store.Invariant.Wake.{wake_retry_task-IsWellFormed, control_selected-IsWellFormed}
use run_state.Store.Approval.{decide_approval}
use run_state.Store.Extension.Leased.{
  wait_for_approval-Extends, renew_lease-Extends, decide_approval-Extends, start_step-Extends,
}
use run_state.Store.Extension.Finished.{finish_step-Extends}
use run_state.Store.Invariant.Approval.{
  wait_for_approval-IsWellFormed, decide_approval-IsWellFormed,
}
use run_state.Store.Approval.Success.{wait_for_approval-Awaited, decide_approval-cases}
use run_state.Store.Finish.Success.{finish_step-Finishing}
use run_state.Store.Invariant.Finish.{finish_step-IsWellFormed}
use run_state.Store.Lock.{validate_ownership, lock_task, owns_active_lease}
use run_state.Store.Lease.{renew_lease, claimable}
use run_state.Store.Invariant.Start.{start_step-IsWellFormed, running-validate_ownership}
use run_state.Store.Start.Success.{start_step-Started}
use run_state.Store.Extension.Finished.{finish_step-Extends}

control_due-ongoing :
    (t : Task) (now : ℕ) → control_due t now ≡ true → is_terminal_status t.status ≡ false
unfolding control_due
control_due-ongoing t now h = ground arith

retry_due-waiting : (t : Task) (now : ℕ) → retry_due t now ≡ true → t.status ≡ Status.retry_wait
unfolding retry_due
retry_due-waiting t now h = ground arith

-- Every committed transaction on the rows of a task keeps them well formed.
pub Transition-IsWellFormed : {r r' : TaskRows} → Transition r r' → IsWellFormed r → IsWellFormed r'
Transition-IsWellFormed (claims c d w now h e) wf =
    subst IsWellFormed e (claim_selected-IsWellFormed c d w now h wf)
Transition-IsWellFormed {r} (renews c d lease h) wf = renew_lease-IsWellFormed c d lease r h wf
Transition-IsWellFormed {r} (starts c lease id a h) wf = start_step-IsWellFormed c lease id r h wf
Transition-IsWellFormed {r} (awaits c lease id h) wf =
    wait_for_approval-IsWellFormed c lease id r h wf
Transition-IsWellFormed {r} (decides c id d a h) wf = decide_approval-IsWellFormed c id wf d h
Transition-IsWellFormed {r} (finishes c lease a o h) wf =
    finish_step-IsWellFormed c lease a o r h wf
Transition-IsWellFormed {r} (times_out c lease h) wf =
    timeout_owned_task-IsWellFormed c lease r wf h
Transition-IsWellFormed {r} (cancels c a h) wf = cancel_task-IsWellFormed c r wf h
Transition-IsWellFormed {r} (cancels_owned c lease h) wf =
    cancel_owned_task-IsWellFormed c lease r wf h
Transition-IsWellFormed {r} (controls c now h e) wf =
    control_selected-IsWellFormed c wf (control_due-ongoing r.task now h) e
Transition-IsWellFormed {r} (wakes c now h e) wf =
    subst IsWellFormed e (wake_retry_task-IsWellFormed c wf (retry_due-waiting r.task now h))

-- Every committed transaction extends the rows.
pub Transition-Extends : {r r' : TaskRows} → Transition r r' → IsWellFormed r → Extends r r'
Transition-Extends {r} (claims c d w now h e) wf =
    subst (Extends r) e (claim_selected-Extends c d w r wf.indexed)
Transition-Extends {r} (renews c d lease h) wf = renew_lease-Extends c d lease r h
Transition-Extends {r} (starts c lease id a h) wf = start_step-Extends c lease id r h
Transition-Extends {r} (awaits c lease id h) wf = wait_for_approval-Extends c lease id r h
Transition-Extends {r} (decides c id d a h) wf = decide_approval-Extends c id d r h
Transition-Extends {r} (finishes c lease a o h) wf = finish_step-Extends c lease a o r h
Transition-Extends {r} (times_out c lease h) wf = timeout_owned_task-Extends c lease r wf.indexed h
Transition-Extends {r} (cancels c a h) wf = cancel_task-Extends c r wf.indexed h
Transition-Extends {r} (cancels_owned c lease h) wf =
    cancel_owned_task-Extends c lease r wf.indexed h
Transition-Extends {r} (controls c now h e) wf = control_selected-Extends c r wf.indexed e
Transition-Extends {r} (wakes c now h e) wf = subst (Extends r) e (wake_retry_task-Extends c r)

not_owned :
    (c : Clock) (lease : LeaseToken) (r : TaskRows)
    → is_terminal_status r.task.status ≡ true
    → validate_ownership (lock_task c r.task) lease ≡ ok tt
    → ⊥
not_owned c lease r ended h =
    let running = running-validate_ownership (lock_task c r.task) lease h in ground arith

module _ (c : Clock) (lease : LeaseToken) (r : TaskRows) {r' : TaskRows}
    (ended : is_terminal_status r.task.status ≡ true) where
  renew_lease-terminal : (d : ℕ) → renew_lease c d lease r ≡ ok (tt, r') → ⊥
  unfolding renew_lease
  renew_lease-terminal d h =
      not_owned c lease r ended ((>>=-eq-ok (validate_ownership (lock_task c r.task) lease) _ h).1)

  timeout_owned_task-terminal : timeout_owned_task c lease r ≡ ok (tt, r') → r' ≡ r
  unfolding timeout_owned_task owns_active_lease
  timeout_owned_task-terminal h = ground arith

  cancel_owned_task-terminal : cancel_owned_task c lease r ≡ ok (tt, r') → r' ≡ r
  unfolding cancel_owned_task owns_active_lease
  cancel_owned_task-terminal h = ground arith

claimable-terminal :
    (t : Task) (now : ℕ) → is_terminal_status t.status ≡ true → claimable t now ≡ false
unfolding claimable
claimable-terminal t now h = ground arith

cancel_task-terminal :
    (c : Clock) (r : TaskRows) {a : CancelResult} {r' : TaskRows}
    → is_terminal_status r.task.status ≡ true
    → cancel_task c r ≡ ok (a, r')
    → r' ≡ r
unfolding cancel_task
cancel_task-terminal c r ended h = ground arith

decide_approval-terminal :
    (c : Clock) (id : String) (decision : Decision) (r : TaskRows) {a : ApprovalResult}
    {r' : TaskRows}
    → is_terminal_status r.task.status ≡ true
    → decide_approval c id decision r ≡ ok (a, r')
    → r' ≡ r
decide_approval-terminal c id decision r ended h = elim (decide_approval-cases c id decision r h) [
  | inl p ↦ let waiting = p.decidable.waiting in absurd (ground arith)
  | inr p ↦ p.rows
]

-- A task in a terminal status is final: no committed transaction changes any of its rows.
pub Transition-terminal :
    {r r' : TaskRows} → Transition r r' → is_terminal_status r.task.status ≡ true → r' ≡ r
Transition-terminal {r} (claims c d w now h e) ended =
    absurd (ground (arith, claimable-terminal r.task now ended))
Transition-terminal {r} (renews c d lease h) ended =
    absurd (renew_lease-terminal c lease r ended d h)
Transition-terminal {r} (starts c lease id a h) ended =
    absurd (not_owned c lease r ended (start_step-Started c lease id r h).owned)
Transition-terminal {r} (awaits c lease id h) ended =
    absurd (not_owned c lease r ended (wait_for_approval-Awaited c lease id r h).owned)
Transition-terminal {r} (decides c id d a h) ended = decide_approval-terminal c id d r ended h
Transition-terminal {r} (finishes c lease a o h) ended =
    absurd (not_owned c lease r ended (finish_step-Finishing c lease a o r h).owned)
Transition-terminal {r} (times_out c lease h) ended = timeout_owned_task-terminal c lease r ended h
Transition-terminal {r} (cancels c a h) ended = cancel_task-terminal c r ended h
Transition-terminal {r} (cancels_owned c lease h) ended =
    cancel_owned_task-terminal c lease r ended h
Transition-terminal {r} (controls c now h e) ended =
    absurd (ground (arith, control_due-ongoing r.task now h))
Transition-terminal {r} (wakes c now h e) ended =
    absurd (ground (arith, retry_due-waiting r.task now h))

pub Evolves-IsWellFormed : {r r' : TaskRows} → Evolves r r' → IsWellFormed r → IsWellFormed r'
Evolves-IsWellFormed here wf = wf
Evolves-IsWellFormed (next before step) wf =
    Transition-IsWellFormed step (Evolves-IsWellFormed before wf)

pub Evolves-Extends : {r r' : TaskRows} → Evolves r r' → IsWellFormed r → Extends r r'
Evolves-Extends {r} here wf = Extends-refl r
Evolves-Extends (next before step) wf =
    Extends-trans (Evolves-Extends before wf)
      (Transition-Extends step (Evolves-IsWellFormed before wf))

pub Evolves-terminal :
    {r r' : TaskRows} → Evolves r r' → is_terminal_status r.task.status ≡ true → r' ≡ r
Evolves-terminal here ended = refl
Evolves-terminal {r} (next {s} before step) ended =
    let same = Evolves-terminal before ended in Transition-terminal step (rw same ended) ∙ same
