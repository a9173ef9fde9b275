-- ===== src/Store/Invariant/Lease.antt =====
-- Well-formedness after `ClaimTask` and `RenewLease` (internal/store/store.go).
use run_state.Base.{
  Bool-cases, ◌+◌, subst, ok, Option, >>=-eq-ok, ℕ, refl, ltb, inl, false, inr, true, some, none,
  length, arith, ◌⊎◌, ◌≤◌, ◌≡◌, ◌<◌, String, List,
}
use run_state.Store.Rows.Steps.{
  step_at-none, Keeps, All-step_at, index-step_at_lt, index-step_at, find_step-step_at,
}
use run_state.Store.Types.{LeaseToken, Clock}
use run_state.Task.Model.{Task, Status, Event, StepStatus, Step}
use run_state.Store.Invariant.{IsConsistent, IsCoherent, agrees, IsWellFormed}
use run_state.Store.Lease.{
  assign_lease, after_recovery, claimable, renew_lease, recovered, recover_expired_task,
  claim_selected, exhausted, Recovery, released, abandon, recover_step, grant_lease,
}
use run_state.Store.Rows.{
  update_step, is_running_step, is_running, TaskRows, step_at, is_terminal_status,
}
use run_state.Store.Invariant.Updates.{stay-IsWellFormed, columns-IsWellFormed}
use run_state.Store.Lock.{validate_ownership, lock_task}
use run_state.Store.Invariant.Start.{running-validate_ownership}

assign_lease-IsCoherent :
    (c : Clock) (lease_duration : ℕ) (worker : String) (t : Task) (n : ℕ)
    → (t.status ≡ Status.runnable) ⊎ (t.status ≡ Status.running)
    → IsCoherent t n
    → IsCoherent (assign_lease c lease_duration worker t) n
unfolding assign_lease
assign_lease-IsCoherent c lease_duration worker t n from h = ground arith

IsConsistent-running :
    (status : Status) (current : ℕ) (x : Step)
    → (status ≡ Status.runnable) ⊎ (status ≡ Status.running)
    → IsConsistent status current x
    → IsConsistent Status.running current x
IsConsistent-running status current x from h = ground arith

pub grant_lease-IsWellFormed :
    (c : Clock) (lease_duration : ℕ) (worker : String) (before : Task) (r : TaskRows)
    → (r.task.status ≡ Status.runnable) ⊎ (r.task.status ≡ Status.running)
    → IsWellFormed r
    → IsWellFormed (grant_lease c lease_duration worker before r).0
unfolding grant_lease
grant_lease-IsWellFormed c lease_duration worker before r from wf =
    columns-IsWellFormed wf (assign_lease c lease_duration worker r.task) _
      (λ x h. IsConsistent-running r.task.status r.task.current_step x from h)
      (assign_lease-IsCoherent c lease_duration worker r.task (length r.steps) from wf.task)

abandon-IsConsistent :
    (c : Clock) (status status' : Status) (s : Step) {current : ℕ}
    → s.index ≡ current
    → agrees status' StepStatus.failed ≡ true
    → (is_terminal_status status' ≡ false → s.attempt < s.max_attempts)
    → IsConsistent status current s
    → IsConsistent status' current (abandon c s)
abandon-IsConsistent c status status' s here ag room h = ground arith

abandon-Keeps : (c : Clock) → Keeps (abandon c)
abandon-Keeps c = record { id = λ s. refl; index = λ s. refl }

released-failed-IsCoherent :
    (c : Clock) (t : Task) (n : ℕ)
    → t.status ≡ Status.running
    → t.current_step < n
    → IsCoherent t n
    → IsCoherent (released c Status.failed t) n
released-failed-IsCoherent c t n running room h = ground arith

released_succeeded-IsCoherent :
    (c : Clock) (t : Task) (n : ℕ)
    → t.status ≡ Status.running
    → n ≤ t.current_step
    → IsCoherent t n
    → IsCoherent (released c Status.succeeded t) n
released_succeeded-IsCoherent c t n running room h = ground arith

IsConsistent-succeeded :
    (status : Status) (current : ℕ) (x : Step)
    → IsConsistent status current x
    → IsConsistent Status.succeeded current x
IsConsistent-succeeded status current x h = ground arith

-- Whether or not the lost attempt was the last, the rows are well formed; and if it was not, the task
-- is still running.
abbrev Recovered : TaskRows × Recovery → Type 0
Recovered (r, recovered) = IsWellFormed r × (r.task.status ≡ Status.running)
Recovered (r, exhausted) = IsWellFormed r

module _ (c : Clock) {r : TaskRows} (wf : IsWellFormed r)
    (running : r.task.status ≡ Status.running) where
  recover_missing-Recovered :
      step_at r.task.current_step r.steps ≡ none → Recovered (recover_step c r none)
  unfolding recover_step
  recover_missing-Recovered h =
      columns-IsWellFormed wf (released c Status.succeeded r.task) _
        (λ x p. IsConsistent-succeeded r.task.status r.task.current_step x p)
        (released_succeeded-IsCoherent c r.task (length r.steps) running
          (step_at-none r.task.current_step r.steps wf.indexed h) wf.task)

  lost-IsWellFormed :
      (t : Task) (events : List Event) {s : Step}
      → step_at r.task.current_step r.steps ≡ some s
      → t.current_step ≡ r.task.current_step
      → agrees t.status StepStatus.failed ≡ true
      → (is_terminal_status t.status ≡ false → s.attempt < s.max_attempts)
      → IsCoherent t (length r.steps)
      → IsWellFormed
          (record { task = t; steps = update_step s.id (abandon c) r.steps; events = events })
  lost-IsWellFormed t events {s} found same ag room coherent =
      stay-IsWellFormed wf t events s.id (abandon c)
        (find_step-step_at r.task.current_step 0 r.steps found wf.indexed)
        (index-step_at r.task.current_step r.steps found) (abandon-Keeps c) same
        (abandon-IsConsistent c r.task.status t.status s
          (index-step_at r.task.current_step r.steps found) ag room
          (All-step_at _ r.task.current_step r.steps found wf.steps))
        coherent

  recover_found-Recovered :
      {s : Step}
      → step_at r.task.current_step r.steps ≡ some s
      → Recovered (recover_step c r (some s))
  unfolding recover_step
  recover_found-Recovered {s} found = elim (Bool-cases (is_running_step s.status)) [
    | inr idle ↦ rw (idle, recover_step) (wf, running)
    | inl busy ↦ elim (Bool-cases (ltb s.attempt s.max_attempts)) [
      | inl room ↦
          rw (busy, room, recover_step)
            (
              lost-IsWellFormed r.task _ found refl (ground arith) (λ p. ground arith) wf.task,
              running,
            )
      | inr spent ↦
          rw (busy, spent, recover_step)
            (lost-IsWellFormed (released c Status.failed r.task) _ found refl refl (λ p. cc)
              (released-failed-IsCoherent c r.task (length r.steps) running
                (omega (arith, index-step_at_lt r.task.current_step 0 r.steps found wf.indexed))
                wf.task))
    ]
  ]

recover_step-Recovered :
    (c : Clock) (r : TaskRows) (o : Option Step)
    → step_at r.task.current_step r.steps ≡ o
    → IsWellFormed r
    → r.task.status ≡ Status.running
    → Recovered (recover_step c r o)
recover_step-Recovered c r none h wf running = recover_missing-Recovered c wf running h
recover_step-Recovered c r (some s) h wf running = recover_found-Recovered c wf running h

after_recovery-IsWellFormed :
    (c : Clock) (lease_duration : ℕ) (worker : String) (before : Task) (p : TaskRows × Recovery)
    → Recovered p
    → IsWellFormed (after_recovery c lease_duration worker before p).0
after_recovery-IsWellFormed c lease_duration worker before (r, recovered) (wf, running) =
    grant_lease-IsWellFormed c lease_duration worker before r (inr running) wf
after_recovery-IsWellFormed c lease_duration worker before (r, exhausted) wf = wf

-- A new event does not matter.
pub events-IsWellFormed :
    {r : TaskRows} (events : List Event)
    → IsWellFormed r
    → IsWellFormed (record r { events = events })
events-IsWellFormed events wf = record { indexed = wf.indexed; steps = wf.steps; task = wf.task }

pub recover_expired_task-Recovered :
    (c : Clock) {r : TaskRows}
    → IsWellFormed r
    → r.task.status ≡ Status.running
    → Recovered (recover_expired_task c r)
unfolding recover_expired_task
recover_expired_task-Recovered c {r} wf running =
    recover_step-Recovered c _ (step_at r.task.current_step r.steps) refl (events-IsWellFormed _ wf)
      running

pub running_or_runnable :
    (t : Task) (now : ℕ)
    → claimable t now ≡ true
    → (t.status ≡ Status.runnable) ⊎ (t.status ≡ Status.running)
unfolding claimable
running_or_runnable t now h = ground arith

pub claim_selected-IsWellFormed :
    (c : Clock) (lease_duration : ℕ) (worker : String) (now : ℕ) {r : TaskRows}
    → claimable r.task now ≡ true
    → IsWellFormed r
    → IsWellFormed (claim_selected c lease_duration worker r).0
unfolding claim_selected
claim_selected-IsWellFormed c lease_duration worker now {r} h wf =
    elim (Bool-cases (is_running r.task.status)) [
      | inl running ↦
          rw (running, claim_selected)
            (after_recovery-IsWellFormed c lease_duration worker r.task (recover_expired_task c r)
              (recover_expired_task-Recovered c wf (ground arith)))
      | inr idle ↦
          rw (idle, claim_selected)
            (grant_lease-IsWellFormed c lease_duration worker r.task r
              (running_or_runnable r.task now h) wf)
    ]

renewed-IsCoherent :
    (t : Task) (now expires n : ℕ)
    → t.status ≡ Status.running
    → IsCoherent t n
    → IsCoherent (record t { lease_expires_at = some expires; updated_at = now }) n
renewed-IsCoherent t now expires n running h = ground arith

pub renew_lease-IsWellFormed :
    (c : Clock) (lease_duration : ℕ) (lease : LeaseToken) (r : TaskRows) {r' : TaskRows}
    → renew_lease c lease_duration lease r ≡ ok (tt, r')
    → IsWellFormed r
    → IsWellFormed r'
unfolding renew_lease
renew_lease-IsWellFormed c lease_duration lease r h wf =
    let (u, owned, h) = >>=-eq-ok (validate_ownership (lock_task c r.task) lease) _ h in
    subst IsWellFormed (ground arith) (
      columns-IsWellFormed wf
        (record r.task { lease_expires_at = some (c.write + lease_duration); updated_at = c.write })
        r.events (λ x p. p)
        (renewed-IsCoherent r.task c.write (c.write + lease_duration) (length r.steps)
          (running-validate_ownership (lock_task c r.task) lease owned) wf.task))
