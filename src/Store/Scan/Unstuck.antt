-- ===== src/Store/Scan/Unstuck.antt =====
-- When the scans of internal/store/store.go come to a task that has not ended.
use run_state.Store.Database.Rows.{All-find_task}
use run_state.Base.{
  ◌⊎◌, Bool, ◌≤◌, ◌≡◌, ◌∙◌, ℕ, true, some, refl, none, length, inr, inl, false, arith, ap, String,
  Option, Bool-cases,
}
use run_state.Store.Types.{due, Clock}
use run_state.Store.Database.{find_task, Database}
use run_state.Store.Invariant.{is_some, IsCoherent, has_started, IsWellFormed}
use run_state.Store.Machine.Laws.{IsValid}
use run_state.Task.Model.{Status, Task}
use run_state.Store.Rows.{is_terminal_status, TaskRows, is_running}
use run_state.Store.Scan.{control_rank, claim_candidate, control_candidate}
use run_state.Store.Scan.Order.{control_candidate-urgent, claim_candidate-oldest}
use run_state.Store.Control.{is_retry_wait, control_due}
use run_state.Store.Lease.{claimable, is_claimable_status}

abbrev pub or_zero : Option ℕ → ℕ
or_zero none = 0
or_zero (some t) = t

-- The time for which a task of the status waits.
abbrev pub awaited : Status → Task → ℕ
awaited Status.scheduled t = t.run_at
awaited Status.runnable t = t.run_at
awaited Status.running t = or_zero t.lease_expires_at
awaited Status.retry_wait t = or_zero t.retry_at
awaited Status.waiting_approval t = or_zero t.deadline_at
awaited _ t = 0

due-or_zero : (at : Option ℕ) (now : ℕ) → is_some at ≡ true → or_zero at ≤ now → due at now ≡ true
due-or_zero none now h late = absurd (ground (arith, h))
due-or_zero (some t) now h late = ground (arith, late)

-- By that time a worker or a scheduler takes the task.
IsTaken : Task → ℕ → Type 0
IsTaken t now = (claimable t now ≡ true) ⊎ (control_due t now ≡ true)

-- A task whose status lets a worker claim it is claimed, cancelled or timed out.
claimed-or_controlled :
    (t : Task) (now : ℕ)
    → is_claimable_status t.status t.run_at t.lease_expires_at now ≡ true
    → is_terminal_status t.status ≡ false
    → IsTaken t now
unfolding IsTaken claimable control_due
claimed-or_controlled t now free_now ongoing = elim (Bool-cases t.cancel_requested) [
  | inl e ↦ inr (ground (arith, ongoing, e))
  | inr going ↦ elim (Bool-cases (due t.deadline_at now)) [
    | inl e ↦ inr (ground (arith, ongoing, e))
    | inr in_time ↦ inl (ground (arith, free_now, going, in_time))
  ]
]

module _ (t : Task) (step_count now : ℕ) (coherent : IsCoherent t step_count) where
  awaited-IsTaken :
      (status : Status)
      → t.status ≡ status
      → is_terminal_status status ≡ false
      → awaited status t ≤ now
      → IsTaken t now
  unfolding IsTaken control_due
  awaited-IsTaken Status.scheduled e ongoing late = inr (rw e (ground (arith, late)))
  awaited-IsTaken Status.runnable e ongoing late =
      claimed-or_controlled t now (rw e (ground (arith, late))) (rw e refl)
  awaited-IsTaken Status.running e ongoing late =
      claimed-or_controlled t now
        (rw e (due-or_zero t.lease_expires_at now (coherent.lease ∙ ap is_running e) late))
        (rw e refl)
  awaited-IsTaken Status.retry_wait e ongoing late =
      let late' = due-or_zero t.retry_at now (coherent.retry ∙ ap is_retry_wait e) late in
      inr (rw e (ground (arith, late')))
  awaited-IsTaken Status.waiting_approval e ongoing late =
      let late' = due-or_zero t.deadline_at now (coherent.deadline (ap has_started e)) late in
      inr (rw e (ground (arith, late')))
  awaited-IsTaken Status.succeeded e ongoing late = absurd (ground (arith, ongoing))
  awaited-IsTaken Status.failed e ongoing late = absurd (ground (arith, ongoing))
  awaited-IsTaken Status.cancelled e ongoing late = absurd (ground (arith, ongoing))
  awaited-IsTaken Status.timed_out e ongoing late = absurd (ground (arith, ongoing))

-- No task of a valid database is stuck: at a time that is no earlier than the one for which a
-- task that is not terminal waits (its run_at, the end of its lease, its retry_at or its
-- deadline, by its status), and while its row is not locked, the scan of ClaimTask finds a
-- candidate, one that was created no later than the task, or the scan of ProcessDueControl finds
-- one of no higher rank.
pub unfinished-IsFound :
    (id_before : String → String → Bool) (c : Clock) (skip : String → Bool) (db : Database)
    (id : String) {r : TaskRows}
    → IsValid db
    → find_task id db ≡ some r
    → is_terminal_status r.task.status ≡ false
    → skip r.task.id ≡ false
    → awaited r.task.status r.task ≤ c.select
    → ((x : TaskRows) × (claim_candidate id_before c skip db ≡ some x)
        × (x.task.created_at ≤ r.task.created_at))
      ⊎ ((x : TaskRows) × (control_candidate id_before c skip db ≡ some x)
          × (control_rank x.task c.select ≤ control_rank r.task c.select))
unfolding IsTaken
unfinished-IsFound id_before c skip db id {r} valid found ongoing free late =
    let wf = All-find_task IsWellFormed id db found valid.rows in
    elim (awaited-IsTaken r.task (length r.steps) c.select wf.task r.task.status refl ongoing
      late) [
        | inl free_now ↦ inl (claim_candidate-oldest id_before c skip db id found free free_now)
        | inr free_now ↦ inr (control_candidate-urgent id_before c skip db id found free free_now)
      ]
