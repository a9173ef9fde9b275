-- ===== src/Scheduler/Drain.antt =====
-- How often the inner loop of internal/scheduler/scheduler.go may process a task.
use run_state.Base.{
  ◌∙◌, Bool, ◌+◌, refl, none, Option, ◌≤◌, ◌≡◌, ◌∷◌, ◌<◌, ℕ, true, str_eq, some, inr, inl,
  if◌then◌else◌, false, arith, ap, [], String, Bool-cases,
}
use run_state.Store.Types.{Clock, due, timed_out_outcome, cancelled_outcome, ControlOutcome}
use run_state.Store.Database.{put_task, find_task, Database}
use run_state.Task.Model.{Status, Task}
use run_state.Store.Rows.{is_terminal_status, TaskRows}
use run_state.Store.Control.{
  wake, wake_scheduled_task, wake_retry_task, wake_due, finish_controlled_task, control_selected,
  control_due,
}

-- Whether the task is one that the scheduler wakes.
abbrev pub is_asleep : Status → Bool
is_asleep Status.scheduled = true
is_asleep Status.retry_wait = true
is_asleep _ = false

-- How often a task may still be processed: one that is woken may be cancelled or timed out later.
abbrev pub weight : Status → ℕ
weight status = if is_terminal_status status then 0 else if is_asleep status then 2 else 1

abbrev pub total : Database → ℕ
total [] = 0
total (r ∷ rest) = weight r.task.status + total rest

pub total-put_task :
    (id : String) (db : Database) (r r' : TaskRows)
    → find_task id db ≡ some r
    → weight r'.task.status < weight r.task.status
    → total (put_task id r' db) < total db
unfolding find_task put_task
total-put_task id [] r r' h less = cc
total-put_task id (x ∷ rest) r r' h less = elim (Bool-cases (str_eq x.task.id id)) [
  | inl hit ↦
      let same : x ≡ r = ground (arith, h, hit) in
      let count = ap (λ y. weight y.task.status) same in
      rw (hit, put_task) (omega (arith, count, less))
  | inr miss ↦
      let h' = rw (miss, find_task) at h in
      let later = total-put_task id rest r r' h' less in rw (miss, put_task) (omega (arith, later))
]

wake-weight :
    (c : Clock) (status : Status) (r : TaskRows) {r' : TaskRows}
    → wake c status r ≡ some r'
    → weight r'.task.status < weight status
unfolding wake_retry_task wake_scheduled_task
wake-weight c Status.scheduled r h = ground arith
wake-weight c Status.runnable r h = absurd (ground (arith, h))
wake-weight c Status.running r h = absurd (ground (arith, h))
wake-weight c Status.retry_wait r h = ground arith
wake-weight c Status.waiting_approval r h = absurd (ground (arith, h))
wake-weight c Status.succeeded r h = absurd (ground (arith, h))
wake-weight c Status.failed r h = absurd (ground (arith, h))
wake-weight c Status.cancelled r h = absurd (ground (arith, h))
wake-weight c Status.timed_out r h = absurd (ground (arith, h))

positive_weight : (t : Task) (now : ℕ) → control_due t now ≡ true → 0 < weight t.status
unfolding control_due
positive_weight t now h = ground arith

finished_weight :
    (c : Clock) (r : TaskRows) (o : ControlOutcome)
    → weight o.status ≡ 0
    → weight (finish_controlled_task c o r).task.status ≡ 0
unfolding finish_controlled_task
finished_weight c r o h = h

pub control_selected-weight :
    (c : Clock) (r : TaskRows) {r' : TaskRows}
    → control_due r.task c.select ≡ true
    → control_selected c r ≡ some r'
    → weight r'.task.status < weight r.task.status
unfolding control_selected
control_selected-weight c r {r'} due_now h =
    let some_weight = positive_weight r.task c.select due_now in
    elim (Bool-cases r.task.cancel_requested) [
      | inl e ↦
          let is : finish_controlled_task c cancelled_outcome r ≡ r' = ground (arith, e, h) in
          let zero_weight = ap (λ x. weight x.task.status) is in
          omega (arith, some_weight, zero_weight, finished_weight c r cancelled_outcome refl)
      | inr e ↦ elim (Bool-cases (due r.task.deadline_at c.lock)) [
        | inl d ↦
            let is : finish_controlled_task c timed_out_outcome r ≡ r' = ground (arith, e, d, h) in
            let zero_weight = ap (λ x. weight x.task.status) is in
            omega (arith, some_weight, zero_weight, finished_weight c r timed_out_outcome refl)
        | inr d ↦
            let woken : wake c r.task.status r ≡ some r' = ground (arith, e, d, h) in
            wake-weight c r.task.status r woken
      ]
    ]

due-monotone : (at : Option ℕ) (a b : ℕ) → a ≤ b → due at a ≡ true → due at b ≡ true
due-monotone none a b order h = h
due-monotone (some t) a b order h = ground (arith, order, h)

wake-due :
    (c : Clock) (status : Status) (r : TaskRows)
    → c.select ≤ c.lock
    → wake_due status r.task.retry_at r.task.run_at c.select ≡ true
    → (r' : TaskRows) × (wake c status r ≡ some r')
wake-due c Status.scheduled r order h = (wake_scheduled_task c r, ground (arith, order, h))
wake-due c Status.runnable r order h = absurd (ground (arith, h))
wake-due c Status.running r order h = absurd (ground (arith, h))
wake-due c Status.retry_wait r order h =
    (wake_retry_task c r, rw (due-monotone r.task.retry_at c.select c.lock order h) refl)
wake-due c Status.waiting_approval r order h = absurd (ground (arith, h))
wake-due c Status.succeeded r order h = absurd (ground (arith, h))
wake-due c Status.failed r order h = absurd (ground (arith, h))
wake-due c Status.cancelled r order h = absurd (ground (arith, h))
wake-due c Status.timed_out r order h = absurd (ground (arith, h))

pub control_selected-due :
    (c : Clock) (r : TaskRows)
    → c.select ≤ c.lock
    → control_due r.task c.select ≡ true
    → (r' : TaskRows) × (control_selected c r ≡ some r')
unfolding control_selected control_due
control_selected-due c r order due_now = elim (Bool-cases r.task.cancel_requested) [
  | inl e ↦ (finish_controlled_task c cancelled_outcome r, ground (arith, e))
  | inr e ↦ elim (Bool-cases (due r.task.deadline_at c.lock)) [
    | inl d ↦ (finish_controlled_task c timed_out_outcome r, ground (arith, e, d))
    | inr d ↦
        let early : due r.task.deadline_at c.select ≡ false =
          ground (arith, d, due-monotone r.task.deadline_at c.select c.lock order) in
        let (r', woken) = wake-due c r.task.status r order (ground (arith, due_now, e, early)) in
        let wakes : control_selected c r ≡ wake c r.task.status r = ground (arith, e, d) in
        (r', wakes ∙ woken)
  ]
]
