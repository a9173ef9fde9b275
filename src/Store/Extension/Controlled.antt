-- ===== src/Store/Extension/Controlled.antt =====
-- What the control transitions keep (internal/store/store.go).
use run_state.Store.Extension.{
  TaskExtends-refl, TaskExtends, Preserves, Extends-trans, Extends-refl, Extends,
  AllPreserved-update_step, AllPreserved-refl,
}
use run_state.Base.{
  ◌≡◌, true, sym, subst, some, refl, ok, none, inr, inl, false, arith, append-nil, [], String,
  Option, Bool-cases,
}
use run_state.Store.Types.{
  due, timed_out_outcome, cancelled_outcome, LeaseToken, ControlOutcome, Clock, CancelResult,
}
use run_state.Store.Rows.Steps.{find_step-step_at, Indexed}
use run_state.Task.Model.{Task, Step, Status}
use run_state.Store.Rows.{step_at, is_terminal_status, is_succeeded_step, is_running, TaskRows}
use run_state.Store.Control.{
  wake, wake_scheduled_task, wake_retry_task, timeout_owned_task, is_timed_out, is_cancelled,
  finish_controlled_task, finish_controlled_step, control_task, control_step, control_selected,
  close_task, cancel_task, cancel_owned_task,
}

control_step-Preserves :
    (c : Clock) (reason : String) (s : Step)
    → is_succeeded_step s.status ≡ false
    → Preserves s (control_step c reason s)
control_step-Preserves c reason s h = ground arith

control_task-TaskExtends :
    (c : Clock) (status : Status) (t : Task) → TaskExtends t (control_task c status t)
control_task-TaskExtends c status t = ground arith

close_task-Extends : (c : Clock) (o : ControlOutcome) (r : TaskRows) → Extends r (close_task c o r)
close_task-Extends c o r = record {
  task = control_task-TaskExtends c o.status r.task;
  steps = AllPreserved-refl r.steps;
  added = _;
  events = refl;
}

finish_controlled_step-Extends :
    (c : Clock) (o : ControlOutcome) (r : TaskRows) (s : Option Step)
    → Indexed 0 r.steps
    → step_at r.task.current_step r.steps ≡ s
    → Extends r (finish_controlled_step c o s r)
unfolding finish_controlled_step
finish_controlled_step-Extends c o r none ix h = Extends-refl r
finish_controlled_step-Extends c o r (some s) ix h =
    elim (Bool-cases (is_succeeded_step s.status)) [
      | inl e ↦ rw (e, finish_controlled_step) (Extends-refl r)
      | inr e ↦
          rw (e, finish_controlled_step)
            (record {
              task = TaskExtends-refl r.task;
              steps =
                  AllPreserved-update_step s.id (control_step c o.reason) r.steps
                    (find_step-step_at r.task.current_step 0 r.steps h ix)
                    (control_step-Preserves c o.reason s e);
              added = _;
              events = refl;
            })
    ]

pub finish_controlled_task-Extends :
    (c : Clock) (o : ControlOutcome) (r : TaskRows)
    → Indexed 0 r.steps
    → Extends r (finish_controlled_task c o r)
unfolding finish_controlled_task
finish_controlled_task-Extends c o r ix =
    Extends-trans
      (finish_controlled_step-Extends c o r (step_at r.task.current_step r.steps) ix refl)
      (close_task-Extends c o _)

module _ (c : Clock) (lease : LeaseToken) (r : TaskRows) {r' : TaskRows}
    (ix : Indexed 0 r.steps) where
  pub timeout_owned_task-Extends : timeout_owned_task c lease r ≡ ok (tt, r') → Extends r r'
  unfolding timeout_owned_task
  timeout_owned_task-Extends h = elim (Bool-cases (is_timed_out r.task.status)) [
    | inl e ↦ subst (Extends r) (ground arith) (Extends-refl r)
    | inr e ↦
        subst (Extends r) (ground arith) (finish_controlled_task-Extends c timed_out_outcome r ix)
  ]

  pub cancel_owned_task-Extends : cancel_owned_task c lease r ≡ ok (tt, r') → Extends r r'
  unfolding cancel_owned_task
  cancel_owned_task-Extends h = elim (Bool-cases (is_cancelled r.task.status)) [
    | inl e ↦ subst (Extends r) (ground arith) (Extends-refl r)
    | inr e ↦
        subst (Extends r) (ground arith) (finish_controlled_task-Extends c cancelled_outcome r ix)
  ]

requested-TaskExtends :
    (c : Clock) (t : Task)
    → TaskExtends t (record t { cancel_requested = true; updated_at = c.write })
requested-TaskExtends c t = ground arith

requested-Extends :
    (c : Clock) (r : TaskRows)
    → Extends r
        (record r { task = record r.task { cancel_requested = true; updated_at = c.write } })
requested-Extends c r = record {
  task = requested-TaskExtends c r.task;
  steps = AllPreserved-refl r.steps;
  added = [];
  events = sym (append-nil r.events);
}

pub cancel_task-Extends :
    (c : Clock) (r : TaskRows) {a : CancelResult} {r' : TaskRows}
    → Indexed 0 r.steps
    → cancel_task c r ≡ ok (a, r')
    → Extends r r'
unfolding cancel_task
cancel_task-Extends c r ix h = elim (Bool-cases (is_terminal_status r.task.status)) [
  | inl e ↦ subst (Extends r) (ground arith) (Extends-refl r)
  | inr e ↦ elim (Bool-cases (is_running r.task.status)) [
    | inl running ↦ subst (Extends r) (ground arith) (requested-Extends c r)
    | inr idle ↦
        subst (Extends r) (ground arith) (finish_controlled_task-Extends c cancelled_outcome r ix)
  ]
]

woken_retry-TaskExtends :
    (c : Clock) (t : Task)
    → TaskExtends t (record t { status = Status.runnable; retry_at = none; updated_at = c.write })
woken_retry-TaskExtends c t = ground arith

woken_scheduled-TaskExtends :
    (c : Clock) (t : Task)
    → TaskExtends t (record t { status = Status.runnable; updated_at = c.write })
woken_scheduled-TaskExtends c t = ground arith

pub wake_retry_task-Extends : (c : Clock) (r : TaskRows) → Extends r (wake_retry_task c r)
unfolding wake_retry_task
wake_retry_task-Extends c r = record {
  task = woken_retry-TaskExtends c r.task;
  steps = AllPreserved-refl r.steps;
  added = _;
  events = refl;
}

wake_scheduled_task-Extends : (c : Clock) (r : TaskRows) → Extends r (wake_scheduled_task c r)
unfolding wake_scheduled_task
wake_scheduled_task-Extends c r = record {
  task = woken_scheduled-TaskExtends c r.task;
  steps = AllPreserved-refl r.steps;
  added = _;
  events = refl;
}

wake-Extends :
    (c : Clock) (status : Status) (r : TaskRows) {r' : TaskRows}
    → wake c status r ≡ some r'
    → Extends r r'
wake-Extends c Status.retry_wait r h =
    subst (Extends r) (ground arith) (wake_retry_task-Extends c r)
wake-Extends c Status.scheduled r h =
    subst (Extends r) (ground arith) (wake_scheduled_task-Extends c r)
wake-Extends c _ r h = cc

pub control_selected-Extends :
    (c : Clock) (r : TaskRows) {r' : TaskRows}
    → Indexed 0 r.steps
    → control_selected c r ≡ some r'
    → Extends r r'
unfolding control_selected
control_selected-Extends c r ix h = elim (Bool-cases r.task.cancel_requested) [
  | inl e ↦
      subst (Extends r) (ground arith) (finish_controlled_task-Extends c cancelled_outcome r ix)
  | inr e ↦ elim (Bool-cases (due r.task.deadline_at c.lock)) [
    | inl late ↦
        subst (Extends r) (ground arith) (finish_controlled_task-Extends c timed_out_outcome r ix)
    | inr on_time ↦ wake-Extends c r.task.status r (ground arith)
  ]
]
