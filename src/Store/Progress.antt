-- ===== src/Store/Progress.antt =====
-- What the operations of internal/store/store.go succeed at.
use run_state.Base.{
  sym, subst, str_eq, ◌+◌, ℕ, if◌then◌else◌, ok, ◌<◌, true, refl, err, arith, Bool-cases, ◌⊎◌, inr,
  inl, String, some, false, ◌≡◌,
}
use run_state.Store.Rows.Steps.{
  All-step_at, id-find_step, index-step_at, find_step-update_step, find_step-step_at,
}
use run_state.Store.Rows.Updates.{unfinished_before-false, All-map_step}
use run_state.Store.Types.{conflict, StepOutcome, StepAttempt, LeaseToken, Clock, ApprovalResult}
use run_state.Task.Model.{step_type_approval, Step, Status, rejected, approved, Decision}
use run_state.Store.Invariant.{IsWellFormed, IsConsistent}
use run_state.Task.Json.{Json}
use run_state.Store.Rows.{step_at, is_running_step, find_step, TaskRows}
use run_state.Store.Start.{
  step_input, attempt_of, started_rows, start_step, is_startable, check_startable, begin_attempt,
}
use run_state.Store.Finish.{
  limit_outcome, check_finishing, finish_succeeded, finish_step, finish_failed, finish_limited,
  check_outcome,
}
use run_state.Store.Approval.{
  same_decision, approve_step, decide_step, reject_step, record_decision, decide_approval,
}
use run_state.Store.Lock.{validate_ownership, lock_task, owns_active_lease}
use run_state.Store.Start.Success.{start_step-Started}
use run_state.Store.Approval.Success.{decide_approval-cases}
use run_state.Store.Finish.Success.{budgeted}

-- The worker that holds an active lease on well-formed rows, of a task that is not cancelled and
-- whose deadline has not passed, can start the step that the task stands at, unless that is an
-- approval, runs already, or has an input that does not resolve.
pub start_step-current :
    (c : Clock) (lease : LeaseToken) (r : TaskRows) {s : Step} {input : Json}
    → IsWellFormed r
    → validate_ownership (lock_task c r.task) lease ≡ ok tt
    → step_at r.task.current_step r.steps ≡ some s
    → str_eq s.step_type step_type_approval ≡ false
    → is_running_step s.status ≡ false
    → step_input (lock_task c r.task) s r.steps ≡ ok input
    → start_step c lease s.id r ≡ ok (attempt_of lease input s, started_rows c lease input s r)
unfolding start_step check_startable owns_active_lease validate_ownership
start_step-current c lease r {s} {input} wf owned at_current ordinary idle resolved =
    let found = find_step-step_at r.task.current_step 0 r.steps at_current wf.indexed in
    let index = index-step_at r.task.current_step r.steps at_current in
    let own = All-step_at _ r.task.current_step r.steps at_current wf.steps in
    let running : r.task.status ≡ Status.running = ground (arith, owned) in
    let done = unfinished_before-false s.index r.steps (
      All-map_step (IsConsistent r.task.status r.task.current_step) _ r.steps
        (λ x p b. p.done (omega (arith, index, b))) wf.steps) in
    let open_status : is_startable s.status ≡ true =
      ground (arith, own.active index, running, idle) in
    let room : s.attempt < s.max_attempts =
      ground (arith, own.untouched, own.retriable, own.positive, running, open_status) in
    let ready : check_startable (lock_task c r.task) s r.steps ≡ ok tt =
      ground (arith, ordinary, done, index, open_status, room) in
    rw (owned, start_step) (rw found (rw ready (rw resolved refl)))

finish_limited-total :
    (c : Clock) (lease : LeaseToken) (a : StepAttempt) (o : StepOutcome) (i : ℕ) (r : TaskRows)
    → (str_eq o.error "" ≡ false) ⊎ (check_outcome o ≡ ok tt)
    → (r' : TaskRows) × (finish_limited c lease a o i r ≡ ok (tt, r'))
unfolding finish_limited
finish_limited-total c lease a o i r fine = elim (Bool-cases (str_eq o.error "")) [
  | inr failed ↦ (finish_failed c lease a o r, rw (failed, finish_limited) refl)
  | inl clean ↦
      let checked : check_outcome o ≡ ok tt = ground (arith, fine, clean) in
      (finish_succeeded c lease a o (i + 1) r, rw (clean, finish_limited) (rw checked refl))
]

-- The attempt that StartStep returned can be finished on the rows that it left while the lease is
-- active, the task is not cancelled and its deadline has not passed: with a failure, or with an
-- output and a checkpoint that pass the checks on them.
pub start_step-finish_step :
    (c c' : Clock) (lease : LeaseToken) (id : String) (o : StepOutcome) (r : TaskRows)
    {a : StepAttempt} {r' : TaskRows}
    → start_step c lease id r ≡ ok (a, r')
    → validate_ownership (lock_task c' r'.task) lease ≡ ok tt
    → (str_eq (limit_outcome o).error "" ≡ false) ⊎ (check_outcome (limit_outcome o) ≡ ok tt)
    → (r'' : TaskRows) × (finish_step c' lease a o r' ≡ ok (tt, r''))
unfolding finish_step check_finishing finish_limited
start_step-finish_step c c' lease id o r {a} {r'} h owned fine =
    let p = start_step-Started c lease id r h in
    let same = id-find_step id r.steps p.found in
    let saved =
      find_step-update_step p.step.id (begin_attempt c p.input)
        (record { id = λ s. refl; index = λ s. refl }) r.steps {s = p.step} (rw same p.found) in
    let started : find_step a.step_id r'.steps ≡ some (begin_attempt c p.input p.step) =
      ground (arith, p.attempt, p.rows, saved) in
    let ready : check_finishing (lock_task c' r'.task) a (begin_attempt c p.input p.step) ≡ ok tt =
      ground (arith, p.attempt, p.rows, p.startable.current) in
    let (r'', done) =
      finish_limited-total c' lease (budgeted a p.step) (limit_outcome o) p.step.index r' fine in
    (r'', rw (owned, finish_step) (rw started (rw ready done)))

record_decision-saved :
    (c : Clock) (decision : Decision) (r : TaskRows) {s : Step}
    → find_step s.id r.steps ≡ some s
    → (s' : Step) × (find_step s.id (record_decision c decision s r).1.steps ≡ some s')
      × (s'.approval_decision ≡ some decision)
unfolding record_decision
record_decision-saved c approved r {s} found = (
  approve_step c s,
  find_step-update_step s.id (approve_step c) (record { id = λ s. refl; index = λ s. refl }) r.steps
      found,
  refl,
)
record_decision-saved c rejected r {s} found = (
  reject_step c s,
  find_step-update_step s.id (reject_step c) (record { id = λ s. refl; index = λ s. refl }) r.steps
      found,
  refl,
)

record_decision-answer :
    (c : Clock) (decision : Decision) (s : Step) (r : TaskRows)
    → (record_decision c decision s r).0
      ≡ record { decision = decision; task_status = (record_decision c decision s r).1.task.status }
unfolding record_decision
record_decision-answer c approved s r = refl
record_decision-answer c rejected s r = refl

saved_decision :
    (c : Clock) (id : String) (decision other : Decision) (r : TaskRows) {s : Step}
    → find_step id r.steps ≡ some s
    → s.approval_decision ≡ some decision
    → decide_approval c id other r ≡ (
        if same_decision decision other
        then ok (record { decision = decision; task_status = r.task.status }, r)
        else err conflict)
unfolding decide_approval decide_step
saved_decision c id decision other r found saved =
    rw (found, decide_approval) (rw (saved, decide_step) (ground arith))

-- On the rows that a successful decision left, at any time, the same decision returns the same
-- answer and changes nothing, and the other one conflicts.
pub decide_approval-replay :
    (c c' : Clock) (id : String) (decision other : Decision) (r : TaskRows) {a : ApprovalResult}
    {r' : TaskRows}
    → decide_approval c id decision r ≡ ok (a, r')
    → decide_approval c' id other r'
      ≡ (if same_decision decision other then ok (a, r') else err conflict)
decide_approval-replay c c' id decision other r {a} {r'} h =
    elim (decide_approval-cases c id decision r h) [
      | inl p ↦
          let same = id-find_step id r.steps p.found in
          let here = subst (λ i. find_step i r.steps ≡ some p.step) (sym same) p.found in
          let (s', found, saved) = record_decision-saved c decision r {s = p.step} here in
          let rows = (record_decision c decision p.step r).1 in
          let kept = subst (λ i. find_step i rows.steps ≡ some s') same found in
          rw (p.result, p.rows, record_decision-answer c decision p.step r)
            (saved_decision c' id decision other rows kept saved)
      | inr p ↦ rw (p.rows, p.result) (saved_decision c' id decision other r p.found p.saved)
    ]
