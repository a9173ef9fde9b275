-- ===== src/Worker/Completion/Rows.antt =====
-- What StartStep and FinishStep leave of the rows of a task whose step succeeds (internal/store/store.go).
use run_state.Store.Types.{StepOutcome, LeaseToken, Clock}
use run_state.Store.Types.{max_json_bytes}
use run_state.Executor.Types.{Environment}
use run_state.Store.Rows.Steps.{
  step_at-total, Keeps, Indexed-update_step, index-step_at, length-update_step, Indexed,
  All-step_at, find_step-update_step, find_step-step_at,
}
use run_state.Store.Rows.Updates.{All-update_step}
use run_state.Store.Invariant.{IsWellFormed, IsConsistent}
use run_state.Task.Json.{RawMessage, Json}
use run_state.Executor.Decode.{Library}
use run_state.Base.{
  some, refl, ok, length, Option, get_elem?, false, ◌∙◌, arith, subst, none, [], All, List, ltb,
  ◌≤◌, ◌≡◌, ◌∷◌, ◌==◌, ◌<◌, ◌+◌, ℕ, zero, true, suc, str_eq,
}
use run_state.Store.Lock.{validate_ownership, lock_task, LockedTask}
use run_state.Task.Model.{step_type_approval, StepStatus, Step}
use run_state.Store.Rows.{step_at, is_running_step, find_step, TaskRows}
use run_state.Store.Start.{step_input, attempt_of, started_rows, begin_attempt, previous_output}
use run_state.Store.Finish.{
  succeed_step, advance_task, check_finishing, is_valid, finish_succeeded, finish_step,
  finish_limited, empty_message, limit_outcome, complete_task, check_outcome,
}
use run_state.Worker.Loop.{outcome_of}
use run_state.Executor.{execute}

-- The step at a position of the steps in the order of their index.
pub get_elem?-Indexed :
    (i k : ℕ) (steps : List Step)
    → i < length steps
    → Indexed k steps
    → (s : Step) × (get_elem? steps i ≡ some s) × (step_at (k + i) steps ≡ some s)
unfolding step_at
get_elem?-Indexed i k [] h ix = absurd (omega (arith, h))
get_elem?-Indexed zero k (s ∷ rest) h ix = (s, refl, ground (arith, ix.0))
get_elem?-Indexed (suc i) k (s ∷ rest) h ix =
    let (s', there, at) = get_elem?-Indexed i (suc k) rest (omega (arith, h)) ix.2 in
    let next : suc k + i ≡ k + suc i = omega arith in
    let later = subst (λ n. step_at n rest ≡ some s') next at in
    (s', there, ground (arith, ix.0, later))

previous_output-succeeded :
    (k : ℕ) (steps : List Step) {s : Step}
    → step_at k steps ≡ some s
    → s.status ≡ StepStatus.succeeded
    → previous_output (suc k) steps ≡ ok s.output
unfolding previous_output
previous_output-succeeded k steps found done = rw (found, previous_output) (rw done refl)

-- The step before one that the task stands at has succeeded.
pub previous_output-done :
    (r : TaskRows) (i : ℕ)
    → IsWellFormed r
    → i ≡ r.task.current_step
    → i < length r.steps
    → (previous : Option Json) × (previous_output i r.steps ≡ ok previous)
unfolding previous_output
previous_output-done r zero wf at below = (none, refl)
previous_output-done r (suc k) wf at below =
    let (s, before) = step_at-total k 0 r.steps wf.indexed (omega arith) (omega (arith, below)) in
    let index = index-step_at k r.steps before in
    let own =
      All-step_at (IsConsistent r.task.status r.task.current_step) k r.steps before wf.steps in
    let done = own.done (omega (arith, index, at)) in
    (s.output, previous_output-succeeded k r.steps before done)

module _ (lib : Library) (lease : LeaseToken) (environments : ℕ → Environment) where
  -- A step whose input resolves, and whose execution at its next attempt succeeds.
  pub record IsRunnable (locked : LockedTask) (steps : List Step) (s : Step) : Type 0 where
    pub input : Json
    pub output : RawMessage
    pub resolved : step_input locked s steps ≡ ok input
    pub executes :
        (i : ℕ)
        → execute lib (environments i) (attempt_of lease input s) ≡ ok (output, empty_message)
    pub small : ltb max_json_bytes output.size ≡ false
    pub document : is_valid output.document ≡ true
    pub some_bytes : 1 ≤ output.size

  -- A step that is no approval and does not run, and that is runnable once the step before it has
  -- succeeded.
  pub record IsDoable (s : Step) : Type 0 where
    pub ordinary : str_eq s.step_type step_type_approval ≡ false
    pub idle : is_running_step s.status ≡ false
    pub runnable :
        (locked : LockedTask) (steps : List Step) (previous : Option Json)
        → previous_output s.index steps ≡ ok previous
        → IsRunnable locked steps s

  module _ (c : Clock) (r : TaskRows) (s : Step)
      (d : IsRunnable (lock_task c r.task) r.steps s) where
    abbrev pub begun : TaskRows
    begun = started_rows c lease d.input s r

    abbrev pub success : StepOutcome
    success = outcome_of (ok (d.output, empty_message))

    -- The rows after the step has succeeded.
    abbrev pub completed : Clock → TaskRows
    completed c' =
        finish_succeeded c' lease (attempt_of lease d.input s) success (s.index + 1) begun

    limit_outcome-success : limit_outcome success ≡ success
    unfolding limit_outcome
    limit_outcome-success = rw d.small refl

    check_outcome-success : check_outcome success ≡ ok tt
    unfolding check_outcome
    check_outcome-success =
        let some_size : (d.output.size == 0) ≡ false = ground (arith, d.some_bytes) in
        rw some_size (rw d.document refl)

    pub finish_step-finished :
        (c' : Clock)
        → IsWellFormed r
        → step_at r.task.current_step r.steps ≡ some s
        → validate_ownership (lock_task c' r.task) lease ≡ ok tt
        → finish_step c' lease (attempt_of lease d.input s) success begun ≡ ok (tt, completed c')
    unfolding finish_step check_finishing finish_limited
    finish_step-finished c' wf at_current owned =
        let found = find_step-step_at r.task.current_step 0 r.steps at_current wf.indexed in
        let index = index-step_at r.task.current_step r.steps at_current in
        let saved =
          find_step-update_step s.id (begin_attempt c d.input)
            (record { id = λ x. refl; index = λ x. refl }) r.steps {s = s} found in
        let ready : check_finishing (lock_task c' r.task) (attempt_of lease d.input s)
              (begin_attempt c d.input s)
            ≡ ok tt =
          ground (arith, index) in
        rw (owned, finish_step)
          (rw saved (rw ready (rw limit_outcome-success (rw check_outcome-success refl))))

    pub completed-last :
        (c' : Clock)
        → (s.index + 1 == length begun.steps) ≡ true
        → (completed c').task ≡ complete_task c' (s.index + 1) none r.task
    unfolding finish_succeeded
    completed-last c' last = rw last refl

    pub completed-more :
        (c' : Clock)
        → (s.index + 1 == length begun.steps) ≡ false
        → (completed c').task ≡ advance_task c' (s.index + 1) none r.task
    unfolding finish_succeeded
    completed-more c' more = rw more refl

    pub completed-id : (c' : Clock) → (completed c').task.id ≡ r.task.id
    unfolding finish_succeeded
    completed-id c' = ground arith

    pub length-completed : (c' : Clock) → length (completed c').steps ≡ length r.steps
    unfolding finish_succeeded
    length-completed c' =
        length-update_step s.id (succeed_step c' d.output.document) begun.steps
        ∙ length-update_step s.id (begin_attempt c d.input) r.steps

    -- The steps behind the one that was finished are as they were.
    pub All-completed :
        (c' : Clock)
        → find_step s.id r.steps ≡ some s
        → Indexed 0 r.steps
        → All (λ x. s.index ≤ x.index → IsDoable x) r.steps
        → All (λ x. s.index + 1 ≤ x.index → IsDoable x) (completed c').steps
    unfolding finish_succeeded
    All-completed c' found indexed doable =
        let Later : Step → Type 0 = λ x. s.index + 1 ≤ x.index → IsDoable x in
        let keeps : Keeps (begin_attempt c d.input) = record {
          id = λ x. refl;
          index = λ x. refl;
        } in
        let begun_doable =
          All-update_step (λ x. s.index ≤ x.index → IsDoable x) Later s.id (begin_attempt c d.input)
            0 r.steps found indexed (λ h. absurd (omega (arith, h)))
            (λ x other p h. p (omega (arith, h))) doable in
        All-update_step Later Later s.id (succeed_step c' d.output.document) 0 begun.steps
          (find_step-update_step s.id (begin_attempt c d.input) keeps r.steps {s = s} found)
          (Indexed-update_step s.id (begin_attempt c d.input) keeps 0 r.steps indexed)
          (λ h. absurd (omega (arith, h))) (λ x other p h. p h) begun_doable
