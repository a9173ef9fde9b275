-- ===== src/Worker/Completion/Course.antt =====
-- A task on its way to success, and what finishing a step of it leaves
-- (internal/store/store.go).
use run_state.Base.{
  All, ◌⊎◌, ◌≤◌, ◌≡◌, ◌∙◌, ◌==◌, ◌<◌, ◌+◌, ℕ, true, sym, subst, some, ok, length, inr, inl, false,
  arith, ap, Bool-cases,
}
use run_state.Worker.Completion.Rows.{
  All-completed, begun, completed, length-completed, completed-more, completed-last, IsRunnable,
  IsDoable,
}
use run_state.Store.Types.{LeaseToken, Clock}
use run_state.Executor.Types.{Environment}
use run_state.Store.Invariant.{IsWellFormed}
use run_state.Executor.Decode.{Library}
use run_state.Task.Model.{Task, Status, Step}
use run_state.Store.Rows.{step_at, TaskRows, is_running}
use run_state.Store.Start.{begin_attempt}
use run_state.Store.Rows.Steps.{length-update_step, find_step-step_at, index-step_at}
use run_state.Store.Lock.{validate_ownership, owns_active_lease, lock_task}

lt_of_test : (m n : ℕ) → (m == n) ≡ false → m ≤ n → m < n
lt_of_test m n h below = ground arith

module _ (lib : Library) (lease : LeaseToken) (environments : ℕ → Environment) where
  -- A task that runs under the lease, which is active until a time, with steps to do.
  pub record IsOnCourse (limit : ℕ) (r : TaskRows) : Type 0 where
    pub owned : (c : Clock) → c.lock < limit → validate_ownership (lock_task c r.task) lease ≡ ok tt
    pub running : is_running r.task.status ≡ true
    pub doable :
        All (λ s. r.task.current_step ≤ s.index → IsDoable lib lease environments s) r.steps
    pub some_left : r.task.current_step < length r.steps

  -- What finishing the step that the task stands at leaves: a task that has succeeded, or one that is on
  -- course with a step less to do.
  abbrev pub Advanced : ℕ → TaskRows → TaskRows → Type 0
  Advanced limit r r' =
      (r'.task.status ≡ Status.succeeded)
      ⊎ (IsOnCourse limit r'
          × (r'.task.current_step ≡ r.task.current_step + 1)
          × (length r'.steps ≡ length r.steps))

  pub completed-Advanced :
      (limit : ℕ) (c c' : Clock) (r : TaskRows) (s : Step)
      (d : IsRunnable lib lease environments (lock_task c r.task) r.steps s)
      → IsWellFormed r
      → IsOnCourse limit r
      → step_at r.task.current_step r.steps ≡ some s
      → Advanced limit r (completed lib lease environments c r s d c')
  unfolding validate_ownership owns_active_lease
  completed-Advanced limit c c' r s d wf course at_current =
      let found = find_step-step_at r.task.current_step 0 r.steps at_current wf.indexed in
      let index = index-step_at r.task.current_step r.steps at_current in
      let all =
        subst (λ k. All (λ x. k ≤ x.index → IsDoable lib lease environments x) r.steps) (sym index)
          course.doable in
      let later = All-completed lib lease environments c r s d c' found wf.indexed all in
      let same = length-completed lib lease environments c r s d c' in
      let same_begun = length-update_step s.id (begin_attempt c d.input) r.steps in
      elim (Bool-cases (s.index + 1 == length (begun lib lease environments c r s d).steps)) [
        | inl last ↦
            inl
              (ap (λ (t : Task). t.status) (completed-last lib lease environments c r s d c' last))
        | inr more ↦
            let task = completed-more lib lease environments c r s d c' more in
            let current = ap (λ (t : Task). t.current_step) task in
            inr (
              record {
                owned = λ now below. rw task (course.owned now below);
                running = rw task course.running;
                doable =
                    subst
                      (λ k.
                        All (λ x. k ≤ x.index → IsDoable lib lease environments x)
                          (completed lib lease environments c r s d c').steps)
                      (sym current) later;
                some_left = omega (
                  arith,
                  current,
                  same,
                  same_begun,
                  index,
                  course.some_left,
                  lt_of_test (s.index + 1) (length (begun lib lease environments c r s d).steps)
                      more,
                );
              },
              current ∙ ap (λ (k : ℕ). k + 1) index,
              same,
            )
      ]
