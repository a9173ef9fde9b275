-- ===== src/Store/Invariant/Updates.antt =====
-- Well-formedness after the writes that the operations share: new columns of a task, and an update
-- of the step that the task stands at.
use run_state.Base.{none, ℕ, String, some, ◌≡◌, ◌≢◌, List, length, arith, true, ◌+◌}
use run_state.Task.Model.{Status, Task, Step, StepStatus, Event}
use run_state.Store.Rows.{step_at, TaskRows, find_step, update_step}
use run_state.Store.Rows.Steps.{Keeps, Indexed-update_step, length-update_step}
use run_state.Store.Rows.Updates.{All-map_absent, All-update_step, All-map_step}
use run_state.Store.Invariant.{IsConsistent, IsCoherent, IsWellFormed, agrees}

-- Away from the current step, the status of the task does not matter.
IsConsistent-stay :
    (status status' : Status) (current : ℕ) (x : Step)
    → x.index ≢ current
    → IsConsistent status current x
    → IsConsistent status' current x
IsConsistent-stay status status' current x ne h = ground arith

IsConsistent-advance :
    (status status' : Status) (current : ℕ) (x : Step)
    → agrees status' StepStatus.pending ≡ true
    → x.index ≢ current
    → IsConsistent status current x
    → IsConsistent status' (current + 1) x
IsConsistent-advance status status' current x ag ne h = ground arith

module _ {r : TaskRows} (wf : IsWellFormed r) (t : Task) (events : List Event) where
  -- The step at `current_step` is rewritten, and the task stands there still.
  pub stay-IsWellFormed :
      (id : String) (f : Step → Step) {s : Step}
      → find_step id r.steps ≡ some s
      → s.index ≡ r.task.current_step
      → Keeps f
      → t.current_step ≡ r.task.current_step
      → IsConsistent t.status r.task.current_step (f s)
      → IsCoherent t (length r.steps)
      → IsWellFormed (record { task = t; steps = update_step id f r.steps; events = events })
  stay-IsWellFormed id f {s} found here keeps same new coherent = record {
    indexed = Indexed-update_step id f keeps 0 r.steps wf.indexed;
    steps = rw same (
        All-update_step _ _ id f 0 r.steps found wf.indexed new
          (λ x ne. IsConsistent-stay r.task.status t.status r.task.current_step x (rw (← here) ne))
          wf.steps);
    task = rw (length-update_step id f r.steps) coherent;
  }

  -- The step at `current_step` is rewritten, and the task moves to the next one.
  pub advance-IsWellFormed :
      (id : String) (f : Step → Step) {s : Step}
      → find_step id r.steps ≡ some s
      → s.index ≡ r.task.current_step
      → Keeps f
      → t.current_step ≡ r.task.current_step + 1
      → agrees t.status StepStatus.pending ≡ true
      → IsConsistent t.status (r.task.current_step + 1) (f s)
      → IsCoherent t (length r.steps)
      → IsWellFormed (record { task = t; steps = update_step id f r.steps; events = events })
  advance-IsWellFormed id f {s} found here keeps next ag new coherent = record {
    indexed = Indexed-update_step id f keeps 0 r.steps wf.indexed;
    steps = rw next (
        All-update_step _ _ id f 0 r.steps found wf.indexed new
          (λ x ne.
            IsConsistent-advance r.task.status t.status r.task.current_step x ag (rw (← here) ne))
          wf.steps);
    task = rw (length-update_step id f r.steps) coherent;
  }

  -- No step is written, and each is as consistent with the task's new columns as it was.
  pub columns-IsWellFormed :
      ((x : Step)
        → IsConsistent r.task.status r.task.current_step x
        → IsConsistent t.status t.current_step x)
      → IsCoherent t (length r.steps)
      → IsWellFormed (record { task = t; steps = r.steps; events = events })
  columns-IsWellFormed g coherent = record {
    indexed = wf.indexed;
    steps = All-map_step _ _ r.steps g wf.steps;
    task = coherent;
  }

  -- There is no step at `current_step`, so the status of the task does not matter.
  pub absent-IsWellFormed :
      step_at r.task.current_step r.steps ≡ none
      → t.current_step ≡ r.task.current_step
      → IsCoherent t (length r.steps)
      → IsWellFormed (record { task = t; steps = r.steps; events = events })
  absent-IsWellFormed absent same coherent = record {
    indexed = wf.indexed;
    steps = rw same (
        All-map_absent _ _ r.task.current_step r.steps absent
          (λ x ne. IsConsistent-stay r.task.status t.status r.task.current_step x ne) wf.steps);
    task = coherent;
  }
