-- ===== src/Store/Commit/Finish.antt =====
-- When the fact that `FinishStep` reads back holds (internal/store/store.go).
use run_state.Base.{
  inr, inl, Bool, ◌≡◌, ◌∷◌, ◌==◌, ◌+◌, ◌++◌, true, str_eq, some, refl, ok, not, none, length,
  if◌then◌else◌, false, eq_refl, arith, [], String, Option, List,
}
use run_state.Store.Types.{StepOutcome, Clock, StepAttempt, LeaseToken}
use run_state.Task.Model.{
  task_succeeded, Event, task_retry_wait, task_failed, step_succeeded, step_failed, StepStatus,
  Step, EventType,
}
use run_state.Task.Json.{Json}
use run_state.Store.Rows.{find_step, TaskRows, event}
use run_state.Store.Commit.Facts.{
  is_committed, commit-exact, any-append_left, any-append, CommitReport,
}
use run_state.Store.Finish.{
  retry_payload, limit_outcome, finish_step, check_outcome, retrying, succeed_step, is_valid,
  finish_succeeded, finish_failed, finish_events, fail_step,
}
use run_state.Store.Commit.{
  persisted, event_name, commit_with_fact_check, CommitResult, any, step_finish_persisted,
  json_matches, is_attempt_event,
}
use run_state.Store.Rows.Steps.{find_step-update_step}
use run_state.Store.Finish.Success.{budgeted, finish_step-Finishing}

finish_events-fact :
    (c : Clock) (lease : LeaseToken) (a : StepAttempt) (t u : EventType) (error : String) (b : Bool)
    → any (is_attempt_event t a.step_id a.attempt) (finish_events c lease a t u error b) ≡ true
finish_events-fact c lease a t u error b = ground (arith, eq_refl (event_name t), eq_refl a.step_id)

module _ (jsonb_eq : Json → Json → Bool) (jsonb_refl : (x : Json) → jsonb_eq x x ≡ true) where
  json_matches_refl : (d : Option Json) → is_valid d ≡ true → json_matches jsonb_eq d d ≡ true
  json_matches_refl none h = cc
  json_matches_refl (some x) h = jsonb_refl x

  module _ (c : Clock) (lease : LeaseToken) (a : StepAttempt) (o : StepOutcome) (r : TaskRows) where
    finish_fact_before :
        {s : Step}
        → find_step a.step_id r.steps ≡ some s
        → s.status ≡ StepStatus.running
        → step_finish_persisted jsonb_eq a o r ≡ false
    unfolding step_finish_persisted
    finish_fact_before found running = rw found (ground arith)

    finish_failed_fact :
        {s : Step}
        → find_step a.step_id r.steps ≡ some s
        → s.attempt ≡ a.attempt
        → str_eq o.error "" ≡ false
        → step_finish_persisted jsonb_eq a o (finish_failed c lease a o r) ≡ true
    unfolding step_finish_persisted finish_failed
    finish_failed_fact {s} found same failed =
        let events = finish_events c lease a step_failed task_failed o.error (not (retrying a o)) in
        let retries : List Event =
          if retrying a o then event c task_retry_wait (retry_payload a) ∷ [] else [] in
        let is_fact = is_attempt_event step_failed a.step_id a.attempt in
        rw
          (find_step-update_step a.step_id (fail_step c o.error)
            (record { id = λ s. refl; index = λ s. refl }) r.steps found)
          (ground (
            arith,
            eq_refl o.error,
            any-append is_fact r.events (events ++ retries) (
                any-append_left is_fact events retries (
                  finish_events-fact c lease a step_failed task_failed o.error
                    (not (retrying a o)))),
          ))

    finish_succeeded_fact :
        {s : Step}
        → find_step a.step_id r.steps ≡ some s
        → s.attempt ≡ a.attempt
        → str_eq o.error "" ≡ true
        → check_outcome o ≡ ok tt
        → step_finish_persisted jsonb_eq a o (finish_succeeded c lease a o (s.index + 1) r) ≡ true
    unfolding step_finish_persisted finish_succeeded check_outcome
    finish_succeeded_fact {s} found same succeeded checked =
        let terminal = s.index + 1 == length r.steps in
        rw
          (find_step-update_step a.step_id (succeed_step c o.output.document)
            (record { id = λ s. refl; index = λ s. refl }) r.steps found)
          (ground (
            arith,
            json_matches_refl o.output.document,
            any-append (is_attempt_event step_succeeded a.step_id a.attempt) r.events
                (finish_events c lease a step_succeeded task_succeeded "" terminal)
                (finish_events-fact c lease a step_succeeded task_succeeded "" terminal),
          ))

  -- Where jsonb equality is reflexive, a FinishStep on a step that exists, if it reaches its
  -- COMMIT and reads its fact back at once, returns nil exactly if its outcome was persisted,
  -- whatever becomes of its COMMIT, on the branch of failure and on that of success. The fact is
  -- about the attempt with the persisted budget and the outcome after the size limits.
  pub finish_step-commit :
      (k : CommitResult) (c : Clock) (lease : LeaseToken) (a : StepAttempt) (o : StepOutcome)
      (r : TaskRows) {s : Step} {r' : TaskRows}
      → find_step a.step_id r.steps ≡ some s
      → finish_step c lease a o r ≡ ok (tt, r')
      → CommitReport k (
          commit_with_fact_check k (
            persisted (
              step_finish_persisted jsonb_eq
                (budgeted a s)
                (limit_outcome o)
                (if is_committed k then r' else r))))
  finish_step-commit k c lease a o r {s} {r'} found h =
      let p = finish_step-Finishing c lease a o r h in
      let same : p.step ≡ s = ground (arith, p.found) in
      let running : s.status ≡ StepStatus.running = ground (arith, p.finishing.running) in
      let attempt : s.attempt ≡ a.attempt = ground (arith, p.finishing.attempt) in
      commit-exact k (step_finish_persisted jsonb_eq (budgeted a s) (limit_outcome o)) r r'
        (finish_fact_before c lease (budgeted a s) (limit_outcome o) r found running)
        (elim p.branch [
          | inl (failed, e) ↦
              rw (e, same)
                (finish_failed_fact c lease (budgeted a s) (limit_outcome o) r found attempt failed)
          | inr (succeeded, checked, e) ↦
              rw (e, same)
                (finish_succeeded_fact c lease (budgeted a s) (limit_outcome o) r found attempt
                  succeeded checked)
        ])
