-- ===== src/Store/Commit/Start.antt =====
-- When the fact that `StartStep` reads back holds (internal/store/store.go).
use run_state.Base.{
  ◌≡◌, ◌∷◌, ◌+◌, true, refl, ok, if◌then◌else◌, false, eq_refl, arith, [], String, Bool,
}
use run_state.Store.Types.{StepAttempt, LeaseToken, Clock}
use run_state.Store.Commit.Facts.{is_committed, commit-exact, any-append, CommitReport}
use run_state.Store.Commit.{
  step_start_persisted, persisted, is_attempt_event, commit_with_fact_check, CommitResult,
}
use run_state.Task.Json.{Json}
use run_state.Store.Rows.{event, TaskRows}
use run_state.Store.Start.{started_payload, start_step, begin_attempt, attempt_of}
use run_state.Store.Rows.Steps.{id-find_step, find_step-update_step}
use run_state.Store.Start.Success.{start_step-Started}
use run_state.Task.Model.{step_started}

module _ (jsonb_eq : Json → Json → Bool) (jsonb_refl : (x : Json) → jsonb_eq x x ≡ true) where
  start_fact_before :
      (c : Clock) (lease : LeaseToken) (id : String) (r : TaskRows) {a : StepAttempt}
      {r' : TaskRows}
      → start_step c lease id r ≡ ok (a, r')
      → step_start_persisted jsonb_eq a r ≡ false
  unfolding step_start_persisted
  start_fact_before c lease id r h =
      let p = start_step-Started c lease id r h in
      let same = id-find_step id r.steps p.found in
      rw (p.attempt, same, p.found) (ground (arith, p.startable.ready))

  start_fact_after :
      (c : Clock) (lease : LeaseToken) (id : String) (r : TaskRows) {a : StepAttempt}
      {r' : TaskRows}
      → start_step c lease id r ≡ ok (a, r')
      → step_start_persisted jsonb_eq a r' ≡ true
  unfolding step_start_persisted
  start_fact_after c lease id r h =
      let p = start_step-Started c lease id r h in
      let same = id-find_step id r.steps p.found in
      let found =
        find_step-update_step id (begin_attempt c p.input)
          (record { id = λ s. refl; index = λ s. refl }) r.steps p.found in
      rw (p.attempt, p.rows, same, found)
        (ground (
          arith,
          jsonb_refl p.input,
          eq_refl id,
          eq_refl "STEP_STARTED",
          any-append (is_attempt_event step_started id (p.step.attempt + 1)) r.events
              (event c step_started (started_payload lease (attempt_of lease p.input p.step)) ∷ []),
        ))

  -- Where jsonb equality is reflexive, a StartStep that reaches its COMMIT and reads its fact
  -- back at once returns nil exactly if its attempt was persisted, whatever becomes of its
  -- COMMIT.
  pub start_step-commit :
      (k : CommitResult) (c : Clock) (lease : LeaseToken) (id : String) (r : TaskRows)
      {a : StepAttempt} {r' : TaskRows}
      → start_step c lease id r ≡ ok (a, r')
      → CommitReport k (
          commit_with_fact_check k
            (persisted (step_start_persisted jsonb_eq a (if is_committed k then r' else r))))
  start_step-commit k c lease id r {a} {r'} h =
      commit-exact k (step_start_persisted jsonb_eq a) r r' (start_fact_before c lease id r h)
        (start_fact_after c lease id r h)
