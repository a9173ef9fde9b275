-- ===== src/Api/Accepted.antt =====
-- What `validateDefinition` of internal/api/handler.go has checked of the definition that it gives.
use run_state.Base.{
  ltb, >>=-eq-ok, ◌⊎◌, ◌≤◌, ◌≡◌, ◌∷◌, ◌||◌, ◌==◌, ℕ, true, suc, subst, str_eq, some, refl,
  or_fail-eq-ok, or_fail, ok, not, none, length, inr, inl, guard-eq-ok, guard, err, arith, ap, [],
  String, Result, Option, List, Bool-cases,
}
use run_state.Api.Validation.{
  positive, within_step, CreateStepRequest, validate_steps, validate_step, validate_request,
  resolve_text, parse_run_at, input_document, check_type, CreateTaskRequest,
}
use run_state.Task.Model.{step_type_approval, Definition, StepDefinition}
use run_state.Task.Json.{Json}
use run_state.Executor.Decode.{negsuc, pos, ℤ, Library}
use run_state.Store.Create.{positive_limits}
use run_state.Executor.{validate_definition}
use run_state.Task.Resolve.{validate_input_references}

module _ (lib : Library) where
  -- A step that the store and the executor can take.
  pub record IsAccepted (index : ℕ) (s : StepDefinition) : Type 0 where
    pub attempts : 1 ≤ s.max_attempts
    pub timeout : 1 ≤ s.timeout_seconds
    pub implemented :
        (str_eq s.step_type step_type_approval ≡ true)
        ⊎ (validate_definition lib s.step_type s.input ≡ ok tt)
    pub references : validate_input_references s.input (ltb 0 index) ≡ ok tt

  abbrev pub AllAccepted : ℕ → List StepDefinition → Type 0
  AllAccepted index [] = Unit {0}
  AllAccepted index (s ∷ rest) = IsAccepted index s × AllAccepted (suc index) rest

  pub record IsValidDefinition (d : Definition) : Type 0 where
    pub some_step : 1 ≤ length d.steps
    pub few_steps : length d.steps ≤ 100
    pub timeout : 1 ≤ d.task_timeout_seconds
    pub steps : AllAccepted 0 d.steps

  positive-eq-some :
      (default : ℕ) (n : Option ℤ) {m : ℕ} → 1 ≤ default → positive default n ≡ some m → 1 ≤ m
  positive-eq-some default none h e = ground arith
  positive-eq-some default (some (pos n)) h e = ground arith
  positive-eq-some default (some (negsuc n)) h e = absurd (ground (arith, e))

  within_step-eq-ok :
      {A E : Type 0} (index : ℕ) (explain : E → String) (r : Result E A) {a : A}
      → within_step lib index explain r ≡ ok a
      → r ≡ ok a
  within_step-eq-ok index explain (ok b) h = ground arith
  within_step-eq-ok index explain (err e) h = absurd (ground (arith, h))

  check_type-eq-ok :
      (index : ℕ) (step_type : String) (input : Json)
      → check_type lib index step_type input ≡ ok tt
      → (str_eq step_type step_type_approval ≡ true)
        ⊎ (validate_definition lib step_type input ≡ ok tt)
  check_type-eq-ok index step_type input h =
      elim (Bool-cases (str_eq step_type step_type_approval)) [
        | inl approval ↦ inl approval
        | inr ordinary ↦
            let checked = rw ordinary at h in
            inr (
              within_step-eq-ok index (λ text. text) (validate_definition lib step_type input)
                checked)
      ]

  validate_step-IsAccepted :
      (index : ℕ) (step : CreateStepRequest) {d : StepDefinition}
      → validate_step lib index step ≡ ok d
      → IsAccepted index d
  unfolding validate_step
  validate_step-IsAccepted index step {d} h =
      let (input, valid, h) = >>=-eq-ok (or_fail (input_document step.input) _) _ h in
      let (seconds, timeout, h) = >>=-eq-ok (or_fail (positive 30 step.timeout_seconds) _) _ h in
      let (attempts, limit, h) = >>=-eq-ok (or_fail (positive 3 step.max_attempts) _) _ h in
      let (u, implemented, h) = >>=-eq-ok (check_type lib index step.step_type input) _ h in
      let (v, references, h) =
        >>=-eq-ok
          (within_step lib index (resolve_text lib) (validate_input_references input (ltb 0 index)))
          _ h in
      let accepted : IsAccepted index (record {
        step_type = step.step_type;
        input = input;
        timeout_seconds = seconds;
        max_attempts = attempts;
      }) =
        record {
          attempts =
              positive-eq-some 3 step.max_attempts (omega arith)
                (or_fail-eq-ok (positive 3 step.max_attempts) _ limit);
          timeout =
              positive-eq-some 30 step.timeout_seconds (omega arith)
                (or_fail-eq-ok (positive 30 step.timeout_seconds) _ timeout);
          implemented = check_type-eq-ok index step.step_type input implemented;
          references =
              within_step-eq-ok index (resolve_text lib)
                (validate_input_references input (ltb 0 index)) references;
        } in
      subst (IsAccepted index) (ground (arith, h)) accepted

  validate_steps-AllAccepted :
      (index : ℕ) (steps : List CreateStepRequest) {ds : List StepDefinition}
      → validate_steps lib index steps ≡ ok ds
      → AllAccepted index ds × (length ds ≡ length steps)
  unfolding validate_steps
  validate_steps-AllAccepted index [] {ds} h =
      let same : [] ≡ ds = ground arith in
      subst (λ xs. AllAccepted index xs × (length xs ≡ 0)) same (tt, refl)
  validate_steps-AllAccepted index (step ∷ rest) {ds} h =
      let (d, first, h) = >>=-eq-ok (validate_step lib index step) _ h in
      let (later, others, h) = >>=-eq-ok (validate_steps lib (suc index) rest) _ h in
      let (accepted, count) = validate_steps-AllAccepted (suc index) rest others in
      let same : (d ∷ later) ≡ ds = ground (arith, h) in
      subst (λ xs. AllAccepted index xs × (length xs ≡ suc (length rest))) same
        ((validate_step-IsAccepted index step first, accepted), ap suc count)

  -- The limits of an accepted definition pass the CHECK constraints of the tables.
  pub positive_limits-AllAccepted :
      (index : ℕ) (ds : List StepDefinition) → AllAccepted index ds → positive_limits ds ≡ true
  positive_limits-AllAccepted index [] h = refl
  positive_limits-AllAccepted index (d ∷ rest) (accepted, later) = ground (
    arith,
    accepted.attempts,
    accepted.timeout,
    positive_limits-AllAccepted (suc index) rest later,
  )

  -- A definition that validateDefinition gives has between 1 and 100 steps and a positive time-
  -- out; each of its steps has positive limits, is an approval or passes ValidateDefinition of
  -- the executor, and has valid references, to a previous output only after the first step.
  pub validate_request-IsValidDefinition :
      (parse_time : String → Option ℕ) (input : CreateTaskRequest) {d : Definition}
      → validate_request lib parse_time input ≡ ok d
      → IsValidDefinition d
  unfolding validate_request
  validate_request-IsValidDefinition parse_time input {d} h =
      let (run_at, parsed, h) = >>=-eq-ok (parse_run_at lib parse_time input.run_at) _ h in
      let (u, bounded, h) =
        >>=-eq-ok (guard (not ((length input.steps == 0) || ltb 100 (length input.steps))) _) _ h in
      let bounded =
        guard-eq-ok (not ((length input.steps == 0) || ltb 100 (length input.steps))) _ bounded in
      let (seconds, timeout, h) =
        >>=-eq-ok (or_fail (positive 3600 input.task_timeout_seconds) _) _ h in
      let (steps, checked, h) = >>=-eq-ok (validate_steps lib 0 input.steps) _ h in
      let (accepted, count) = validate_steps-AllAccepted 0 input.steps checked in
      let valid : IsValidDefinition (record {
        tenant_id = input.tenant_id;
        run_at = run_at;
        task_timeout_seconds = seconds;
        steps = steps;
      }) =
        record {
          some_step = ground (arith, bounded, count);
          few_steps = ground (arith, bounded, count);
          timeout =
              positive-eq-some 3600 input.task_timeout_seconds (omega arith)
                (or_fail-eq-ok (positive 3600 input.task_timeout_seconds) _ timeout);
          steps = accepted;
        } in
      subst IsValidDefinition (ground (arith, h)) valid
