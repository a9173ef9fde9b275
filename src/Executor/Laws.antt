-- ===== src/Executor/Laws.antt =====
-- What the executor promises of its outputs and failures (internal/executor/executor.go).
use run_state.Executor.Tool.{limit_body, execute_fake_tool, check_body, receive}
use run_state.Executor.Types.{
  failed, classify, not_sent, not_read, answered, ExecuteError, Exchange, Environment,
  max_json_bytes,
}
use run_state.Executor.Steps.{
  execute_flaky, decode_flaky, FlakyInput, within_failures, value_output, validate_flaky,
  is_nonzero, is_negative,
}
use run_state.Base.{
  ◌⊎◌, false, err, arith, ap, ◌∙◌, Option, Bool-cases, Bool, >>=-eq-ok, leb, ltb, ◌≤◌, ◌≡◌, ◌||◌,
  ◌==◌, ◌+◌, ◌&&◌, ℕ, true, sym, subst, str_eq, some, refl, or_fail-eq-ok, or_fail, ok, not, none,
  inr, inl, if◌then◌else◌, guard-eq-ok, guard,
}
use run_state.Store.Types.{FailureClass, StepAttempt}
use run_state.Task.Json.{RawMessage, Json}
use run_state.Executor.Decode.{ℤ, Library, negsuc, pos}

module _ (lib : Library) where
  -- The response of the fake tool whose body is the output of the step.
  pub record IsToolResult (answer : Exchange) (output : RawMessage) : Type 0 where
    pub body : answer ≡ answered 200 output
    pub size : output.size ≤ max_json_bytes
    pub document : Json
    pub parsed : output.document ≡ some document

  check_body-IsToolResult :
      (body : RawMessage) {output : RawMessage}
      → check_body lib (limit_body lib body) ≡ ok output
      → IsToolResult (answered 200 body) output
  unfolding check_body
  check_body-IsToolResult body {output} h =
      let (document, parsed, h) = >>=-eq-ok (or_fail (limit_body lib body).document _) _ h in
      let (u, small, h) =
        >>=-eq-ok (guard (not (ltb max_json_bytes (limit_body lib body).size)) _) _ h in
      let fits = guard-eq-ok (not (ltb max_json_bytes (limit_body lib body).size)) _ small in
      elim (Bool-cases (ltb (max_json_bytes + 1) body.size)) [
        | inl long ↦ absurd (ground (arith, long, fits))
        | inr short ↦
            let same : body ≡ output = ground (arith, short, h) in
            record {
              body = ap (answered 200) same;
              size = ground (arith, short, fits, same);
              document = document;
              parsed = ground (arith, short, parsed, same);
            }
      ]

  pub receive-IsToolResult :
      (answer : Exchange) {output : RawMessage}
      → receive lib answer ≡ ok output
      → IsToolResult answer output
  unfolding receive
  receive-IsToolResult (not_sent deadline text) h = absurd (ground (arith, h))
  receive-IsToolResult (not_read deadline text) h = absurd (ground (arith, h))
  receive-IsToolResult (answered status body) {output} h = elim (Bool-cases (status == 409)) [
    | inl conflicting ↦ absurd (ground (arith, conflicting, h))
    | inr other ↦ elim (Bool-cases (status == 200)) [
      | inl fine ↦
          let fine' : status ≡ 200 = ground arith in
          subst (λ s. IsToolResult (answered s body) output) (sym fine')
            (check_body-IsToolResult body (ground (arith, other, fine, h)))
      | inr not_fine ↦ absurd (ground (arith, other, not_fine, h))
    ]
  ]

  -- An output of the step fake_tool is the whole body of a response with the status 200, valid
  -- JSON of at most 1 MiB.
  pub execute_fake_tool-IsToolResult :
      (env : Environment) (a : StepAttempt) {output : RawMessage}
      → execute_fake_tool lib env a ≡ ok output
      → IsToolResult (env.exchange a.idempotency_key a.resolved_input) output
  unfolding execute_fake_tool
  execute_fake_tool-IsToolResult env a h =
      let (u, configured, h) = >>=-eq-ok (guard (not (str_eq env.tool_url "")) _) _ h in
      let (u, valid, h) = >>=-eq-ok (guard env.url_is_valid _) _ h in
      receive-IsToolResult (env.exchange a.idempotency_key a.resolved_input) h

  -- The class of a failure of the fake tool, by what became of the exchange.
  abbrev pub exchange_class : Exchange → FailureClass
  exchange_class (not_sent deadline text) = FailureClass.temporary
  exchange_class (not_read deadline text) = FailureClass.temporary
  exchange_class (answered status body) =
      if (status == 408) || (status == 429) || leb 500 status
      then FailureClass.temporary
      else FailureClass.permanent

  check_body-class :
      (body : RawMessage) {e : ExecuteError}
      → check_body lib body ≡ err e
      → classify e ≡ FailureClass.permanent
  unfolding check_body classify
  check_body-class body h = ground arith

  -- The failure of an exchange with the fake tool is temporary if the request or the reading of
  -- its body failed, or the status is 408, 429 or at least 500, and permanent otherwise.
  pub receive-class :
      (answer : Exchange) {e : ExecuteError}
      → receive lib answer ≡ err e
      → classify e ≡ exchange_class answer
  unfolding receive classify
  receive-class (not_sent deadline text) h = ground arith
  receive-class (not_read deadline text) h = ground arith
  receive-class (answered status body) h = elim (Bool-cases (status == 409)) [
    | inl conflicting ↦
        let same : status ≡ 409 = ground arith in
        let h' = rw conflicting at h in ground (arith, same, h')
    | inr other ↦ elim (Bool-cases (status == 200)) [
      | inl fine ↦
          let same : status ≡ 200 = ground arith in
          let h' = rw (other, fine) at h in
          check_body-class (limit_body lib body) h' ∙ ground (arith, same)
      | inr not_fine ↦ ground (arith, other, not_fine, h)
    ]
  ]

  -- The flaky step.
  abbrev failures_of : Option ℤ → ℕ
  failures_of none = 0
  failures_of (some (pos n)) = n
  failures_of (some (negsuc n)) = 0

  -- What an attempt does with an input: it fails for good if the input says so, else it fails for a
  -- time as often as the input says, and then gives the value.
  pub record IsControlled (input : Json) (a : StepAttempt) : Type 0 where
    pub controls : FlakyInput
    pub value : Json
    pub decoded : decode_flaky lib input ≡ some controls
    pub valued : controls.value ≡ some value
    pub exclusive : (controls.permanent ≡ false) ⊎ (failures_of controls.temporary_failures ≡ 0)
    pub result : execute_flaky lib a ≡ (
        if controls.permanent
        then err (failed FailureClass.permanent "controlled_permanent_failure")
        else if leb a.attempt (failures_of controls.temporary_failures)
        then err (failed FailureClass.temporary "controlled_temporary_failure")
        else ok (value_output lib value))

  within-failures_of :
      (attempt : ℕ) (n : Option ℤ)
      → 1 ≤ attempt
      → within_failures attempt n ≡ leb attempt (failures_of n)
  within-failures_of attempt none h = refl
  within-failures_of attempt (some (pos n)) h = refl
  within-failures_of attempt (some (negsuc n)) h = ground arith

  nonzero-failures_of : (n : Option ℤ) → is_nonzero n ≡ false → failures_of n ≡ 0
  nonzero-failures_of none h = refl
  nonzero-failures_of (some (pos n)) h = ground arith
  nonzero-failures_of (some (negsuc n)) h = refl

  permanent-exclusive :
      (b : Bool) (n : Option ℤ) → (b && is_nonzero n) ≡ false → (b ≡ false) ⊎ (failures_of n ≡ 0)
  permanent-exclusive true n h = inr (nonzero-failures_of n h)
  permanent-exclusive false n h = inl refl

  -- On an input that validateFlaky accepts, an attempt of the step flaky always fails for good if
  -- the input says so, and otherwise fails for a time up to the given number of attempts and
  -- gives the value after them; the input does not ask for both.
  pub validate_flaky-IsControlled :
      (input : Json) (a : StepAttempt)
      → validate_flaky lib input ≡ ok tt
      → a.resolved_input ≡ some input
      → 1 ≤ a.attempt
      → IsControlled input a
  unfolding validate_flaky execute_flaky
  validate_flaky-IsControlled input a h given started =
      let (d, decoded, h) = >>=-eq-ok (or_fail (decode_flaky lib input) _) _ h in
      let decoded = or_fail-eq-ok (decode_flaky lib input) _ decoded in
      let (u, positive, h) = >>=-eq-ok (guard (not (is_negative d.temporary_failures)) _) _ h in
      let (u, exclusive, h) =
        >>=-eq-ok (guard (not (d.permanent && is_nonzero d.temporary_failures)) _) _ h in
      let exclusive =
        guard-eq-ok (not (d.permanent && is_nonzero d.temporary_failures)) _ exclusive in
      let (v, value, h) = >>=-eq-ok (or_fail d.value _) _ h in
      let value = or_fail-eq-ok d.value _ value in
      record {
        controls = d;
        value = v;
        decoded = decoded;
        valued = value;
        exclusive =
            permanent-exclusive d.permanent d.temporary_failures (ground (arith, exclusive));
        result = ground (
          arith,
          given,
          decoded,
          value,
          within-failures_of a.attempt d.temporary_failures started,
        );
      }
