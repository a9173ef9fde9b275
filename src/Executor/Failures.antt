-- ===== src/Executor/Failures.antt =====
-- The texts of the failures of a step (internal/executor/executor.go), by which FinishStep tells them
-- from a success.
use run_state.Executor.Tool.{execute_fake_tool, check_body, receive, limit_body}
use run_state.Executor.Types.{
  live, deadline_passed, answered, ExecuteError, Exchange, Environment, ContextState,
  max_json_bytes, not_sent, not_read,
}
use Prim.Native.String
use Prim.Native.String.{count}
use text.Mathlib.TextLemmas.{length-append as count-append}
use run_state.Task.Json.{RawMessage}
use run_state.Executor.Decode.{set_string, fold_field, as_fields, Library}
use run_state.Store.Types.{StepAttempt}
use run_state.Base.{
  eq_iff, arith, ap, String, Result, Option, Bool-cases, Bool, ltb, ◌≤◌, ◌≡◌, ◌>>=◌, ◌==◌, true,
  str_eq, some, refl, or_fail, ok, not, none, inr, inl, guard, false, err,
}
use run_state.Executor.Steps.{
  Implementation, echo, sleep, flaky, fake_tool, within_failures, value_of, is_positive,
  execute_step, execute_sleep, execute_flaky, execute_echo, decode_flaky, await_timer,
}

-- A failure with a text.
abbrev pub HasText : ExecuteError → Type 0
HasText e = str_eq e.text "" ≡ false

abbrev pub FailsWithText : {A : Type 0} → Result ExecuteError A → Type 0
FailsWithText (ok a) = Unit {0}
FailsWithText (err e) = HasText e

pub prefix-ne_empty :
    (front rest : String) → 1 ≤ count front → str_eq (String.◌++◌ front rest) "" ≡ false
prefix-ne_empty front rest h = elim (Bool-cases (str_eq (String.◌++◌ front rest) "")) [
  | inr e ↦ e
  | inl e ↦
      let same : String.◌++◌ front rest ≡ "" =
        ground (arith, e, eq_iff (String.◌++◌ front rest) "") in
      let none_left : count (String.◌++◌ front rest) ≡ 0 = ap count same in
      absurd (omega (arith, h, none_left, count-append front rest))
]

bind-FailsWithText :
    {A B : Type 0} (m : Result ExecuteError A) (k : A → Result ExecuteError B)
    → FailsWithText m
    → ((a : A) → FailsWithText (k a))
    → FailsWithText (m >>= k)
bind-FailsWithText (ok a) k first rest = rest a
bind-FailsWithText (err e) k first rest = first

or_fail-FailsWithText :
    {A : Type 0} (o : Option A) (e : ExecuteError) → HasText e → FailsWithText (or_fail o e)
or_fail-FailsWithText none e h = h
or_fail-FailsWithText (some a) e h = tt

guard-FailsWithText : (b : Bool) (e : ExecuteError) → HasText e → FailsWithText (guard b e)
guard-FailsWithText false e h = h
guard-FailsWithText true e h = tt

module _ (lib : Library) where
  execute_echo-FailsWithText : (a : StepAttempt) → FailsWithText (execute_echo lib a)
  unfolding execute_echo
  execute_echo-FailsWithText a =
      bind-FailsWithText _ _ (or_fail-FailsWithText a.resolved_input _ refl) (λ input.
        bind-FailsWithText _ _ (or_fail-FailsWithText (value_of lib (as_fields input)) _ refl)
          (λ value. tt))

  await_timer-FailsWithText : (state : ContextState) → FailsWithText (await_timer lib state)
  await_timer-FailsWithText live = tt
  await_timer-FailsWithText deadline_passed = refl
  await_timer-FailsWithText ContextState.cancelled = refl

  execute_sleep-FailsWithText :
      (env : Environment) (a : StepAttempt) → FailsWithText (execute_sleep lib env a)
  unfolding execute_sleep
  execute_sleep-FailsWithText env a =
      bind-FailsWithText _ _ (or_fail-FailsWithText a.resolved_input _ refl) (λ input.
        bind-FailsWithText _ _ (or_fail-FailsWithText (as_fields input) _ refl) (λ fields.
          bind-FailsWithText _ _
            (or_fail-FailsWithText (fold_field lib.same_key set_string "duration" fields "") _ refl)
            (λ text.
              bind-FailsWithText _ _ (or_fail-FailsWithText (lib.parse_duration text) _ refl)
                (λ duration.
                  bind-FailsWithText _ _ (guard-FailsWithText (is_positive lib duration) _ refl)
                    (λ u.
                      bind-FailsWithText _ _ (await_timer-FailsWithText env.waited) (λ v. tt))))))

  execute_flaky-FailsWithText : (a : StepAttempt) → FailsWithText (execute_flaky lib a)
  unfolding execute_flaky
  execute_flaky-FailsWithText a =
      bind-FailsWithText _ _ (or_fail-FailsWithText a.resolved_input _ refl) (λ document.
        bind-FailsWithText _ _ (or_fail-FailsWithText (decode_flaky lib document) _ refl) (λ input.
          bind-FailsWithText _ _ (or_fail-FailsWithText input.value _ refl) (λ value.
            bind-FailsWithText _ _ (guard-FailsWithText (not input.permanent) _ refl) (λ u.
              bind-FailsWithText _ _
                (guard-FailsWithText (not (within_failures a.attempt input.temporary_failures)) _
                  refl)
                (λ v. tt)))))

  check_body-FailsWithText : (body : RawMessage) → FailsWithText (check_body lib body)
  unfolding check_body
  check_body-FailsWithText body =
      bind-FailsWithText _ _ (or_fail-FailsWithText body.document _ refl) (λ document.
        bind-FailsWithText _ _ (guard-FailsWithText (not (ltb max_json_bytes body.size)) _ refl)
          (λ u. tt))

  receive-FailsWithText : (answer : Exchange) → FailsWithText (receive lib answer)
  unfolding receive
  receive-FailsWithText (not_sent deadline text) =
      prefix-ne_empty "fake tool request: " text (omega arith)
  receive-FailsWithText (not_read deadline text) =
      prefix-ne_empty "read fake tool response: " text (omega arith)
  receive-FailsWithText (answered status body) = elim (Bool-cases (status == 409)) [
    | inl conflicting ↦ rw conflicting refl
    | inr other ↦ elim (Bool-cases (status == 200)) [
      | inl fine ↦ rw (other, fine) (check_body-FailsWithText (limit_body lib body))
      | inr not_fine ↦
          rw (other, not_fine)
            (prefix-ne_empty "fake tool status " (lib.decimal status) (omega arith))
    ]
  ]

  execute_fake_tool-FailsWithText :
      (env : Environment) (a : StepAttempt) → FailsWithText (execute_fake_tool lib env a)
  unfolding execute_fake_tool
  execute_fake_tool-FailsWithText env a =
      bind-FailsWithText _ _ (guard-FailsWithText (not (str_eq env.tool_url "")) _ refl) (λ u.
        bind-FailsWithText _ _ (guard-FailsWithText env.url_is_valid _ refl)
          (λ v. receive-FailsWithText (env.exchange a.idempotency_key a.resolved_input)))

  pub execute_step-FailsWithText :
      (env : Environment) (i : Implementation) (a : StepAttempt)
      → FailsWithText (execute_step lib env i a)
  execute_step-FailsWithText env echo a = execute_echo-FailsWithText a
  execute_step-FailsWithText env sleep a = execute_sleep-FailsWithText env a
  execute_step-FailsWithText env flaky a = execute_flaky-FailsWithText a
  execute_step-FailsWithText env fake_tool a = execute_fake_tool-FailsWithText env a
