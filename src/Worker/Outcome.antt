-- ===== src/Worker/Outcome.antt =====
-- What FinishStep makes of the outcomes of an execution (internal/worker/worker.go,
-- internal/executor/executor.go).
use run_state.Executor.Tool.{execute_fake_tool}
use run_state.Executor.Types.{answered, plain, ExecuteError, Environment, max_json_bytes}
use run_state.Task.Json.{RawMessage, Json, string, end, field, object}
use run_state.Executor.Decode.{set_string, Library, fold_field, as_fields}
use run_state.Store.Types.{StepAttempt, StepOutcome, LeaseToken, Clock}
use run_state.Executor.Failures.{
  prefix-ne_empty, FailsWithText, execute_step-FailsWithText, HasText,
}
use run_state.Base.{
  ◌∙◌, false, err, arith, ◌==◌, if◌then◌else◌, ap, String, ◌⊎◌, Result, Option-cases, Option, ℕ,
  Bool-cases, Bool, ltb, ◌≤◌, ◌≡◌, ◌>>=◌, true, str_eq, refl, or_fail, ok, not, inr, inl, guard,
}
use run_state.Executor.Steps.{
  execute_echo, decode_flaky, await_timer, Implementation, echo, sleep, flaky, fake_tool,
  within_failures, value_of, is_positive, implementation_of, execute_step, execute_sleep,
  execute_flaky,
}
use run_state.Executor.{execute}
use run_state.Executor.Laws.{execute_fake_tool-IsToolResult}
use run_state.Store.Finish.{limit_outcome, finish_step, empty_message, check_outcome, is_valid}
use run_state.Store.Rows.{TaskRows}
use run_state.Store.Lock.{validate_ownership, lock_task}
use run_state.Worker.Loop.{outcome_of}
use run_state.Store.Start.{start_step}
use run_state.Store.Progress.{start_step-finish_step}

module _ (lib : Library) where
  -- An output that FinishStep takes.
  GivesDocument : Result ExecuteError RawMessage → Type 0
  GivesDocument (ok output) = (is_valid output.document ≡ true) × (1 ≤ output.size)
  GivesDocument (err e) = Unit {0}

  bind-GivesDocument :
      {A : Type 0} (m : Result ExecuteError A) (k : A → Result ExecuteError RawMessage)
      → ((a : A) → GivesDocument (k a))
      → GivesDocument (m >>= k)
  unfolding GivesDocument
  bind-GivesDocument (ok a) k rest = rest a
  bind-GivesDocument (err e) k rest = tt

  module _ (env : Environment) (marshals : (v : Json) → is_valid (lib.marshal v).document ≡ true)
      (some_bytes : (v : Json) → 1 ≤ (lib.marshal v).size)
      (nonempty : (key : String) (payload : Option Json) (status : ℕ) (body : RawMessage)
        → env.exchange key payload ≡ answered status body
        → is_valid body.document ≡ true
        → 1 ≤ body.size) where
    fake_tool-GivesDocument :
        (a : StepAttempt) (r : Result ExecuteError RawMessage)
        → execute_fake_tool lib env a ≡ r
        → GivesDocument r
    unfolding GivesDocument
    fake_tool-GivesDocument a (err e) h = tt
    fake_tool-GivesDocument a (ok output) h =
        let p = execute_fake_tool-IsToolResult lib env a h in
        let valid : is_valid output.document ≡ true = ap is_valid p.parsed in
        (valid, nonempty a.idempotency_key a.resolved_input 200 output p.body valid)

    marshal-GivesDocument : (v : Json) → GivesDocument (ok (lib.marshal v))
    unfolding GivesDocument
    marshal-GivesDocument v = (marshals v, some_bytes v)

    execute_step-GivesDocument :
        (i : Implementation) (a : StepAttempt) → GivesDocument (execute_step lib env i a)
    unfolding execute_echo execute_sleep execute_flaky
    execute_step-GivesDocument echo a = bind-GivesDocument (or_fail a.resolved_input _) _ (λ input.
        bind-GivesDocument (or_fail (value_of lib (as_fields input)) _) _
          (λ value. marshal-GivesDocument (object (field "value" value end))))
    execute_step-GivesDocument sleep a = bind-GivesDocument (or_fail a.resolved_input _) _ (λ input.
        bind-GivesDocument (or_fail (as_fields input) _) _ (λ fields.
          bind-GivesDocument (or_fail (fold_field lib.same_key set_string "duration" fields "") _) _
            (λ text. bind-GivesDocument (or_fail (lib.parse_duration text) _) _ (λ duration.
              bind-GivesDocument (guard (is_positive lib duration) _) _ (λ u.
                bind-GivesDocument (await_timer lib env.waited) _
                  (λ v. marshal-GivesDocument (object (field "slept" (string text) end))))))))
    execute_step-GivesDocument flaky a =
        bind-GivesDocument (or_fail a.resolved_input _) _ (λ document.
          bind-GivesDocument (or_fail (decode_flaky lib document) _) _ (λ input.
            bind-GivesDocument (or_fail input.value _) _ (λ value.
              bind-GivesDocument (guard (not input.permanent) _) _ (λ u.
                bind-GivesDocument
                  (guard (not (within_failures a.attempt input.temporary_failures)) _) _
                  (λ v. marshal-GivesDocument (object (field "value" value end)))))))
    execute_step-GivesDocument fake_tool a = fake_tool-GivesDocument a _ refl

    -- What FinishStep asks of an outcome.
    abbrev IsFinishable : StepOutcome → Type 0
    IsFinishable o =
        (str_eq (limit_outcome o).error "" ≡ false) ⊎ (check_outcome (limit_outcome o) ≡ ok tt)

    step_timeout_text :
        (late : Bool) (text : String)
        → str_eq text "" ≡ false
        → str_eq (if late then "step_timeout" else text) "" ≡ false
    step_timeout_text true text h = refl
    step_timeout_text false text h = h

    failed-IsFinishable : (e : ExecuteError) → HasText e → IsFinishable (outcome_of (err e))
    unfolding limit_outcome
    failed-IsFinishable e h = inl (step_timeout_text e.deadline_exceeded e.text h)

    check_outcome-small :
        (output : RawMessage)
        → is_valid output.document ≡ true
        → 1 ≤ output.size
        → check_outcome (outcome_of (ok (output, empty_message))) ≡ ok tt
    unfolding check_outcome
    check_outcome-small output valid bytes =
        let some_size : (output.size == 0) ≡ false = ground (arith, bytes) in
        rw some_size (rw valid refl)

    succeeded-IsFinishable :
        (output : RawMessage)
        → GivesDocument (ok output)
        → IsFinishable (outcome_of (ok (output, empty_message)))
    unfolding limit_outcome check_outcome GivesDocument
    succeeded-IsFinishable output (valid, bytes) =
        elim (Bool-cases (ltb max_json_bytes output.size)) [
          | inl large ↦ inl (rw (large, limit_outcome) refl)
          | inr small ↦
              let fits : limit_outcome (outcome_of (ok (output, empty_message)))
                  ≡ outcome_of (ok (output, empty_message)) =
                rw (small, limit_outcome) refl in
              let checked : check_outcome (outcome_of (ok (output, empty_message))) ≡ ok tt =
                check_outcome-small output valid bytes in
              inr (ap check_outcome fits ∙ checked)
        ]

    result-IsFinishable :
        (r : Result ExecuteError RawMessage)
        → FailsWithText r
        → GivesDocument r
        → IsFinishable (outcome_of (r >>= λ output. ok (output, empty_message)))
    result-IsFinishable (ok output) text document = succeeded-IsFinishable output document
    result-IsFinishable (err e) text document = failed-IsFinishable e text

    execute-IsFinishable : (a : StepAttempt) → IsFinishable (outcome_of (execute lib env a))
    unfolding execute
    execute-IsFinishable a = elim (Option-cases (implementation_of a.step_type)) [
      | inl unknown ↦
          rw (unknown, execute)
            (failed-IsFinishable (plain _)
              (prefix-ne_empty "unknown step type " (lib.quote a.step_type) (omega arith)))
      | inr (i, known) ↦
          rw (known, execute)
            (result-IsFinishable (execute_step lib env i a) (execute_step-FailsWithText lib env i a)
              (execute_step-GivesDocument i a))
    ]

    -- FinishStep takes what the execution of a started step gives, on the rows that StartStep
    -- left, while the lease is active, the task is not cancelled and its deadline has not passed;
    -- where json.Marshal gives nonempty valid documents and no valid response of the fake tool is
    -- empty.
    pub execute-finish_step :
        (c c' : Clock) (lease : LeaseToken) (id : String) (r : TaskRows) {a : StepAttempt}
        {r' : TaskRows}
        → start_step c lease id r ≡ ok (a, r')
        → validate_ownership (lock_task c' r'.task) lease ≡ ok tt
        → (r'' : TaskRows) × (finish_step c' lease a (outcome_of (execute lib env a)) r'
            ≡ ok (tt, r''))
    execute-finish_step c c' lease id r {a} started owned =
        start_step-finish_step c c' lease id (outcome_of (execute lib env a)) r started owned
          (execute-IsFinishable a)
