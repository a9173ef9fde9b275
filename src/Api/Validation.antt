-- ===== src/Api/Validation.antt =====
-- `validateDefinition` of internal/api/handler.go: the checks of a request for a new task, and the
-- definition that it gives.
use Prim.Native.String
use run_state.Base.{
  ltb, ◌∷◌, ◌||◌, ◌>>◌, ◌==◌, ℕ, suc, str_eq, some, or_fail, ok, not, none, length, if◌then◌else◌,
  guard, err, [], String, Result, Option, List, ◌>>=◌,
}
use run_state.Task.Resolve.{
  ResolveError, extra_fields, not_a_string, first_step, unavailable_previous,
  unavailable_checkpoint, missing_document, unknown_reference, validate_input_references,
}
use run_state.Task.Model.{step_type_approval, StepDefinition, Definition}
use run_state.Task.Json.{RawMessage, Json}
use run_state.Executor.Decode.{negsuc, pos, ℤ, then_with, set_string, Library}
use run_state.Executor.{validate_definition}

abbrev pub max_document_bytes : ℕ
max_document_bytes = 1048576

-- `createStepRequest`
pub record CreateStepRequest : Type 0 where
  pub step_type : String
  pub input : RawMessage
  pub timeout_seconds : Option ℤ
  pub max_attempts : Option ℤ

-- `createTaskRequest`
pub record CreateTaskRequest : Type 0 where
  pub tenant_id : Option String
  pub run_at : RawMessage
  pub task_timeout_seconds : Option ℤ
  pub steps : List CreateStepRequest

-- A number of a request, or its default, where it is positive.
abbrev pub positive : ℕ → Option ℤ → Option ℕ
positive default none = some default
positive default (some (pos n)) = if ltb 0 n then some n else none
positive default (some (negsuc n)) = none

-- `len(step.Input) == 0 || len(step.Input) > maxDocumentBytes || !json.Valid(step.Input)`
abbrev pub input_document : RawMessage → Option Json
input_document input =
    if (input.size == 0) || ltb max_document_bytes input.size then none else input.document

abbrev pub run_at_problem : String
run_at_problem = "run_at must be an RFC3339 timestamp with an explicit timezone"

module _ (lib : Library) where
  -- The text of an error of internal/task/resolve.go.
  abbrev pub resolve_text : ResolveError → String
  resolve_text extra_fields = "$ref object cannot contain other fields"
  resolve_text not_a_string = "$ref must be a string"
  resolve_text first_step = "first step cannot reference previous_output"
  resolve_text unavailable_previous = "previous_output is unavailable"
  resolve_text unavailable_checkpoint = "checkpoint is unavailable"
  resolve_text missing_document = "decode configured input: unexpected end of JSON input"
  resolve_text (unknown_reference name) = String.◌++◌ "unknown input reference " (lib.quote name)

  -- `fmt.Errorf("step %d: ...", index, ...)`
  abbrev pub at_step : ℕ → String → String
  at_step index problem =
      String.◌++◌ "step " (String.◌++◌ (lib.decimal index) (String.◌++◌ ": " problem))

  abbrev pub within_step : {A E : Type 0} → ℕ → (E → String) → Result E A → Result String A
  within_step index explain (ok a) = ok a
  within_step index explain (err e) = err (at_step index (explain e))

  -- A step that is not an approval has an implementation, which accepts its input.
  abbrev pub check_type : ℕ → String → Json → Result String (Unit {0})
  check_type index step_type input =
      if str_eq step_type step_type_approval
      then ok tt
      else within_step index (λ text. text) (validate_definition lib step_type input)

  -- The body of the loop over the steps.
  unfoldable pub validate_step : ℕ → CreateStepRequest → Result String StepDefinition
  validate_step index step = do
    input ←
        or_fail (input_document step.input)
          (at_step index "input must be valid JSON no larger than 1 MiB")
    timeout_seconds ←
        or_fail (positive 30 step.timeout_seconds)
          (at_step index "timeout_seconds must be positive")
    max_attempts ←
        or_fail (positive 3 step.max_attempts) (at_step index "max_attempts must be positive")
    check_type index step.step_type input
    within_step index resolve_text (validate_input_references input (ltb 0 index))
    ok (record {
      step_type = step.step_type;
      input = input;
      timeout_seconds = timeout_seconds;
      max_attempts = max_attempts;
    })

  -- The loop over the steps, from the one at an index.
  unfoldable pub validate_steps : ℕ → List CreateStepRequest → Result String (List StepDefinition)
  validate_steps index [] = ok []
  validate_steps index (step ∷ rest) = do
    definition ← validate_step index step
    definitions ← validate_steps (suc index) rest
    ok (definition ∷ definitions)

  module _ (parse_time : String → Option ℕ) where
    abbrev pub parse_run_at : RawMessage → Result String (Option ℕ)
    parse_run_at run_at =
        if run_at.size == 0
        then ok none
        else or_fail (then_with run_at.document (set_string "")) run_at_problem >>= λ value.
            or_fail (parse_time value) run_at_problem >>= λ parsed. ok (some parsed)

    -- `validateDefinition`
    unfoldable pub validate_request : CreateTaskRequest → Result String Definition
    validate_request input = do
      run_at ← parse_run_at input.run_at
      guard (not ((length input.steps == 0) || ltb 100 (length input.steps)))
          "steps must contain between 1 and 100 items"
      task_timeout_seconds ←
          or_fail (positive 3600 input.task_timeout_seconds) "task_timeout_seconds must be positive"
      steps ← validate_steps 0 input.steps
      ok (record {
        tenant_id = input.tenant_id;
        run_at = run_at;
        task_timeout_seconds = task_timeout_seconds;
        steps = steps;
      })
