-- ===== src/Executor/Steps.antt =====
-- The implementations of internal/executor/executor.go: echo, sleep and flaky, and their table.
use run_state.Executor.Tool.{validate_fake_tool, execute_fake_tool}
use run_state.Executor.Types.{
  ExecuteError, plain, failed, ContextState, live, deadline_passed, Environment, cancelled,
}
use run_state.Base.{
  ◌>>◌, guard, or_fail, ◌>>=◌, str_eq, ℕ, String, Option, none, some, Bool, true, false, not, ◌&&◌,
  if◌then◌else◌, leb, ltb, ◌==◌, Result, ok, err,
}
use run_state.Task.Json.{get_field, Fields, RawMessage, Json, object, string, field, end}
use run_state.Store.Types.{FailureClass, StepAttempt}
use run_state.Executor.Decode.{
  Library, pos, negsuc, ℤ, set_string, set_raw, set_int, set_bool, fold_field, as_fields,
}

-- The values of the table `implementations`.
pub data Implementation : Type 0 where
  echo sleep flaky fake_tool : Implementation

-- `flakyInput`
pub record FlakyInput : Type 0 where
  pub temporary_failures : Option ℤ
  pub permanent : Bool
  pub value : Option Json

abbrev pub flaky_input : Option (Option ℤ) → Option Bool → Option (Option Json) → Option FlakyInput
flaky_input (some failures) (some is_permanent) (some value) =
    some (record { temporary_failures = failures; permanent = is_permanent; value = value })
flaky_input _ _ _ = none

-- `input.TemporaryFailures != nil && *input.TemporaryFailures < 0`
abbrev pub is_negative : Option ℤ → Bool
is_negative (some (negsuc n)) = true
is_negative _ = false

-- `input.TemporaryFailures != nil && *input.TemporaryFailures != 0`
abbrev pub is_nonzero : Option ℤ → Bool
is_nonzero none = false
is_nonzero (some (pos n)) = not (n == 0)
is_nonzero (some (negsuc n)) = true

-- `attempt.Attempt <= temporaryFailures`, which is 0 where it is not given.
abbrev pub within_failures : ℕ → Option ℤ → Bool
within_failures attempt none = leb attempt 0
within_failures attempt (some (pos n)) = leb attempt n
within_failures attempt (some (negsuc n)) = false

module _ (lib : Library) where
  -- The struct `{Value json.RawMessage}` and its likes: the value, where there is one.
  abbrev pub value_of : Option Fields → Option Json
  value_of none = none
  value_of (some fields) = elim (fold_field lib.same_key set_raw "value" fields none) [
    | none ↦ none
    | some value ↦ value
  ]

  -- `json.Marshal(map[string]json.RawMessage{"value": ...})`
  abbrev pub value_output : Json → RawMessage
  value_output v = lib.marshal (object (field "value" v end))

  abbrev pub is_positive : ℤ → Bool
  is_positive (pos n) = ltb 0 n
  is_positive (negsuc n) = false

  unfoldable pub validate_echo : Json → Result String (Unit {0})
  validate_echo input = do
    fields ← or_fail (as_fields input) "echo input must be a JSON object"
    or_fail (get_field "value" fields) "echo input requires value"
    ok tt

  unfoldable pub execute_echo : StepAttempt → Result ExecuteError RawMessage
  execute_echo attempt = do
    input ← or_fail attempt.resolved_input (plain "invalid echo input")
    value ← or_fail (value_of (as_fields input)) (plain "invalid echo input")
    ok (value_output value)

  -- `json.Unmarshal(object["duration"], &duration)`: no bytes are no document, null is the empty text.
  unfoldable pub duration_text : Option Json → Option String
  duration_text none = none
  duration_text (some v) = set_string "" v

  unfoldable pub validate_sleep : Json → Result String (Unit {0})
  validate_sleep input = do
    fields ← or_fail (as_fields input) "sleep input must be a JSON object"
    text ←
        or_fail (duration_text (get_field "duration" fields))
          "sleep input requires a duration string"
    duration ← or_fail (lib.parse_duration text) "sleep duration must be positive"
    guard (is_positive duration) "sleep duration must be positive"

  abbrev pub context_error : ContextState → Option ExecuteError
  context_error live = none
  context_error deadline_passed =
      some (record { failure = none; deadline_exceeded = true; text = "context deadline exceeded" })
  context_error cancelled = some (plain "context canceled")

  -- The `select` on the context and the timer.
  abbrev pub await_timer : ContextState → Result ExecuteError (Unit {0})
  await_timer state = elim (context_error state) [ none ↦ ok tt | some e ↦ err e ]

  unfoldable pub execute_sleep : Environment → StepAttempt → Result ExecuteError RawMessage
  execute_sleep env attempt = do
    input ← or_fail attempt.resolved_input (plain "invalid sleep input")
    fields ← or_fail (as_fields input) (plain "invalid sleep input")
    text ←
        or_fail (fold_field lib.same_key set_string "duration" fields "")
          (plain "invalid sleep input")
    duration ← or_fail (lib.parse_duration text) (plain "invalid sleep duration")
    guard (is_positive duration) (plain "invalid sleep duration")
    await_timer env.waited
    ok (lib.marshal (object (field "slept" (string text) end)))

  -- `json.Unmarshal(input, &definition)`
  unfoldable pub decode_flaky : Json → Option FlakyInput
  decode_flaky input = elim (as_fields input) [
    | none ↦ none
    | some fields ↦
        flaky_input (fold_field lib.same_key (set_int lib) "temporary_failures" fields none)
          (fold_field lib.same_key set_bool "permanent" fields false)
          (fold_field lib.same_key set_raw "value" fields none)
  ]

  unfoldable pub validate_flaky : Json → Result String (Unit {0})
  validate_flaky input = do
    definition ← or_fail (decode_flaky input) "flaky input must be a JSON object"
    guard (not (is_negative definition.temporary_failures))
        "flaky temporary_failures must be non-negative"
    guard (not (definition.permanent && is_nonzero definition.temporary_failures))
        "flaky input cannot combine permanent and temporary failures"
    or_fail definition.value "flaky input requires value"
    ok tt

  unfoldable pub execute_flaky : StepAttempt → Result ExecuteError RawMessage
  execute_flaky attempt = do
    document ← or_fail attempt.resolved_input (failed FailureClass.permanent "invalid flaky input")
    input ← or_fail (decode_flaky document) (failed FailureClass.permanent "invalid flaky input")
    value ← or_fail input.value (failed FailureClass.permanent "invalid flaky input")
    guard (not input.permanent) (failed FailureClass.permanent "controlled_permanent_failure")
    guard (not (within_failures attempt.attempt input.temporary_failures))
        (failed FailureClass.temporary "controlled_temporary_failure")
    ok (value_output value)

  abbrev pub validate : Implementation → Json → Result String (Unit {0})
  validate echo input = validate_echo input
  validate sleep input = validate_sleep input
  validate flaky input = validate_flaky input
  validate fake_tool input = validate_fake_tool lib input

  abbrev pub execute_step :
      Environment → Implementation → StepAttempt → Result ExecuteError RawMessage
  execute_step env echo attempt = execute_echo attempt
  execute_step env sleep attempt = execute_sleep env attempt
  execute_step env flaky attempt = execute_flaky attempt
  execute_step env fake_tool attempt = execute_fake_tool lib env attempt

-- The table `implementations`.
unfoldable pub implementation_of : String → Option Implementation
implementation_of name =
    if str_eq name "echo"
    then some echo
    else if str_eq name "sleep"
    then some sleep
    else if str_eq name "flaky"
    then some flaky
    else if str_eq name "fake_tool"
    then some fake_tool
    else none
