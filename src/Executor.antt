-- ===== src/Executor.antt =====
-- The step executor (internal/executor/executor.go): what runs a step that is not an approval, the
-- validation of its input, and the class of its failures. `Types` holds the
-- failures and what a step meets outside, `Steps` and `Tool` the implementations.
pub mod Types
pub mod Decode
pub mod Tool
pub mod Steps
pub mod Laws
pub mod Failures
use run_state.Executor.Types.{ExecuteError, Environment, plain}
use Prim.Native.String
use run_state.Base.{◌>>=◌, ◌++◌, ok, ◌>>◌, or_fail, String, Result}
use run_state.Task.Json.{RawMessage, Json}
use run_state.Executor.Steps.{execute_step, validate, implementation_of}
use run_state.Executor.Decode.{Library}
use run_state.Store.Types.{StepAttempt}
use run_state.Store.Finish.{empty_message}

abbrev unknown_type : Library → String → String
unknown_type lib step_type = String.◌++◌ "unknown step type " (lib.quote step_type)

-- `ValidateDefinition`
unfoldable pub validate_definition : Library → String → Json → Result String (Unit {0})
validate_definition lib step_type input = do
  implementation ← or_fail (implementation_of step_type) (unknown_type lib step_type)
  validate lib implementation input

-- `Execute`. No implementation returns a checkpoint.
unfoldable pub execute :
    Library → Environment → StepAttempt → Result ExecuteError (RawMessage × RawMessage)
execute lib env attempt = do
  implementation ←
      or_fail (implementation_of attempt.step_type) (plain (unknown_type lib attempt.step_type))
  output ← execute_step lib env implementation attempt
  ok (output, empty_message)
