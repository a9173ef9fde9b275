-- ===== src/Executor/Tool.antt =====
-- The implementation fake_tool of internal/executor/executor.go, which calls the fake tool.
use Prim.Native.String
use run_state.Base.{
  leb, ltb, ◌>>=◌, ◌||◌, ◌>>◌, ◌==◌, ◌+◌, ℕ, str_eq, some, or_fail, ok, not, none, if◌then◌else◌,
  guard, false, err, String, Result,
}
use run_state.Executor.Types.{
  answered, ExecuteError, Exchange, Environment, failed, max_json_bytes, not_sent, not_read,
}
use run_state.Store.Types.{FailureClass, StepAttempt}
use run_state.Task.Json.{RawMessage, Json}
use run_state.Executor.Decode.{set_raw, Library, set_bool, fold_field, as_fields}

module _ (lib : Library) where
  unfoldable pub validate_fake_tool : Json → Result String (Unit {0})
  validate_fake_tool input = do
    fields ← or_fail (as_fields input) "fake_tool input requires value"
    value ←
        or_fail (fold_field lib.same_key set_raw "value" fields none)
          "fake_tool input requires value"
    or_fail (fold_field lib.same_key set_bool "block_first_response" fields false)
        "fake_tool input requires value"
    or_fail value "fake_tool input requires value"
    ok tt

  -- `io.ReadAll(io.LimitReader(response.Body, maxJSONBytes+1))`: a longer body is cut.
  abbrev pub limit_body : RawMessage → RawMessage
  limit_body body =
      if ltb (max_json_bytes + 1) body.size
      then record { size = max_json_bytes + 1; document = none }
      else body

  -- The class of a status that is neither 200 nor 409.
  abbrev pub status_class : ℕ → FailureClass
  status_class status =
      if (status == 408) || (status == 429) || leb 500 status
      then FailureClass.temporary
      else FailureClass.permanent

  unfoldable pub check_body : RawMessage → Result ExecuteError RawMessage
  check_body body = do
    or_fail body.document (failed FailureClass.permanent "invalid fake tool result")
    guard (not (ltb max_json_bytes body.size))
        (failed FailureClass.permanent "invalid fake tool result")
    ok body

  -- What follows `client.Do`.
  unfoldable pub receive : Exchange → Result ExecuteError RawMessage
  receive (not_sent deadline text) = err (record {
    failure = some FailureClass.temporary;
    deadline_exceeded = deadline;
    text = String.◌++◌ "fake tool request: " text;
  })
  receive (not_read deadline text) = err (record {
    failure = some FailureClass.temporary;
    deadline_exceeded = deadline;
    text = String.◌++◌ "read fake tool response: " text;
  })
  receive (answered status body) =
      if status == 409
      then err (failed FailureClass.permanent "fake tool idempotency conflict")
      else if not (status == 200)
      then err (failed (status_class status) (String.◌++◌ "fake tool status " (lib.decimal status)))
      else check_body (limit_body body)

  unfoldable pub execute_fake_tool : Environment → StepAttempt → Result ExecuteError RawMessage
  execute_fake_tool env attempt = do
    guard (not (str_eq env.tool_url ""))
        (failed FailureClass.permanent "fake tool URL is not configured")
    guard env.url_is_valid (failed FailureClass.permanent "invalid fake tool request")
    receive (env.exchange attempt.idempotency_key attempt.resolved_input)
