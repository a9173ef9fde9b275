-- ===== src/FakeTool/Handler.antt =====
-- The requests of the fake tool (internal/faketool/handler.go): the routes of `New`, `invoke` and
-- `effect`.
pub mod Retry
use run_state.FakeTool.{record_effect, Effects, Effect}
use run_state.Base.{
  ◌>>◌, Bool, ◌>>=◌, ltb, ◌||◌, ◌==◌, ◌&&◌, ℕ, str_eq, some, or_fail, ok, not, none, if◌then◌else◌,
  guard, false, err, String, Result, Option,
}
use run_state.Store.Answer.{refused, delivered, answer_lost, Delivery}
use run_state.FakeTool.{record_effect, payload_conflict, find_effect, ToolError, Request, Effects}
use run_state.Task.Json.{RawMessage, Json, end, field, object}
use run_state.Executor.Decode.{set_raw, fold_field, as_fields, Library, set_bool}
use run_state.Store.Types.{conflict}

abbrev pub max_payload_bytes : ℕ
max_payload_bytes = 1048576

-- `invocation`
pub record Invocation : Type 0 where
  pub idempotency_key : String
  pub payload : RawMessage

pub data ToolContent : Type 0 where
  message : String → ToolContent
  json_content : Json → ToolContent
  effect_content : Effect → ToolContent
  no_body : ToolContent

-- A response, or none where the handler waits for the end of the request.
pub data Reply : Type 0 where
  reply : ℕ → ToolContent → Reply
  withheld : Reply

-- `http.Error`
abbrev pub http_error : String → ℕ → Reply
http_error text status = reply status (message text)

-- `payload`, with a value.
pub record PayloadInput : Type 0 where
  pub value : Json
  pub block_first_response : Bool

abbrev pub payload_input : Option (Option Json) → Option Bool → Option PayloadInput
payload_input (some (some value)) (some block) =
    some (record { value = value; block_first_response = block })
payload_input _ _ = none

-- What follows the `record` of a request that asks for its first response to be withheld, or not.
abbrev pub recorded : Bool → Result ToolError (Effect × Bool) → Reply
recorded block (err payload_conflict) = http_error "idempotency key payload conflict" 409
recorded block (ok (e, created)) =
    if created && block then withheld else reply 200 (json_content e.result)

-- The same where the transaction fails, before or after it took effect.
abbrev pub persisted :
    Delivery → Bool → Result ToolError (Effect × Bool) × Effects → Effects → Reply × Effects
persisted delivered block (answer, after) before = (recorded block answer, after)
persisted refused block (answer, after) before = (http_error "persist effect" 500, before)
persisted answer_lost block (answer, after) before = (http_error "persist effect" 500, after)

abbrev pub reply_or :
    {A : Type 0} → Result Reply A → (A → Reply × Effects) → Effects → Reply × Effects
reply_or (err response) go_on effects = (response, effects)
reply_or (ok a) go_on effects = go_on a

module _ (lib : Library) where
  -- `json.Unmarshal(call.Payload, &input)` and the check of the value.
  unfoldable pub decode_payload : Json → Option PayloadInput
  decode_payload payload = elim (as_fields payload) [
    | none ↦ none
    | some fields ↦
        payload_input (fold_field lib.same_key set_raw "value" fields none)
          (fold_field lib.same_key set_bool "block_first_response" fields false)
  ]

  -- The checks of `invoke`, on what the body of the request decodes to: the request to record, and
  -- whether its first response is to be withheld.
  unfoldable pub check_call : Option Invocation → Result Reply (Request × Bool)
  check_call decoded = do
    call ← or_fail decoded (http_error "invalid invocation" 400)
    guard (not (str_eq call.idempotency_key "" || (call.payload.size == 0)))
        (http_error "invalid invocation" 400)
    payload ← or_fail call.payload.document (http_error "invalid invocation" 400)
    guard (not (ltb max_payload_bytes call.payload.size)) (http_error "payload too large" 413)
    input ← or_fail (decode_payload payload) (http_error "payload requires value" 400)
    ok (
      record {
        key = call.idempotency_key;
        payload = payload;
        result = object (field "value" input.value end);
      },
      input.block_first_response,
    )

  module _ (jsonb_eq : Json → Json → Bool) where
    -- `POST /invoke`
    unfoldable pub invoke : Delivery → Option Invocation → Effects → Reply × Effects
    invoke delivery decoded effects =
        reply_or (check_call decoded)
          (λ (request, block).
            persisted delivery block (record_effect jsonb_eq request effects) effects)
          effects

  -- `GET /effects/{key}`, with the text of the key trimmed, and whether the database answers.
  unfoldable pub effect : (String → String) → Bool → String → Effects → Reply
  effect trim_space answers key effects =
      if not answers
      then http_error "load effect" 500
      else elim (find_effect (trim_space key) effects) [
        | none ↦ http_error "not found" 404
        | some e ↦ reply 200 (effect_content e)
      ]

-- The routes that `New` registers.
pub data ToolCall : Type 0 where
  post_invoke : Delivery → Option Invocation → ToolCall
  get_effect : Bool → String → ToolCall
  get_healthz : ToolCall

-- The handler that `New` returns.
unfoldable pub serve_tool :
    Library → (Json → Json → Bool) → (String → String) → ToolCall → Effects → Reply × Effects
serve_tool lib jsonb_eq trim_space (post_invoke delivery decoded) effects =
    invoke lib jsonb_eq delivery decoded effects
serve_tool lib jsonb_eq trim_space (get_effect answers key) effects =
    (effect lib trim_space answers key effects, effects)
serve_tool lib jsonb_eq trim_space get_healthz effects = (reply 204 no_body, effects)
