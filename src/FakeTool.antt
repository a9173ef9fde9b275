-- ===== src/FakeTool.antt =====
-- The fake tool (internal/faketool/handler.go): a service that keeps the effect of each idempotency key
-- once. `jsonb_eq` is the database's equality of documents.
pub mod Idempotency
pub mod Handler
use run_state.Base.{
  err, ℕ, String, Option, none, some, Bool, true, false, List, [], ◌∷◌, ◌+◌, str_eq, if◌then◌else◌,
  Result, ok,
}
use run_state.Task.Json.{Json}

-- A row of the table `fake_tool_effects`.
pub record Effect : Type 0 where
  pub key : String
  pub payload : Json
  pub result : Json
  pub effect_count : ℕ
  pub request_count : ℕ

abbrev pub Effects : Type 0
Effects = List Effect

pub data ToolError : Type 0 where
  payload_conflict : ToolError

-- `SELECT ... FROM fake_tool_effects WHERE idempotency_key = $1`
unfoldable pub find_effect : String → Effects → Option Effect
find_effect key [] = none
find_effect key (e ∷ rest) = if str_eq e.key key then some e else find_effect key rest

abbrev pub counted : Effect → Effect
counted e = record e { request_count = e.request_count + 1 }

-- `UPDATE fake_tool_effects SET request_count = request_count + 1 WHERE idempotency_key = $1`
unfoldable pub count_request : String → Effects → Effects
count_request key [] = []
count_request key (e ∷ rest) =
    if str_eq e.key key then counted e ∷ rest else e ∷ count_request key rest

-- The inserted row, with the defaults of the table.
abbrev pub new_effect : String → Json → Json → Effect
new_effect key payload result = record {
  key = key;
  payload = payload;
  result = result;
  effect_count = 1;
  request_count = 1;
}

-- A request as `invoke` hands it to `record`.
pub record Request : Type 0 where
  pub key : String
  pub payload : Json
  pub result : Json

module _ (jsonb_eq : Json → Json → Bool) where
  -- What follows the insertion: the payloads are compared, and the transaction commits or rolls back.
  abbrev pub compare_payload :
      Request → Bool → Effect → Effects → Effects → Result ToolError (Effect × Bool) × Effects
  compare_payload r created e before after =
      if jsonb_eq e.payload r.payload
      then (ok (e, created), after)
      else (err payload_conflict, before)

  abbrev pub record_found :
      Request → Effects → Option Effect → Result ToolError (Effect × Bool) × Effects
  record_found r effects none =
      let e = new_effect r.key r.payload r.result in compare_payload r true e effects (e ∷ effects)
  record_found r effects (some e) =
      compare_payload r false (counted e) effects (count_request r.key effects)

  -- `record`: the effect under the key of the request, and whether the request created it.
  unfoldable pub record_effect : Request → Effects → Result ToolError (Effect × Bool) × Effects
  record_effect r effects = record_found r effects (find_effect r.key effects)

  unfoldable pub record_all : List Request → Effects → Effects
  record_all [] effects = effects
  record_all (r ∷ rest) effects = record_all rest (record_effect r effects).1
