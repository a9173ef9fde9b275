-- ===== src/Task/Json.antt =====
-- JSON documents as `encoding/json` decodes them into `any`: `nil`, booleans, numbers (kept as text
-- by `UseNumber`), strings, slices and maps. A map is its list of fields, one for each key.
use run_state.Base.{ℕ, String, Option, Bool, true, false, ◌+◌, str_eq, if◌then◌else◌, some, none}

mutual
  pub data Json : Type 0 where
    null : Json
    boolean : Bool → Json
    number : String → Json
    string : String → Json
    array : Items → Json
    object : Fields → Json

  pub data Items : Type 0 where
    nil : Items
    item : Json → Items → Items

  pub data Fields : Type 0 where
    end : Fields
    field : String → Json → Fields → Fields

-- `value, exists := object[key]`
abbrev pub get_field : String → Fields → Option Json
get_field key end = none
get_field key (field k v rest) = if str_eq k key then some v else get_field key rest

-- `len(object)`
abbrev pub field_count : Fields → ℕ
field_count end = 0
field_count (field k v rest) = field_count rest + 1

-- `value == nil`
abbrev pub is_nil : Json → Bool
is_nil null = true
is_nil _ = false

-- A `json.RawMessage` as the code observes it: its length in bytes, and the document that it holds
-- where it is valid JSON.
pub record RawMessage : Type 0 where
  pub size : ℕ
  pub document : Option Json
