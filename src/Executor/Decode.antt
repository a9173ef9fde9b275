-- ===== src/Executor/Decode.antt =====
-- Decoding documents into Go structs and maps, as `encoding/json` does for the inputs of
-- internal/executor/executor.go, and the functions of Go's library that the executor calls.
use run_state.Base.{Bool, if◌then◌else◌, ℕ, String, Option, none, some}
use run_state.Task.Json.{
  Json, null, boolean, number, string, object, Fields, end, field, RawMessage,
}

pub data ℤ : Type 0 where
  pos negsuc : ℕ → ℤ

-- Go's library: the test by which `encoding/json` matches a key with a field of a struct, the
-- conversion of a number's text into an `int`, `time.ParseDuration` in nanoseconds, `json.Marshal` of
-- a document, the decimal text of a number (`%d`), and the quoted form of a text (`%q`).
pub record Library : Type 0 where
  pub same_key : String → String → Bool
  pub parse_int : String → Option ℤ
  pub parse_duration : String → Option ℤ
  pub marshal : Json → RawMessage
  pub decimal : ℕ → String
  pub quote : String → String

abbrev pub then_with : {A B : Type 0} → Option A → (A → Option B) → Option B
then_with none f = none
then_with (some a) f = f a

-- A struct's field is set by each key that matches it, in order; `none` where a value does not fit.
unfoldable pub fold_field :
    {A : Type 0} → (String → String → Bool) → (A → Json → Option A) → String → Fields → A → Option A
fold_field same_key set name end value = some value
fold_field same_key set name (field k v rest) value =
    then_with (if same_key k name then set value v else some value)
      (λ updated. fold_field same_key set name rest updated)

-- `json.RawMessage`
abbrev pub set_raw : Option Json → Json → Option (Option Json)
set_raw old v = some (some v)

-- `*int`
abbrev pub set_int : Library → Option ℤ → Json → Option (Option ℤ)
set_int lib old null = some none
set_int lib old (number text) = elim (lib.parse_int text) [ none ↦ none | some n ↦ some (some n) ]
set_int lib old _ = none

-- `bool`; null leaves it as it is.
abbrev pub set_bool : Bool → Json → Option Bool
set_bool old null = some old
set_bool old (boolean b) = some b
set_bool old _ = none

-- `string`
abbrev pub set_string : String → Json → Option String
set_string old null = some old
set_string old (string s) = some s
set_string old _ = none

-- `json.Unmarshal` of a document into a struct or a map: null is accepted and sets nothing.
unfoldable pub as_fields : Json → Option Fields
as_fields null = some end
as_fields (object fields) = some fields
as_fields _ = none
