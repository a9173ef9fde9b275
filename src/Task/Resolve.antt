-- ===== src/Task/Resolve.antt =====
-- Input references (internal/task/resolve.go): an object `{"$ref": name}` inside a step's configured
-- input stands for the output of the step before, or for the checkpoint.
pub mod Laws
use run_state.Base.{
  ◌>>◌, ℕ, String, Option, none, some, Bool, ◌==◌, str_eq, if◌then◌else◌, Result, ok, err, guard,
  ◌>>=◌,
}
use run_state.Task.Json.{
  Json, null, boolean, number, string, array, object, Items, nil, item, Fields, end, field,
  get_field, field_count, is_nil,
}

abbrev pub reference_key : String
reference_key = "$ref"

pub data ResolveError : Type 0 where
  extra_fields not_a_string first_step unavailable_previous unavailable_checkpoint : ResolveError
  missing_document : ResolveError
  unknown_reference : String → ResolveError

-- `if reference, exists := object[referenceKey]; exists { return then }; return otherwise`
abbrev pub if_reference : {A : Type 0} → Option Json → (Json → A) → A → A
if_reference (some reference) then_return otherwise = then_return reference
if_reference none then_return otherwise = otherwise

-- `name, ok := reference.(string)`
abbrev pub as_string : Json → Result ResolveError String
as_string (string s) = ok s
as_string _ = err not_a_string

abbrev pub check_name : Bool → String → Result ResolveError (Unit {0})
check_name allow_previous name =
    if str_eq name "previous_output"
    then guard allow_previous first_step
    else if str_eq name "checkpoint"
    then ok tt
    else err (unknown_reference name)

-- The body of `if reference, exists := ...` in `validateReferences`.
unfoldable pub check_reference : Bool → Json → ℕ → Result ResolveError (Unit {0})
check_reference allow_previous reference count = do
  guard (count == 1) extra_fields
  name ← as_string reference
  check_name allow_previous name

unfoldable mutual
  pub validate_references : Bool → Json → Result ResolveError (Unit {0})
  validate_references allow null = ok tt
  validate_references allow (boolean b) = ok tt
  validate_references allow (number n) = ok tt
  validate_references allow (string s) = ok tt
  validate_references allow (array items) = validate_items allow items
  validate_references allow (object fields) =
      if_reference (get_field reference_key fields)
        (λ reference. check_reference allow reference (field_count fields))
        (validate_fields allow fields)

  pub validate_items : Bool → Items → Result ResolveError (Unit {0})
  validate_items allow nil = ok tt
  validate_items allow (item v rest) = validate_references allow v >> validate_items allow rest

  pub validate_fields : Bool → Fields → Result ResolveError (Unit {0})
  validate_fields allow end = ok tt
  validate_fields allow (field k v rest) = validate_references allow v >> validate_fields allow rest

-- `if value == nil { return nil, errors.New(...) }; return value, nil`
abbrev pub available : Json → ResolveError → Result ResolveError Json
available value missing = if is_nil value then err missing else ok value

abbrev pub lookup_name : Json → Json → String → Result ResolveError Json
lookup_name previous checkpoint name =
    if str_eq name "previous_output"
    then available previous unavailable_previous
    else if str_eq name "checkpoint"
    then available checkpoint unavailable_checkpoint
    else err (unknown_reference name)

-- The body of `if reference, exists := ...` in `resolveValue`.
unfoldable pub dereference : Json → Json → Json → ℕ → Result ResolveError Json
dereference previous checkpoint reference count = do
  guard (count == 1) extra_fields
  name ← as_string reference
  lookup_name previous checkpoint name

unfoldable mutual
  pub resolve_value : Json → Json → Json → Result ResolveError Json
  resolve_value previous checkpoint null = ok null
  resolve_value previous checkpoint (boolean b) = ok (boolean b)
  resolve_value previous checkpoint (number n) = ok (number n)
  resolve_value previous checkpoint (string s) = ok (string s)
  resolve_value previous checkpoint (array items) =
      resolve_items previous checkpoint items >>= λ resolved. ok (array resolved)
  resolve_value previous checkpoint (object fields) =
      if_reference (get_field reference_key fields)
        (λ reference. dereference previous checkpoint reference (field_count fields))
        (resolve_fields previous checkpoint fields >>= λ resolved. ok (object resolved))

  pub resolve_items : Json → Json → Items → Result ResolveError Items
  resolve_items previous checkpoint nil = ok nil
  resolve_items previous checkpoint (item v rest) = do
    resolved ← resolve_value previous checkpoint v
    others ← resolve_items previous checkpoint rest
    ok (item resolved others)

  pub resolve_fields : Json → Json → Fields → Result ResolveError Fields
  resolve_fields previous checkpoint end = ok end
  resolve_fields previous checkpoint (field k v rest) = do
    resolved ← resolve_value previous checkpoint v
    others ← resolve_fields previous checkpoint rest
    ok (field k resolved others)

-- The message of a `jsonb` column: the empty message stands for NULL, and any other decodes.
unfoldable pub decode_json : Option Json → Result ResolveError Json
decode_json none = err missing_document
decode_json (some value) = ok value

unfoldable pub decode_optional_json : Option Json → Json
decode_optional_json none = null
decode_optional_json (some value) = value

unfoldable pub resolve_input : Option Json → Option Json → Option Json → Result ResolveError Json
unfolding decode_json decode_optional_json
resolve_input configured previous_output checkpoint = do
  value ← decode_json configured
  resolve_value (decode_optional_json previous_output) (decode_optional_json checkpoint) value

unfoldable pub validate_input_references : Json → Bool → Result ResolveError (Unit {0})
validate_input_references configured allow_previous = validate_references allow_previous configured
