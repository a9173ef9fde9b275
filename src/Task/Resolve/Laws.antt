-- ===== src/Task/Resolve/Laws.antt =====
-- The resolution of references that were validated (internal/task/resolve.go).
use run_state.Base.{
  Result, ◌>>=◌, none, Option, Bool-cases, >>=-eq-ok, ℕ, Bool, true, false, ◌≡◌, some, str_eq, refl,
  ok, inr, inl, arith,
}
use run_state.Task.Json.{
  is_nil, get_field, Fields, field_count, null, end, field, Json, object, Items, string, boolean,
  number, array, nil, item,
}
use run_state.Task.Resolve.{
  if_reference, ResolveError, validate_references, validate_input_references, resolve_input,
  decode_optional_json, decode_json, check_reference, validate_items, validate_fields,
  resolve_value, resolve_items, resolve_fields, reference_key, dereference,
}

module _ (previous checkpoint : Json) (allow : Bool)
    (has_previous : allow ≡ true → is_nil previous ≡ false)
    (has_checkpoint : is_nil checkpoint ≡ false) where
  check_reference-dereference :
      (reference : Json) (count : ℕ)
      → check_reference allow reference count ≡ ok tt
      → (w : Json) × (dereference previous checkpoint reference count ≡ ok w)
  unfolding check_reference dereference
  check_reference-dereference (string s) count h = elim (Bool-cases (str_eq s "previous_output")) [
    | inl e ↦ (previous, ground (arith, has_previous))
    | inr e ↦ (checkpoint, ground (arith, has_checkpoint))
  ]
  check_reference-dereference null count h = absurd (ground arith)
  check_reference-dereference (boolean b) count h = absurd (ground arith)
  check_reference-dereference (number n) count h = absurd (ground arith)
  check_reference-dereference (array items) count h = absurd (ground arith)
  check_reference-dereference (object fields) count h = absurd (ground arith)

  if_reference-validated :
      (o : Option Json) (count : ℕ) {valid : Result ResolveError (Unit {0})}
      {resolved : Result ResolveError Json}
      → (valid ≡ ok tt → (w : Json) × (resolved ≡ ok w))
      → if_reference o (λ reference. check_reference allow reference count) valid ≡ ok tt
      → (w : Json) × (if_reference o
            (λ reference. dereference previous checkpoint reference count)
            resolved
          ≡ ok w)
  if_reference-validated none count rest h = rest h
  if_reference-validated (some reference) count rest h =
      check_reference-dereference reference count h

  mutual
    unfolding validate_references resolve_value validate_items resolve_items validate_fields
        resolve_fields

    resolve_value-validated :
        (value : Json)
        → validate_references allow value ≡ ok tt
        → (w : Json) × (resolve_value previous checkpoint value ≡ ok w)
    resolve_value-validated null h = (null, refl)
    resolve_value-validated (boolean b) h = (boolean b, refl)
    resolve_value-validated (number n) h = (number n, refl)
    resolve_value-validated (string s) h = (string s, refl)
    resolve_value-validated (array items) h =
        let (w, e) = resolve_items-validated items h in (array w, rw (e, resolve_value) refl)
    resolve_value-validated (object fields) h =
        let rest : validate_fields allow fields ≡ ok tt
            → (w : Json) × ((resolve_fields previous checkpoint fields >>= λ resolved.
                  ok (object resolved))
                ≡ ok w) =
          λ valid. let (w, e) = resolve_fields-validated fields valid in (object w, rw e refl) in
        if_reference-validated (get_field reference_key fields) (field_count fields) rest h

    resolve_items-validated :
        (items : Items)
        → validate_items allow items ≡ ok tt
        → (w : Items) × (resolve_items previous checkpoint items ≡ ok w)
    resolve_items-validated nil h = (nil, refl)
    resolve_items-validated (item v rest) h =
        let (u, valid, later) = >>=-eq-ok (validate_references allow v) _ h in
        let (w, e) = resolve_value-validated v valid in
        let (ws, es) = resolve_items-validated rest later in
        (item w ws, rw (e, resolve_items) (rw es refl))

    resolve_fields-validated :
        (fields : Fields)
        → validate_fields allow fields ≡ ok tt
        → (w : Fields) × (resolve_fields previous checkpoint fields ≡ ok w)
    resolve_fields-validated end h = (end, refl)
    resolve_fields-validated (field k v rest) h =
        let (u, valid, later) = >>=-eq-ok (validate_references allow v) _ h in
        let (w, e) = resolve_value-validated v valid in
        let (ws, es) = resolve_fields-validated rest later in
        (field k w ws, rw (e, resolve_fields) (rw es refl))

  -- An input whose references were validated resolves, where the documents that it may refer to
  -- are there and are not null: the checkpoint, and the previous output if references to it are
  -- allowed.
  pub resolve_input-validated :
      (configured : Json)
      → validate_input_references configured allow ≡ ok tt
      → (w : Json) × (resolve_input (some configured) (some previous) (some checkpoint) ≡ ok w)
  unfolding validate_input_references resolve_input decode_json decode_optional_json
  resolve_input-validated configured h = resolve_value-validated configured h
