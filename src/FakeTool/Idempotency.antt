-- ===== src/FakeTool/Idempotency.antt =====
-- The effect of a key under any requests (internal/faketool/handler.go).
use run_state.FakeTool.{
  counted, record_found, new_effect, record_effect, record_all, Effects, Effect,
}
use run_state.Base.{
  ◌∙◌, Bool-cases, subst, none, inl, eq_refl, true, refl, ok, inr, false, ap, String, Option-cases,
  List, some, Bool, [], ◌∷◌, str_eq, ◌≡◌, arith, eq_iff,
}
use run_state.FakeTool.{record_effect, find_effect, count_request, Request, Effects}
use run_state.Task.Json.{Json}

-- The same effect, but for the number of requests.
pub record SameEffect (e e' : Effect) : Type 0 where
  pub key : e'.key ≡ e.key
  pub payload : e'.payload ≡ e.payload
  pub result : e'.result ≡ e.result
  pub effect_count : e'.effect_count ≡ e.effect_count

key-find_effect :
    (key : String) (effects : Effects) {e : Effect} → find_effect key effects ≡ some e → e.key ≡ key
unfolding find_effect
key-find_effect key [] h = cc
key-find_effect key (x ∷ rest) {e} h = elim (Bool-cases (str_eq x.key key)) [
  | inl hit ↦ ground (arith, eq_iff x.key key)
  | inr miss ↦ key-find_effect key rest {e = e} (ground arith)
]

SameEffect-refl : (e : Effect) → SameEffect e e
SameEffect-refl e = record { key = refl; payload = refl; result = refl; effect_count = refl }

-- Counting a request keeps the effects.
find_effect-count_request :
    (key other : String) (effects : Effects) {e : Effect}
    → find_effect key effects ≡ some e
    → (e' : Effect) × (find_effect key (count_request other effects) ≡ some e') × SameEffect e e'
unfolding find_effect count_request
find_effect-count_request key other [] h = cc
find_effect-count_request key other (x ∷ rest) {e} h = elim (Bool-cases (str_eq x.key key)) [
  | inl hit ↦
      let same : x ≡ e = ground arith in
      elim (Bool-cases (str_eq x.key other)) [
        | inl hits ↦ (
          counted x,
          rw (hits, count_request) (rw (hit, find_effect) refl),
          record {
            key = ap (λ y. y.key) same;
            payload = ap (λ y. y.payload) same;
            result = ap (λ y. y.result) same;
            effect_count = ap (λ y. y.effect_count) same;
          },
        )
        | inr passed ↦ (
          x,
          rw (passed, count_request) (rw (hit, find_effect) refl),
          record {
            key = ap (λ y. y.key) same;
            payload = ap (λ y. y.payload) same;
            result = ap (λ y. y.result) same;
            effect_count = ap (λ y. y.effect_count) same;
          },
        )
      ]
  | inr miss ↦
      let later : find_effect key rest ≡ some e = ground arith in
      let (e', found, same) = find_effect-count_request key other rest {e = e} later in
      elim (Bool-cases (str_eq x.key other)) [
        | inl hits ↦ (e, rw (hits, count_request) (rw (miss, find_effect) later), SameEffect-refl e)
        | inr passed ↦ (e', rw (passed, count_request) (rw (miss, find_effect) found), same)
      ]
]

find_effect-counted :
    (key : String) (effects : Effects) {e : Effect}
    → find_effect key effects ≡ some e
    → find_effect key (count_request key effects) ≡ some (counted e)
unfolding find_effect count_request
find_effect-counted key [] h = cc
find_effect-counted key (x ∷ rest) {e} h = elim (Bool-cases (str_eq x.key key)) [
  | inl hit ↦
      let same : x ≡ e = ground arith in
      rw (hit, count_request) (rw (hit, find_effect) (ap (λ y. some (counted y)) same))
  | inr miss ↦
      rw (miss, count_request)
        (rw (miss, find_effect) (find_effect-counted key rest {e = e} (ground arith)))
]

SameEffect-trans : {d e f : Effect} → SameEffect d e → SameEffect e f → SameEffect d f
SameEffect-trans p q = record {
  key = q.key ∙ p.key;
  payload = q.payload ∙ p.payload;
  result = q.result ∙ p.result;
  effect_count = q.effect_count ∙ p.effect_count;
}

module _ (jsonb_eq : Json → Json → Bool) where
  -- A request under any key leaves an effect that is there.
  find_effect-record_effect :
      (key : String) (r : Request) (effects : Effects) {e : Effect}
      → find_effect key effects ≡ some e
      → (e' : Effect) × (find_effect key (record_effect jsonb_eq r effects).1 ≡ some e')
        × SameEffect e e'
  unfolding record_effect find_effect
  find_effect-record_effect key r effects {e} h = elim (Option-cases (find_effect r.key effects)) [
    | inl missing ↦
        let other : str_eq r.key key ≡ false = elim (Bool-cases (str_eq r.key key)) [
          | inl same ↦ absurd (ground (arith, eq_iff r.key key))
          | inr apart ↦ apart
        ] in
        elim (Bool-cases (jsonb_eq r.payload r.payload)) [
          | inl agree ↦ (
            e,
            rw (missing, record_effect) (rw agree (rw (other, find_effect) h)),
            SameEffect-refl e,
          )
          | inr differ ↦ (e, rw (missing, record_effect) (rw differ h), SameEffect-refl e)
        ]
    | inr (d, there) ↦ elim (Bool-cases (jsonb_eq d.payload r.payload)) [
      | inl agree ↦
          let (e', found, same) = find_effect-count_request key r.key effects {e = e} h in
          (e', rw (there, record_effect) (rw agree found), same)
      | inr differ ↦ (e, rw (there, record_effect) (rw differ h), SameEffect-refl e)
    ]
  ]

  find_effect-record_all :
      (key : String) (requests : List Request) (effects : Effects) {e : Effect}
      → find_effect key effects ≡ some e
      → (e' : Effect) × (find_effect key (record_all jsonb_eq requests effects) ≡ some e')
        × SameEffect e e'
  unfolding record_all
  find_effect-record_all key [] effects {e} h = (e, h, SameEffect-refl e)
  find_effect-record_all key (r ∷ rest) effects {e} h =
      let (d, found, same) = find_effect-record_effect key r effects {e = e} h in
      let (e', last, then_same) =
        find_effect-record_all key rest (record_effect jsonb_eq r effects).1 {e = d} found in
      (e', last, SameEffect-trans same then_same)

  record_effect-replay :
      (r : Request) (later : List Request) (replay : Request) (effects : Effects) {e : Effect}
      → find_effect r.key effects ≡ some e
      → replay.key ≡ r.key
      → jsonb_eq e.payload replay.payload ≡ true
      → (e' : Effect) × ((record_effect jsonb_eq replay (record_all jsonb_eq later effects)).0
          ≡ ok (e', false))
        × SameEffect e e'
  unfolding record_effect
  record_effect-replay r later replay effects {e} h same agree =
      let (d, found, kept) = find_effect-record_all r.key later effects {e = e} h in
      let agrees : jsonb_eq d.payload replay.payload ≡ true = rw kept.payload agree in
      (
        counted d,
        rw (same, record_effect) (rw found (rw agrees refl)),
        record {
          key = kept.key;
          payload = kept.payload;
          result = kept.result;
          effect_count = kept.effect_count;
        },
      )

  stored_new :
      (r : Request) (effects : Effects) {e : Effect} {created : Bool}
      → find_effect r.key effects ≡ none
      → (record_found jsonb_eq r effects none).0 ≡ ok (e, created)
      → (find_effect r.key (record_effect jsonb_eq r effects).1 ≡ some e)
        × (jsonb_eq e.payload r.payload ≡ true)
  unfolding record_effect find_effect
  stored_new r effects {e} missing h = elim (Bool-cases (jsonb_eq r.payload r.payload)) [
    | inl agree ↦
        let same : new_effect r.key r.payload r.result ≡ e = ground (arith, agree) in
        (
          rw (missing, record_effect) (rw agree (rw (eq_refl r.key) (ap some same))),
          subst (λ x. jsonb_eq x.payload r.payload ≡ true) same agree,
        )
    | inr differ ↦ absurd (ground (arith, differ))
  ]

  stored_old :
      (r : Request) (effects : Effects) {d e : Effect} {created : Bool}
      → find_effect r.key effects ≡ some d
      → (record_found jsonb_eq r effects (some d)).0 ≡ ok (e, created)
      → (find_effect r.key (record_effect jsonb_eq r effects).1 ≡ some e)
        × (jsonb_eq e.payload r.payload ≡ true)
  unfolding record_effect
  stored_old r effects {d} {e} there h = elim (Bool-cases (jsonb_eq d.payload r.payload)) [
    | inl agree ↦
        let same : counted d ≡ e = ground (arith, agree) in
        (
          rw (there, record_effect)
              (rw agree (find_effect-counted r.key effects there ∙ ap some same)),
          subst (λ x. jsonb_eq x.payload r.payload ≡ true) same agree,
        )
    | inr differ ↦ absurd (ground (arith, differ))
  ]

  -- An answered request has left its effect, with a payload equal to its own.
  record_effect-stored :
      (r : Request) (effects : Effects) {e : Effect} {created : Bool}
      → (record_effect jsonb_eq r effects).0 ≡ ok (e, created)
      → (find_effect r.key (record_effect jsonb_eq r effects).1 ≡ some e)
        × (jsonb_eq e.payload r.payload ≡ true)
  unfolding record_effect
  record_effect-stored r effects {e} {created} h = elim (Option-cases (find_effect r.key effects)) [
    | inl missing ↦ stored_new r effects missing (rw (missing, record_effect) at h)
    | inr (d, there) ↦ stored_old r effects there (rw (there, record_effect) at h)
  ]

  -- After a request that the fake tool answered, and any further requests under any keys, the
  -- same key and payload are answered as not created, with the same payload, result and effect
  -- count, whatever result the repetition computed.
  pub record_effect-idempotent :
      (r : Request) (later : List Request) (result : Json) (effects : Effects) {e : Effect}
      {created : Bool}
      → (record_effect jsonb_eq r effects).0 ≡ ok (e, created)
      → (e' : Effect) × ((record_effect jsonb_eq
            (record r { result = result })
            (record_all jsonb_eq later (record_effect jsonb_eq r effects).1)).0
          ≡ ok (e', false))
        × SameEffect e e'
  record_effect-idempotent r later result effects {e} h =
      let (there, agree) = record_effect-stored r effects h in
      record_effect-replay r later (record r { result = result })
        (record_effect jsonb_eq r effects).1 there refl agree
