-- ===== src/Ids/Distinct.antt =====
-- When two identifiers are the same (internal/id/id.go).
use Prim.Native.Nat.{◌/◌, ◌%◌}
use Prim.Native.Char.{Char}
use run_state.Ids.{hex_slice, dash, hex_digit, draw_id, stamp, print_id, Bytes}
use run_state.Ids.Stamp.{
  stamp-version, IsBytes, stamp-variant, stamp-IsBytes, hex_value-hex_digit, hex_value,
}
use run_state.Base.{
  ◌≡◌, String, ◌↔◌, ok-injective, ok, ◌∙◌, ◌<◌, ℕ, zero, sym, suc, refl, arith, ap,
}

-- The bytes of two arrays agree on the `n` indices from `i` on.
abbrev pub SameBytes : Bytes → Bytes → ℕ → ℕ → Type 0
SameBytes a b i zero = Unit {0}
SameBytes a b i (suc n) = (a i ≡ b i) × SameBytes a b (suc i) n

-- Two arrays agree but for the version and the variant: on 122 of their bits.
abbrev pub SameRandom : Bytes → Bytes → Type 0
SameRandom a b =
    SameBytes a b 0 6
    × (a 6 % 16 ≡ b 6 % 16)
    × (a 7 ≡ b 7)
    × (a 8 % 64 ≡ b 8 % 64)
    × SameBytes a b 9 7

hex_digit-injective : (m n : ℕ) → m < 16 → n < 16 → hex_digit m ≡ hex_digit n → m ≡ n
hex_digit-injective m n h k same =
    sym (hex_value-hex_digit m h) ∙ ap hex_value same ∙ hex_value-hex_digit n k

cons-injective : (c d : Char) (s t : String) → String.◌∷◌ c s ≡ String.◌∷◌ d t → (c ≡ d) × (s ≡ t)
cons-injective c d s t h = (cc, cc)

module _ (a b : Bytes) (bytes : IsBytes a) (bytes' : IsBytes b) where
  hex_slice-injective :
      (i n : ℕ) (s t : String) → hex_slice a i n s ≡ hex_slice b i n t → SameBytes a b i n × (s ≡ t)
  unfolding hex_slice
  hex_slice-injective i zero s t h = (tt, h)
  hex_slice-injective i (suc n) s t h =
      let (high, h) = cons-injective _ _ _ _ h in
      let (low, h) = cons-injective _ _ _ _ h in
      let high =
        hex_digit-injective (a i / 16) (b i / 16) (omega (arith, bytes i)) (omega (arith, bytes' i))
          high in
      let low = hex_digit-injective (a i % 16) (b i % 16) (omega arith) (omega arith) low in
      let (later, rest) = hex_slice-injective (suc i) n s t h in
      ((omega (arith, high, low), later), rest)

  print_id-injective : print_id a ≡ print_id b → SameBytes a b 0 16
  unfolding print_id
  print_id-injective h =
      let (p, h) = hex_slice-injective 0 4 _ _ h in
      let (q, h) = hex_slice-injective 4 2 _ _ (cons-injective _ _ _ _ h).1 in
      let (r, h) = hex_slice-injective 6 2 _ _ (cons-injective _ _ _ _ h).1 in
      let (s, h) = hex_slice-injective 8 2 _ _ (cons-injective _ _ _ _ h).1 in
      let (t, h) = hex_slice-injective 10 6 _ _ (cons-injective _ _ _ _ h).1 in
      ground (arith, p, q, r, s, t)

hex_slice-same :
    (a b : Bytes) (i n : ℕ) (s : String) → SameBytes a b i n → hex_slice a i n s ≡ hex_slice b i n s
unfolding hex_slice
hex_slice-same a b i zero s same = refl
hex_slice-same a b i (suc n) s same = rw same.0 (rw (hex_slice-same a b (suc i) n s same.1) refl)

module _ (a b : Bytes) (bytes : IsBytes a) (bytes' : IsBytes b) where
  SameRandom-of_stamp : SameBytes (stamp a) (stamp b) 0 16 → SameRandom a b
  unfolding stamp
  SameRandom-of_stamp same = omega (
    arith,
    stamp-version a bytes,
    stamp-version b bytes',
    stamp-variant a bytes,
    stamp-variant b bytes',
  )

  stamp-of_SameRandom : SameRandom a b → SameBytes (stamp a) (stamp b) 0 16
  unfolding stamp
  stamp-of_SameRandom same = omega (
    arith,
    stamp-version a bytes,
    stamp-version b bytes',
    stamp-variant a bytes,
    stamp-variant b bytes',
  )

hex_slice-next :
    (a b : Bytes) (i n : ℕ) (s t : String)
    → SameBytes a b i n
    → s ≡ t
    → hex_slice a i n s ≡ hex_slice b i n t
hex_slice-next a b i n s t same rest = ap (hex_slice a i n) rest ∙ hex_slice-same a b i n t same

print_id-same : (a b : Bytes) → SameBytes a b 0 16 → print_id a ≡ print_id b
unfolding print_id
print_id-same a b same =
    let next = hex_slice-next a b in
    next 0 4 _ _ (ground (arith, same)) (
      ap dash (
        next 4 2 _ _ (ground (arith, same)) (
          ap dash (
            next 6 2 _ _ (ground (arith, same)) (
              ap dash (
                next 8 2 _ _ (ground (arith, same))
                  (ap dash (hex_slice-same a b 10 6 "" (ground (arith, same))))))))))

-- Two draws give the same identifier exactly if their bytes agree on the 122 bits that are not
-- set to the version and the variant.
pub draw_id-SameRandom :
    (a b : Bytes) → IsBytes a → IsBytes b → (draw_id (ok a) ≡ draw_id (ok b)) ↔ SameRandom a b
unfolding draw_id
draw_id-SameRandom a b bytes bytes' = (
  λ same. SameRandom-of_stamp a b bytes bytes' (
      print_id-injective (stamp a) (stamp b) (stamp-IsBytes a bytes) (stamp-IsBytes b bytes')
        (ok-injective _ _ _ refl same)),
  λ same. ap ok (print_id-same (stamp a) (stamp b) (stamp-of_SameRandom a b bytes bytes' same)),
)
