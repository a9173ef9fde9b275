-- ===== src/Ids/Shape.antt =====
-- The form of identifiers (internal/id/id.go).
use Prim.Native.Nat.{◌/◌, ◌%◌}
use Prim.Native.Char.{Char, code}
use run_state.Base.{
  ◌≤◌, List, ◌∙◌, ◌+◌, ok-injective, ok, ap, Bool, ◌≡◌, ◌∷◌, ◌||◌, ◌==◌, ◌<◌, ◌-◌, ◌&&◌, ℕ, zero,
  true, suc, refl, false, arith, [], String,
}
use run_state.Ids.{dash, hex_digit, stamp, print_id, hex_slice, draw_id, Bytes}
use run_state.Ids.Stamp.{
  stamp-version, stamp-variant, stamp-IsBytes, is_hex, all_below_sound, all_below, hex_digit-is_hex,
  IsBytes,
}

abbrev pub Test : Type 0
Test = Char → Bool

-- Whether a text has one character for each test, which passes it.
unfoldable pub fits : List Test → String → Bool
fits [] String.[] = true
fits [] (String.◌∷◌ c s) = false
fits (test ∷ tests) String.[] = false
fits (test ∷ tests) (String.◌∷◌ c s) = test c && fits tests s

abbrev pub is_char : Char → Test
is_char d c = code c == code d

-- `8`, `9`, `a` or `b`
abbrev pub is_variant : Test
is_variant c = is_char "8" c || is_char "9" c || is_char "a" c || is_char "b" c

-- The digits of `n` bytes, before the rest of the tests.
abbrev pub pairs : ℕ → List Test → List Test
pairs zero tests = tests
pairs (suc n) tests = is_hex ∷ is_hex ∷ pairs n tests

-- `-xxxxxxxxxxxx`
abbrev pub node_group : List Test
node_group = is_char "-" ∷ pairs 6 []

-- `-vxxx`, and what follows.
abbrev pub variant_group : List Test
variant_group = is_char "-" ∷ is_variant ∷ is_hex ∷ pairs 1 node_group

-- `-4xxx`, and what follows.
abbrev pub version_group : List Test
version_group = is_char "-" ∷ is_char "4" ∷ is_hex ∷ pairs 1 variant_group

-- `xxxxxxxx-xxxx-4xxx-vxxx-xxxxxxxxxxxx`
abbrev pub uuid_v4 : List Test
uuid_v4 = pairs 4 (is_char "-" ∷ pairs 2 version_group)

module _ (b : Bytes) (bytes : IsBytes b) where
  fits-hex_slice :
      (i n : ℕ) (tests : List Test) (rest : String)
      → fits (pairs n tests) (hex_slice b i n rest) ≡ fits tests rest
  unfolding fits hex_slice
  fits-hex_slice i zero tests rest = refl
  fits-hex_slice i (suc n) tests rest =
      let high = hex_digit-is_hex (b i / 16) (omega (arith, bytes i)) in
      let low = hex_digit-is_hex (b i % 16) (omega arith) in
      rw high (rw low (fits-hex_slice (suc i) n tests rest))

version_digit : (n : ℕ) → 64 ≤ n → n < 80 → is_char "4" (hex_digit (n / 16)) ≡ true
unfolding hex_digit
version_digit n above below = let four : n / 16 ≡ 4 = omega (arith, above, below) in rw four refl

variant_table : all_below 4 (λ k. is_variant (hex_digit (8 + k))) ≡ true
unfolding all_below hex_digit
variant_table = refl

variant_digit : (n : ℕ) → 128 ≤ n → n < 192 → is_variant (hex_digit (n / 16)) ≡ true
variant_digit n above below =
    let one : n / 16 ≡ 8 + (n / 16 - 8) = omega (arith, above, below) in
    rw one (
      all_below_sound 4 (λ k. is_variant (hex_digit (8 + k))) (n / 16 - 8) variant_table
        (omega (arith, above, below)))

-- Two digits of a byte of which the first has a test of its own.
fits-hex_pair :
    (b : Bytes) (bytes : IsBytes b) (i n : ℕ) (test : Test) (tests : List Test) (rest : String)
    → test (hex_digit (b i / 16)) ≡ true
    → fits (test ∷ is_hex ∷ pairs n tests) (hex_slice b i (suc n) rest) ≡ fits tests rest
unfolding fits hex_slice
fits-hex_pair b bytes i n test tests rest passed =
    let low = hex_digit-is_hex (b i % 16) (omega arith) in
    rw passed (rw low (fits-hex_slice b bytes (suc i) n tests rest))

fits-print_id :
    (b : Bytes)
    → IsBytes b
    → is_char "4" (hex_digit (b 6 / 16)) ≡ true
    → is_variant (hex_digit (b 8 / 16)) ≡ true
    → fits uuid_v4 (print_id b) ≡ true
unfolding print_id fits
fits-print_id b bytes version variant =
    let node = dash (hex_slice b 10 6 "") in
    let variant_text = dash (hex_slice b 8 2 node) in
    let version_text = dash (hex_slice b 6 2 variant_text) in
    fits-hex_slice b bytes 0 4 (is_char "-" ∷ pairs 2 version_group)
      (dash (hex_slice b 4 2 version_text))
    ∙ fits-hex_slice b bytes 4 2 version_group version_text
    ∙ fits-hex_pair b bytes 6 1 (is_char "4") variant_group variant_text version
    ∙ fits-hex_pair b bytes 8 1 is_variant node_group node variant
    ∙ fits-hex_slice b bytes 10 6 [] ""

-- An identifier that is drawn has the form of a UUID of version 4: 36 characters, dashes after
-- the digits 8, 12, 16 and 20, and lower-case hexadecimal digits else, of which the first of the
-- third group is 4 and the first of the fourth is 8, 9, a or b.
pub draw_id-fits :
    (b : Bytes) → IsBytes b → {id : String} → draw_id (ok b) ≡ ok id → fits uuid_v4 id ≡ true
unfolding draw_id
draw_id-fits b bytes {id} drawn =
    let six = stamp-version b bytes in
    let eight = stamp-variant b bytes in
    ap (fits uuid_v4) (ok-injective id (print_id (stamp b)) _ drawn refl)
    ∙ fits-print_id (stamp b) (stamp-IsBytes b bytes)
        (version_digit (stamp b 6) (omega (arith, six)) (omega (arith, six)))
        (variant_digit (stamp b 8) (omega (arith, eight)) (omega (arith, eight)))
