-- ===== src/Ids/Stamp.antt =====
-- The bytes of an identifier after the version and the variant are set, and their digits
-- (internal/id/id.go).
use Prim.Native.Nat.{◌%◌, bit_and, bit_or}
use Prim.Native.Char.{Char, code}
use native.Mathlib.Decide.{ℕ_discrete}
use run_state.Base.{
  leb, ◌≢◌, ◌≡◌, ◌||◌, ◌==◌, ◌<◌, ◌-◌, ◌+◌, ◌&&◌, ℕ, zero, true, suc, refl, if◌then◌else◌, arith,
  Bool,
}
use run_state.Ids.{stamp, hex_digit, Bytes}

-- The values of a Go `byte`.
abbrev pub IsBytes : Bytes → Type 0
IsBytes b = (i : ℕ) → b i < 256

-- Over a small range, every value is tested by evaluation.
unfoldable pub all_below : ℕ → (ℕ → Bool) → Bool
all_below zero test = true
all_below (suc n) test = test n && all_below n test

pub all_below_sound :
    (n : ℕ) (test : ℕ → Bool) (x : ℕ) → all_below n test ≡ true → x < n → test x ≡ true
unfolding all_below
all_below_sound zero test x h below = absurd (omega (arith, below))
all_below_sound (suc n) test x h below = ground (arith, all_below_sound n test x)

pub ==-eq : (a b : ℕ) → (a == b) ≡ true → a ≡ b
==-eq a b h = ground arith

version_table : all_below 256 (λ x. bit_or (bit_and x 0x0f) 0x40 == 64 + x % 16) ≡ true
unfolding all_below
version_table = refl

variant_table : all_below 256 (λ x. bit_or (bit_and x 0x3f) 0x80 == 128 + x % 64) ≡ true
unfolding all_below
variant_table = refl

pub stamp-version : (b : Bytes) → IsBytes b → stamp b 6 ≡ 64 + b 6 % 16
unfolding stamp
stamp-version b bytes = ==-eq _ _ (all_below_sound 256 _ (b 6) version_table (bytes 6))

pub stamp-variant : (b : Bytes) → IsBytes b → stamp b 8 ≡ 128 + b 8 % 64
unfolding stamp
stamp-variant b bytes = ==-eq _ _ (all_below_sound 256 _ (b 8) variant_table (bytes 8))

pub stamp-rest : (b : Bytes) (i : ℕ) → i ≢ 6 → i ≢ 8 → stamp b i ≡ b i
unfolding stamp
stamp-rest b i other third = ground (arith, other, third)

pub stamp-IsBytes : (b : Bytes) → IsBytes b → IsBytes (stamp b)
stamp-IsBytes b bytes i = elim (ℕ_discrete i 6) [
  | yes e ↦ rw e (omega (arith, stamp-version b bytes))
  | no n ↦ elim (ℕ_discrete i 8) [
    | yes e ↦ rw e (omega (arith, stamp-variant b bytes))
    | no m ↦ omega (arith, stamp-rest b i n m, bytes i)
  ]
]

abbrev pub is_hex : Char → Bool
is_hex c = (leb 48 (code c) && leb (code c) 57) || (leb 97 (code c) && leb (code c) 102)

-- The value of a digit.
abbrev pub hex_value : Char → ℕ
hex_value c = if leb (code c) 57 then code c - 48 else code c - 87

hex_table : all_below 16 (λ x. is_hex (hex_digit x) && (hex_value (hex_digit x) == x)) ≡ true
unfolding all_below hex_digit
hex_table = refl

hex_digit_lem : (n : ℕ) → n < 16 → (is_hex (hex_digit n) && (hex_value (hex_digit n) == n)) ≡ true
hex_digit_lem n h = all_below_sound 16 _ n hex_table h

pub hex_digit-is_hex : (n : ℕ) → n < 16 → is_hex (hex_digit n) ≡ true
hex_digit-is_hex n h = ground (arith, hex_digit_lem n h)

pub hex_value-hex_digit : (n : ℕ) → n < 16 → hex_value (hex_digit n) ≡ n
hex_value-hex_digit n h = ground (arith, hex_digit_lem n h)
