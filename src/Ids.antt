-- ===== src/Ids.antt =====
-- Identifiers (internal/id/id.go). The bytes that `rand.Read` fills in are an argument, or the text of
-- its error.
pub mod Stamp
pub mod Shape
pub mod Distinct
use Prim.Native.Nat.{◌/◌, ◌%◌, bit_and, bit_or}
use Prim.Native.Char.{Char, nul}
use Prim.Native.String
use run_state.Base.{ℕ, zero, suc, ◌==◌, if◌then◌else◌, String, Result, ok, err}

-- `[16]byte`, by the index of a byte.
abbrev pub Bytes : Type 0
Bytes = ℕ → ℕ

-- `b[i] = v`
abbrev pub set_byte : ℕ → ℕ → Bytes → Bytes
set_byte i v b j = if i == j then v else b j

-- The version and the variant of the identifier.
unfoldable pub stamp : Bytes → Bytes
stamp b =
    let b' = set_byte 6 (bit_or (bit_and (b 6) 0x0f) 0x40) b in
    set_byte 8 (bit_or (bit_and (b' 8) 0x3f) 0x80) b'

-- The character of a text at a position.
abbrev pub digit_at : String → ℕ → Char
digit_at String.[] n = nul
digit_at (String.◌∷◌ c s) zero = c
digit_at (String.◌∷◌ c s) (suc n) = digit_at s n

unfoldable pub hex_digit : ℕ → Char
hex_digit n = digit_at "0123456789abcdef" n

-- `%x` of a slice: two digits for each of `n` bytes from the byte `i` on, before the rest of the text. The
-- widths of the format are those of the slices.
unfoldable pub hex_slice : Bytes → ℕ → ℕ → String → String
hex_slice b i zero rest = rest
hex_slice b i (suc n) rest =
    String.◌∷◌ (hex_digit (b i / 16))
      (String.◌∷◌ (hex_digit (b i % 16)) (hex_slice b (suc i) n rest))

-- A dash of the format, before the rest of the text.
abbrev pub dash : String → String
dash rest = String.◌∷◌ "-" rest

-- `fmt.Sprintf("%08x-%04x-%04x-%04x-%012x", b[0:4], b[4:6], b[6:8], b[8:10], b[10:16])`
unfoldable pub print_id : Bytes → String
print_id b = hex_slice b 0 4 (
    dash (
      hex_slice b 4 2
        (dash (hex_slice b 6 2 (dash (hex_slice b 8 2 (dash (hex_slice b 10 6 ""))))))))

-- `New`
unfoldable pub draw_id : Result String Bytes → Result String String
draw_id (err problem) = err (String.◌++◌ "generate id: " problem)
draw_id (ok b) = ok (print_id (stamp b))
