-- ===== src/Config.antt =====
-- Settings from the environment (internal/config/config.go). `getenv` gives the empty text for a variable
-- that is not set.
use Prim.Native.String
use run_state.Base.{
  ltb, ◌≡◌, ◌∙◌, true, sym, str_eq, or_fail, ok, not, inr, inl, if◌then◌else◌, guard-eq-ok, guard,
  false, arith, ap, String, Result, Option, Bool-cases, Bool, >>=-eq-ok, ◌>>=◌, ◌>>◌,
}
use run_state.Executor.Decode.{negsuc, pos, ℤ}

-- `value > 0`
abbrev pub exceeds_zero : ℤ → Bool
exceeds_zero (pos n) = ltb 0 n
exceeds_zero (negsuc n) = false

-- A text that a parser takes for a positive number.
abbrev pub positive_setting : (String → Option ℤ) → String → String → Result String ℤ
positive_setting parse value problem = do
  number ← or_fail (parse value) problem
  guard (exceeds_zero number) problem
  ok number

module _ (getenv : String → String) where
  -- `String`
  unfoldable pub config_string : String → String → String
  config_string name fallback = if not (str_eq (getenv name) "") then getenv name else fallback

  -- `Duration`
  unfoldable pub config_duration : (String → Option ℤ) → String → ℤ → Result String ℤ
  config_duration parse_duration name fallback =
      if str_eq (getenv name) ""
      then ok fallback
      else positive_setting parse_duration (getenv name)
          (String.◌++◌ name " must be a positive duration")

  -- `Int`
  unfoldable pub config_int : (String → Option ℤ) → String → ℤ → Result String ℤ
  config_int atoi name fallback =
      if str_eq (getenv name) ""
      then ok fallback
      else positive_setting atoi (getenv name) (String.◌++◌ name " must be a positive integer")

  positive_setting-positive :
      (parse : String → Option ℤ) (value problem : String) {n : ℤ}
      → positive_setting parse value problem ≡ ok n
      → exceeds_zero n ≡ true
  positive_setting-positive parse value problem {n} h =
      let (m, parsed, h) = >>=-eq-ok (or_fail (parse value) problem) _ h in
      let (u, positive, h) = >>=-eq-ok (guard (exceeds_zero m) problem) _ h in
      let same : m ≡ n = ground (arith, h) in
      ap exceeds_zero (sym same) ∙ guard-eq-ok (exceeds_zero m) problem positive

  pub config_duration-positive :
      (parse_duration : String → Option ℤ) (name : String) (fallback : ℤ) {n : ℤ}
      → exceeds_zero fallback ≡ true
      → config_duration parse_duration name fallback ≡ ok n
      → exceeds_zero n ≡ true
  unfolding config_duration
  config_duration-positive parse_duration name fallback {n} positive h =
      elim (Bool-cases (str_eq (getenv name) "")) [
        | inl unset ↦
            let h' = rw (unset, config_duration) at h in
            let same : fallback ≡ n = ground (arith, h') in ap exceeds_zero (sym same) ∙ positive
        | inr set ↦
            positive_setting-positive parse_duration (getenv name) _
              (rw (set, config_duration) at h)
      ]
