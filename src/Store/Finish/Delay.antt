-- ===== src/Store/Finish/Delay.antt =====
-- The delay before a retry (`FinishStep`, internal/store/store.go).
use native.Mathlib.Nat.{pow-le-pow_right}
use run_state.Base.{zero, ltb, ◌≤◌, ℕ, suc, refl, if◌then◌else◌, arith, ◌≡◌, ◌^◌, ◌-◌, min}
use run_state.Store.Finish.{delay_seconds}

-- The exponent is cut at 6, which makes no difference under a cap of 60.
capped :
    (k : ℕ) → (let delay : ℕ = 2 ^ min k 6 in if ltb 60 delay then 60 else delay) ≡ min (2 ^ k) 60
capped zero = refl
capped (suc zero) = refl
capped (suc (suc zero)) = refl
capped (suc (suc (suc zero))) = refl
capped (suc (suc (suc (suc zero)))) = refl
capped (suc (suc (suc (suc (suc zero))))) = refl
capped (suc (suc (suc (suc (suc (suc k)))))) =
    let n : ℕ = suc (suc (suc (suc (suc (suc k))))) in
    let large : 64 ≤ 2 ^ n =
      pow-le-pow_right {n = 2} (ground arith) {i = 6} {j = n} (omega arith) in
    let cut : min n 6 ≡ 6 = omega arith in rw cut (omega (arith, large))

-- The delay after attempt n is 2 ^ (n - 1) seconds, or a minute where that is more.
pub delay_seconds-min : (n : ℕ) → delay_seconds n ≡ min (2 ^ (n - 1)) 60
unfolding delay_seconds
delay_seconds-min n = capped (n - 1)
