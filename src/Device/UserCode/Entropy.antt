-- ===== src/Device/UserCode/Entropy.antt =====
-- When a user code is generated at all.
use native.Mathlib.Nat.{pow-suc, add-suc}
use native.Mathlib.Decide.{dec_lt}
use mcp_authflow.Prelude.{
  ℕ, zero, suc, ◌+◌, ◌*◌, ◌^◌, ◌≤◌, ◌<◌, ◌≡◌, refl, List, ◌↔◌, arith, ◌-◌, true, false,
}
use mcp_authflow.Prelude.Method.{raise}
use mcp_authflow.Device.UserCode.{value_error, generate_user_code, is_weak}

pow-ge : (k : ℕ) → 2 ^ 20 ≤ 20 ^ (5 + k)
pow-ge zero = omega arith
pow-ge (suc k) = rw (add-suc, pow-suc 20 (5 + k)) (omega (arith, pow-ge k))

is_weak_below : (n : ℕ) → n ≤ 4 → is_weak n ≡ true
is_weak_below zero h = refl
is_weak_below (suc zero) h = refl
is_weak_below (suc (suc zero)) h = refl
is_weak_below (suc (suc (suc zero))) h = refl
is_weak_below (suc (suc (suc (suc zero)))) h = refl
is_weak_below (suc (suc (suc (suc (suc n))))) h = absurd (omega arith)

is_weak_above : (n : ℕ) → 5 ≤ n → is_weak n ≡ false
is_weak_above n h = let e : n ≡ 5 + (n - 5) = omega arith in rw e (ground (arith, pow-ge (n - 5)))

-- `generate_user_code` raises ValueError exactly when the code would have fewer than five
-- characters, the least number that carries 20 bits.
pub generate_user_code_raises :
    (randbelow : ℕ → ℕ → ℕ) (groups size : ℕ) (separator : List ℕ)
    → (generate_user_code randbelow groups size separator ≡ raise value_error) ↔ (groups * size < 5)
unfolding generate_user_code
generate_user_code_raises randbelow zero size separator = (λ _. omega arith, λ _. refl)
generate_user_code_raises randbelow (suc g) zero separator = (λ _. omega arith, λ _. ground arith)
generate_user_code_raises randbelow (suc g) (suc s) separator =
    let n = suc g * suc s in
    elim (dec_lt n 5) [
      | yes few ↦ (λ _. few, λ _. ground (arith, is_weak_below n (omega arith)))
      | no many ↦
          (λ raised. ground (arith, is_weak_above n (omega arith)), λ few. absurd (many few))
    ]
