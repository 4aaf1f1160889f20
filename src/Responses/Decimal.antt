-- ===== src/Responses/Decimal.antt =====
-- Decimal texts read back.
use mcp_authflow.Prelude.{
  ℕ, zero, suc, ◌+◌, ◌*◌, ◌-◌, ◌/◌, ◌%◌, ◌<◌, ◌≡◌, [], ◌∷◌, ltb, arith, Bool-cases, inl, inr,
}
use mcp_authflow.Text.{Text}
use mcp_authflow.Responses.{digits, decimal}

-- the number that a text of digits stands for, after the digits of `n`
abbrev pub read_from : ℕ → Text → ℕ
read_from n [] = n
read_from n (c ∷ cs) = read_from (n * 10 + (c - b'0')) cs

read_from-digits :
    (fuel n : ℕ) (after : Text) → n < fuel → read_from 0 (digits fuel n after) ≡ read_from n after
unfolding digits
read_from-digits zero n after h = absurd (omega arith)
read_from-digits (suc fuel) n after h = elim (Bool-cases (ltb n 10)) [
  | inl small ↦ ground arith
  | inr large ↦ ground (arith, read_from-digits fuel (n / 10) ((b'0' + n % 10) ∷ after))
]

-- The decimal text of a number reads back as the number.
pub read_from-decimal : (n : ℕ) → read_from 0 (decimal n) ≡ n
unfolding decimal
read_from-decimal n = read_from-digits (suc n) n [] (omega arith)
