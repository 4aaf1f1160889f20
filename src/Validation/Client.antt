-- ===== src/Validation/Client.antt =====
-- Which client identifiers are accepted.
use mcp_authflow.Prelude.{◌≤◌, ◌≡◌, refl, true, [], ◌∷◌, ◌++◌, ◌↔◌, length, all, ap}
use mcp_authflow.Text.{Text, newline, chomp, match_repeat_iff}
use mcp_authflow.Validation.{is_id_char, validate_client_id}

-- A client identifier is accepted exactly when, but for one newline that may end it, it has 1 to 256
-- characters, all of them letters, digits, hyphens or underscores of ASCII.
pub validate_client_id_iff :
    (cs : Text)
    → (validate_client_id cs ≡ true)
      ↔ ((1 ≤ length (chomp cs)) × (length (chomp cs) ≤ 256) × (all is_id_char (chomp cs) ≡ true))
unfolding validate_client_id is_id_char
validate_client_id_iff cs = match_repeat_iff is_id_char refl 1 256 cs

chomp-newline : (cs : Text) → chomp (cs ++ newline ∷ []) ≡ cs
chomp-newline [] = refl
chomp-newline (c ∷ []) = refl
chomp-newline (c ∷ d ∷ cs) = ap (◌∷◌ c) (chomp-newline (d ∷ cs))

-- The pattern is no guard against a newline: every identifier of 1 to 256 valid characters is still
-- accepted with a newline behind it.
pub validate_client_id-newline :
    (cs : Text)
    → 1 ≤ length cs
    → length cs ≤ 256
    → all is_id_char cs ≡ true
    → validate_client_id (cs ++ newline ∷ []) ≡ true
validate_client_id-newline cs lo hi a =
    (validate_client_id_iff (cs ++ newline ∷ [])).1 (rw chomp-newline (lo, hi, a))
