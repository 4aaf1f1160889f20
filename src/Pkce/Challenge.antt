-- ===== src/Pkce/Challenge.antt =====
-- Which verifiers and challenges are well formed, and what is verified against what.
use mcp_authflow.Prelude.{
  ℕ, zero, suc, ◌+◌, ◌*◌, ◌≤◌, ◌<◌, ◌≡◌, refl, String, Bool, true, List, [], ◌∷◌, ◌↔◌, ◌⊎◌, inl,
  inr, some, ltb, ◌==◌, eq_iff, length, all, arith, ap, ◌∙◌, ◌/◌, ◌%◌, Bool-cases, sym,
}
use mcp_authflow.Text.{Text, codes, chomp, match_repeat_iff, same_text_iff}
use mcp_authflow.Pkce.{
  s256, plain, is_unreserved, validate_code_challenge_method, validate_code_verifier,
  validate_code_challenge, base64url_char, base64url, verify_pkce,
}

-- A verifier is accepted exactly when, but for one newline that may end it, it has 43 to 128
-- characters, all of them unreserved.
pub validate_code_verifier_iff :
    (cs : Text)
    → (validate_code_verifier cs ≡ true) ↔ (
        (43 ≤ length (chomp cs))
        × (length (chomp cs) ≤ 128)
        × (all is_unreserved (chomp cs) ≡ true))
unfolding validate_code_verifier is_unreserved
validate_code_verifier_iff cs = match_repeat_iff is_unreserved refl 43 128 cs

base64url_char-is_unreserved : (n : ℕ) → n < 64 → is_unreserved (base64url_char n) ≡ true
unfolding base64url_char is_unreserved
base64url_char-is_unreserved n h = ground arith

abbrev pub is_byte : ℕ → Bool
is_byte b = ltb b 256

-- the number of characters for so many bytes, without padding
abbrev pub base64url_length : ℕ → ℕ
base64url_length zero = 0
base64url_length (suc zero) = 2
base64url_length (suc (suc zero)) = 3
base64url_length (suc (suc (suc n))) = 4 + base64url_length n

length-base64url : (bs : List ℕ) → length (base64url bs) ≡ base64url_length (length bs)
unfolding base64url
length-base64url [] = refl
length-base64url (a ∷ []) = refl
length-base64url (a ∷ b ∷ []) = refl
length-base64url (a ∷ b ∷ c ∷ rest) = omega (arith, length-base64url rest)

abbrev char : (n : ℕ) → n < 64 → is_unreserved (base64url_char n) ≡ true
char = base64url_char-is_unreserved

all_tail : (c : ℕ) (cs : Text) → all is_unreserved (c ∷ cs) ≡ true → all is_unreserved cs ≡ true
all_tail c cs h = ground arith

all-base64url : (bs : List ℕ) → all is_byte bs ≡ true → all is_unreserved (base64url bs) ≡ true
unfolding base64url
all-base64url [] h = refl
all-base64url (a ∷ []) h =
    let p : a < 256 = ground arith in
    rw (char (a / 4) (omega arith), char (a % 4 * 16) (omega arith)) refl
all-base64url (a ∷ b ∷ []) h =
    let p : a < 256 = ground arith in
    let q : b < 256 = ground arith in
    rw
      (
        char (a / 4) (omega arith),
        char (a % 4 * 16 + b / 16) (omega arith),
        char (b % 16 * 4) (omega arith),
      )
      refl
all-base64url (a ∷ b ∷ c ∷ rest) h =
    let p : a < 256 = ground arith in
    let q : b < 256 = ground arith in
    let r : c < 256 = ground arith in
    rw
      (
        char (a / 4) (omega arith),
        char (a % 4 * 16 + b / 16) (omega arith),
        char (b % 16 * 4 + c / 64) (omega arith),
        char (c % 64) (omega arith),
      )
      (all-base64url rest (ground arith))

chomp_unreserved : (cs : Text) → all is_unreserved cs ≡ true → chomp cs ≡ cs
unfolding is_unreserved
chomp_unreserved [] h = refl
chomp_unreserved (c ∷ []) h = ground arith
chomp_unreserved (c ∷ d ∷ cs) h = ap (◌∷◌ c) (chomp_unreserved (d ∷ cs) (all_tail c (d ∷ cs) h))

-- `sha256_utf8` answers with 32 bytes
abbrev pub IsSha256 : (String → List ℕ) → Type 0
IsSha256 sha256_utf8 =
    (s : String) → (length (sha256_utf8 s) ≡ 32) × (all is_byte (sha256_utf8 s) ≡ true)

-- The S256 challenge of any verifier has 43 characters and is accepted by `validate_code_challenge`.
pub validate-base64url :
    (sha256_utf8 : String → List ℕ) (verifier : String)
    → IsSha256 sha256_utf8
    → (length (base64url (sha256_utf8 verifier)) ≡ 43)
      × (validate_code_challenge (base64url (sha256_utf8 verifier)) ≡ true)
unfolding validate_code_challenge validate_code_verifier
validate-base64url sha256_utf8 verifier h =
    let bs = sha256_utf8 verifier in
    let cs = base64url bs in
    let unreserved = all-base64url bs (h verifier).1 in
    let whole = chomp_unreserved cs unreserved in
    let n : length cs ≡ 43 = length-base64url bs ∙ ap base64url_length (h verifier).0 in
    (n, (validate_code_verifier_iff cs).1 (rw whole (omega arith, omega arith, unreserved)))

-- A verification succeeds exactly when the method is S256 and the challenge is the encoded digest of
-- the verifier, or the method is "plain", that method is permitted, and the two are the same text.
-- Every other method fails.
pub verify_pkce_iff :
    (sha256_utf8 : String → List ℕ) (verifier challenge method : String) (allow_plain : Bool)
    → (verify_pkce sha256_utf8 verifier challenge method allow_plain ≡ true) ↔ (
        ((method ≡ "S256") × (codes challenge ≡ base64url (sha256_utf8 verifier)))
        ⊎ ((method ≡ "plain") × (allow_plain ≡ true) × (verifier ≡ challenge)))
unfolding verify_pkce
verify_pkce_iff sha256_utf8 verifier challenge method allow_plain = (sound, complete)
  where
    computed : Text
    computed = base64url (sha256_utf8 verifier)

    sound :
        verify_pkce sha256_utf8 verifier challenge method allow_plain ≡ true
        → ((method ≡ "S256") × (codes challenge ≡ base64url (sha256_utf8 verifier)))
          ⊎ ((method ≡ "plain") × (allow_plain ≡ true) × (verifier ≡ challenge))
    sound h = elim (Bool-cases (method == s256)) [
      | inl m ↦
          inl (
            (eq_iff method s256).0 m,
            sym ((same_text_iff computed (codes challenge)).0 (rw m at h)),
          )
      | inr m ↦ inr (
        ground (arith, eq_iff method plain),
        ground arith,
        ground (arith, eq_iff verifier challenge),
      )
    ]

    complete :
        ((method ≡ "S256") × (codes challenge ≡ base64url (sha256_utf8 verifier)))
          ⊎ ((method ≡ "plain") × (allow_plain ≡ true) × (verifier ≡ challenge))
        → verify_pkce sha256_utf8 verifier challenge method allow_plain ≡ true
    complete (inl (m, c)) =
        rw ((eq_iff method s256).1 m) ((same_text_iff computed (codes challenge)).1 (sym c))
    complete (inr (m, a, v)) = rw (m, a) ((eq_iff verifier challenge).1 v)

-- A method that a verification succeeds with is one that the method check allows under the same
-- policy.
pub verify_pkce_method :
    (sha256_utf8 : String → List ℕ) (verifier challenge method : String) (allow_plain : Bool)
    → verify_pkce sha256_utf8 verifier challenge method allow_plain ≡ true
    → validate_code_challenge_method (some method) allow_plain ≡ true
unfolding verify_pkce validate_code_challenge_method
verify_pkce_method sha256_utf8 verifier challenge method allow_plain h =
    ground (arith, eq_iff method s256, eq_iff method plain, eq_iff s256 method, eq_iff plain method)
