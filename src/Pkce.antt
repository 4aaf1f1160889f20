-- ===== src/Pkce.antt =====
-- mcp_authflow/pkce.py. SHA-256 is the parameter `sha256_utf8`, the digest of a text's UTF-8 bytes
-- as a list of bytes; `base64.urlsafe_b64encode` is written out.
pub mod Challenge
use mcp_authflow.Prelude.{
  ℕ, zero, suc, ◌+◌, ◌-◌, ◌*◌, ◌/◌, ◌%◌, String, Bool, true, false, ◌&&◌, ◌||◌, Option, none, some,
  List, [], ◌∷◌, leb, ltb, eqb, ◌==◌, if◌then◌else◌, contains,
}
use mcp_authflow.Text.{Text, codes, match_repeat, same_text}

abbrev pub s256 : String
s256 = "S256"

abbrev pub plain : String
plain = "plain"

abbrev pub allowed_code_challenge_methods : List String
allowed_code_challenge_methods = s256 ∷ plain ∷ []

abbrev pub s256_only_code_challenge_methods : List String
s256_only_code_challenge_methods = s256 ∷ []

abbrev pub between : ℕ → ℕ → ℕ → Bool
between lo hi c = leb lo c && leb c hi

-- [A-Za-z0-9._~\-]
unfoldable pub is_unreserved : ℕ → Bool
is_unreserved c =
    between b'A' b'Z' c
    || (between b'a' b'z' c
        || (between b'0' b'9' c || (eqb c b'.' || (eqb c b'_' || (eqb c b'~' || eqb c b'-')))))

unfoldable pub validate_code_challenge_method : Option String → Bool → Bool
validate_code_challenge_method none allow_plain = false
validate_code_challenge_method (some method) allow_plain =
    contains
      (if allow_plain then allowed_code_challenge_methods else s256_only_code_challenge_methods)
      method

-- bool(_PKCE_CHARSET.match(code_verifier))
unfoldable pub validate_code_verifier : Text → Bool
validate_code_verifier code_verifier = match_repeat is_unreserved 43 128 code_verifier

-- bool(_PKCE_CHARSET.match(code_challenge))
unfoldable pub validate_code_challenge : Text → Bool
validate_code_challenge code_challenge = match_repeat is_unreserved 43 128 code_challenge

-- the character of the URL-safe alphabet for a number below 64
unfoldable pub base64url_char : ℕ → ℕ
base64url_char n =
    if ltb n 26
    then n + b'A'
    else if ltb n 52
    then n - 26 + b'a'
    else if ltb n 62
    then n - 52 + b'0'
    else if eqb n 62
    then b'-'
    else b'_'

-- base64.urlsafe_b64encode(digest).rstrip(b"=").decode("ascii"): three bytes are four characters, and
-- one or two bytes at the end are two or three, whose padding is stripped
unfoldable pub base64url : List ℕ → Text
base64url [] = []
base64url (a ∷ []) = base64url_char (a / 4) ∷ base64url_char (a % 4 * 16) ∷ []
base64url (a ∷ b ∷ []) =
    base64url_char (a / 4) ∷ base64url_char (a % 4 * 16 + b / 16) ∷ base64url_char (b % 16 * 4) ∷ []
base64url (a ∷ b ∷ c ∷ rest) =
    base64url_char (a / 4)
    ∷ base64url_char (a % 4 * 16 + b / 16)
    ∷ base64url_char (b % 16 * 4 + c / 64)
    ∷ base64url_char (c % 64)
    ∷ base64url rest

unfoldable pub verify_pkce : (String → List ℕ) → String → String → String → Bool → Bool
verify_pkce sha256_utf8 code_verifier code_challenge method allow_plain =
    if method == s256
    then same_text (base64url (sha256_utf8 code_verifier)) (codes code_challenge)
    else if (method == plain) && allow_plain
    then code_verifier == code_challenge
    else false
