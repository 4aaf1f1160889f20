-- ===== src/Tests/Text.antt =====
-- Patterns, PKCE and the parsers of form fields at work.
use mcp_authflow.Prelude.{
  ℕ, ◌≤◌, ◌≡◌, ◌↔◌, ◌⊎◌, refl, String, true, false, List, ◌==◌, if◌then◌else◌, [], ◌∷◌, length, all,
}
use mcp_authflow.Prelude.Method.{raise}
use mcp_authflow.Text.{codes, match_repeat}
use mcp_authflow.Json.{array, cons, nil, number, str, Loads, loaded, load_fault, recursion_error}
use mcp_authflow.Pkce.{
  s256, is_unreserved, validate_code_verifier, validate_code_challenge, base64url_char, base64url,
  verify_pkce,
}
use mcp_authflow.Pkce.Challenge.{
  IsSha256, validate_code_verifier_iff, validate-base64url, verify_pkce_iff,
}
use mcp_authflow.Validation.{
  is_id_char, validate_client_id, raw, type_error, uncaught, scope_of_json, parse_scope_field,
  parse_json_field, join_spaces,
}
use mcp_authflow.Validation.Client.{validate_client_id_iff}
use mcp_authflow.Validation.Fields.{
  IsMixedArray, IsFaultyArray, IsFaultyText, parse_scope_field_raises,
}

program : Unit {0}
unfolding match_repeat is_id_char validate_client_id is_unreserved validate_code_verifier
    validate_code_challenge base64url_char base64url verify_pkce parse_scope_field scope_of_json
    join_spaces
program = tt

ids :
    (validate_client_id (codes "my-client_1") ≡ true)
    × (validate_client_id (codes "my client") ≡ false)
    × (validate_client_id [] ≡ false)
unfolding program
ids = (refl, refl, refl)

validate_client_id_iff_example :
    (validate_client_id (codes "a b") ≡ true)
    ↔ ((1 ≤ 3) × (3 ≤ 256) × (all is_id_char (codes "a b") ≡ true))
validate_client_id_iff_example = validate_client_id_iff (codes "a b")

id_chars : all is_id_char (codes "app") ≡ true
unfolding program
id_chars = refl

-- the test vector of RFC 7636, appendix B
abbrev rfc_digest : List ℕ
rfc_digest =
    19 ∷ 211 ∷ 30 ∷ 150 ∷ 26 ∷ 26 ∷ 216 ∷ 236 ∷ 47 ∷ 22 ∷ 177 ∷ 12 ∷ 76 ∷ 152 ∷ 46 ∷ 8 ∷ 118 ∷ 168
    ∷ 120 ∷ 173 ∷ 109 ∷ 241 ∷ 68 ∷ 86 ∷ 110 ∷ 225 ∷ 137 ∷ 74 ∷ 203 ∷ 112 ∷ 249 ∷ 195 ∷ []

abbrev sha256 : String → List ℕ
sha256 s = rfc_digest

abbrev rfc_challenge : String
rfc_challenge = "E9Melhoa2OwvFrEMTJguCHaoeK1t8URWbuGJSstw-cM"

rfc_encoded : base64url rfc_digest ≡ codes rfc_challenge
unfolding program
rfc_encoded = refl

sha256-IsSha256 : IsSha256 sha256
sha256-IsSha256 s = (refl, refl)

validate-base64url_example :
    (length (base64url rfc_digest) ≡ 43) × (validate_code_challenge (base64url rfc_digest) ≡ true)
validate-base64url_example = validate-base64url sha256 "v" sha256-IsSha256

validate_code_verifier_iff_example :
    (validate_code_verifier (codes "short") ≡ true)
    ↔ ((43 ≤ 5) × (5 ≤ 128) × (all is_unreserved (codes "short") ≡ true))
validate_code_verifier_iff_example = validate_code_verifier_iff (codes "short")

verify_pkce_iff_example : (verify_pkce sha256 "v" rfc_challenge s256 false ≡ true) ↔ (
    ((s256 ≡ "S256") × (codes rfc_challenge ≡ base64url (sha256 "v")))
    ⊎ ((s256 ≡ "plain") × (false ≡ true) × ("v" ≡ rfc_challenge)))
verify_pkce_iff_example = verify_pkce_iff sha256 "v" rfc_challenge s256 false

rfc_verified : verify_pkce sha256 "v" rfc_challenge s256 false ≡ true
unfolding program
rfc_verified = refl

abbrev loads : String → Loads
loads s =
    if s == "[["
    then load_fault recursion_error
    else loaded (array (cons (str "read") (cons (number "1") nil)))

mixed_array : parse_scope_field loads (raw "[\"read\", 1]") ≡ raise type_error
unfolding program
mixed_array = refl

nested : parse_scope_field loads (raw "[[") ≡ raise (uncaught recursion_error)
unfolding program
nested = refl

parse_scope_field_raises_example :
    ((parse_scope_field loads (raw "[[") ≡ raise type_error) ↔ IsMixedArray loads (raw "[["))
    × ((parse_scope_field loads (raw "[[") ≡ raise (uncaught recursion_error))
        ↔ IsFaultyArray loads recursion_error (raw "[["))
    × ((parse_json_field loads (raw "[[") [] ≡ raise recursion_error)
        ↔ IsFaultyText loads recursion_error (raw "[["))
parse_scope_field_raises_example = parse_scope_field_raises loads (raw "[[") recursion_error []
