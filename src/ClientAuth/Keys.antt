-- ===== src/ClientAuth/Keys.antt =====
-- mcp_authflow/client_auth/jwt.py: `_key_matches`, `_construct_key` and `_find_signing_key`.
use text.Mathlib.Text.{starts_with}
use mcp_authflow.Prelude.{
  String, Bool, true, false, not, ◌&&◌, Option, none, some, List, [], ◌∷◌, ◌==◌, if◌then◌else◌,
}
use mcp_authflow.ClientAuth.{KeyData, Jwks, Pyjwt}

-- _ALG_PREFIX_TO_KTY.get(alg[:2])
unfoldable pub expected_kty : String → Option String
expected_kty alg =
    if starts_with alg "RS"
    then some "RSA"
    else if starts_with alg "ES"
    then some "EC"
    else if starts_with alg "PS"
    then some "RSA"
    else none

-- `value and value != wanted`: a member that is there, is not the empty text and differs
abbrev pub is_other : Option String → String → Bool
is_other none wanted = false
is_other (some value) wanted = not (value == "") && not (value == wanted)

-- `value == wanted`, where `None` equals no text
abbrev pub is_text : Option String → String → Bool
is_text none wanted = false
is_text (some value) wanted = value == wanted

-- `kid and key_data.get("kid") != kid`
abbrev pub is_other_kid : Option String → Option String → Bool
is_other_kid none key_kid = false
is_other_kid (some kid) key_kid = not (kid == "") && not (is_text key_kid kid)

-- `expected_kty is None or key_data.get("kty") == expected_kty`
abbrev pub is_kty : Option String → Option String → Bool
is_kty none kty = true
is_kty (some expected) kty = is_text kty expected

unfoldable pub key_matches : {Material : Type 0} → KeyData Material → Option String → String → Bool
unfolding expected_kty
key_matches key_data kid alg =
    if is_other_kid kid key_data.kid
    then false
    else if is_other key_data.alg alg
    then false
    else if is_other key_data.use_ "sig"
    then false
    else is_kty (expected_kty alg) key_data.kty

module _ (pyjwt : Pyjwt) where
  open pyjwt use {Key, Material, from_dict}

  -- the loop of `_find_signing_key`; `from_dict` is `_construct_key`, `none` if it raises
  unfoldable pub find_in : List (KeyData Material) → Option String → String → Option Key
  find_in [] kid alg = none
  find_in (key_data ∷ keys) kid alg =
      let rest = find_in keys kid alg in
      if key_matches key_data kid alg
      then elim (from_dict key_data) [ some key ↦ some key | none ↦ rest ]
      else rest

  unfoldable pub find_signing_key : Jwks Material → Option String → String → Option Key
  unfolding find_in
  find_signing_key jwks kid alg = elim jwks.keys [ none ↦ none | some keys ↦ find_in keys kid alg ]
