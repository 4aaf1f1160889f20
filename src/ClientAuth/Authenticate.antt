-- ===== src/ClientAuth/Authenticate.antt =====
-- mcp_authflow/client_auth/jwt.py: `authenticate`, `_authenticate`, `_verify_jwt` and
-- `_decode_and_validate_claims`. The replay cache is an argument: `check_and_record` is
-- `_check_and_record_jti`, or `_check_and_record_jti_redis` where there is a Redis client.
use mcp_authflow.Prelude.{
  ℕ, ◌+◌, String, Bool, true, false, not, Option, none, some, List, [], ◌∷◌, ltb, ◌==◌,
  if◌then◌else◌,
}
use mcp_authflow.Prelude.Time.{seconds}
use mcp_authflow.Prelude.Method.{Result, ok, raise, Method, pure, throw, ◌>>◌}
use mcp_authflow.ClientAuth.{
  Pyjwt, PyjwtError, expired_signature, invalid_audience_error, invalid_issuer_error, decode_error,
  invalid_token, other, Payload, Jwks, JwtAuthError, invalid_assertion_type, missing_assertion,
  jwks_not_retrieved, invalid_format, algorithm_blocked, algorithm_not_allowed, no_matching_key,
  subject_mismatch, too_old, replay_detected, jwt_expired, invalid_audience, invalid_issuer,
  decode_failed, invalid_jwt, verification_failed, jwt_client_assertion_type,
  jwt_max_clock_skew_seconds, jwt_max_lifetime_seconds, is_allowed_algorithm, is_blocked_algorithm,
}
use mcp_authflow.ClientAuth.Keys.{find_signing_key}

-- the readings of the clock in one call, in order: `now` of `_verify_jwt`, and PyJWT's
pub record Readings : Type 0 where
  pub verified : ℕ
  pub decoded : ℕ

abbrev pub get_or {ℓ} : {A : Type ℓ} → Option A → A → A
get_or none d = d
get_or (some a) d = a

-- the `except` clauses of `_decode_and_validate_claims`, then that of `_authenticate`
unfoldable pub translate : PyjwtError → JwtAuthError
translate expired_signature = jwt_expired
translate invalid_audience_error = invalid_audience
translate invalid_issuer_error = invalid_issuer
translate decode_error = decode_failed
translate invalid_token = invalid_jwt
translate other = verification_failed

-- the `except` clause round `get_unverified_header`, then that of `_authenticate`
unfoldable pub translate_header : PyjwtError → JwtAuthError
translate_header decode_error = invalid_format
translate_header _ = verification_failed

abbrev pub required_claims : List String
required_claims = "iss" ∷ "sub" ∷ "aud" ∷ "exp" ∷ "iat" ∷ "jti" ∷ []

-- not jwks
abbrev pub is_empty : {Material : Type 0} → Jwks Material → Bool
is_empty jwks = elim jwks.keys [ none ↦ not jwks.has_others | some _ ↦ false ]

module _ {Cache : Type 0} (check_and_record : String → ℕ → Cache → Bool × Cache) where
  -- from `jti = payload["jti"]` on; a missing `jti` is a KeyError, which `_authenticate` turns
  -- into its own error
  unfoldable pub record_payload : ℕ → Payload → Method Cache JwtAuthError Payload
  record_payload now payload cache = elim payload.jti [
    | none ↦ (raise verification_failed, cache)
    | some jti ↦
        let exp = get_or payload.exp (now + seconds jwt_max_lifetime_seconds) in
        let (accepted, cache') = check_and_record jti exp cache in
        if accepted then (ok payload, cache') else (raise replay_detected, cache')
  ]

  -- from the test of `sub` on
  unfoldable pub check_payload : ℕ → String → Payload → Method Cache JwtAuthError Payload
  check_payload now client_id payload =
      if not (elim payload.sub [ none ↦ false | some sub ↦ sub == client_id ])
      then throw subject_mismatch
      else if ltb
          (get_or payload.iat 0
            + (seconds jwt_max_lifetime_seconds + seconds jwt_max_clock_skew_seconds))
          now
      then throw too_old
      else record_payload now payload

module _ (pyjwt : Pyjwt) (token_endpoint : String) where
  open pyjwt use {Key, Material, get_unverified_header, decode}

  unfoldable pub decode_and_validate_claims :
      ℕ → String → Key → String → String → Result JwtAuthError Payload
  unfolding translate
  decode_and_validate_claims now assertion signing_key alg client_id =
      elim (decode assertion signing_key (alg ∷ []) token_endpoint client_id required_claims
        (seconds jwt_max_clock_skew_seconds) now) [
          | ok payload ↦ ok payload
          | raise e ↦ raise (translate e)
        ]

  module _ {Cache : Type 0} (check_and_record : String → ℕ → Cache → Bool × Cache) where
    -- from the search for the key on
    unfoldable pub verify_signed :
        Readings
        → String
        → String
        → Jwks Material
        → Option String
        → String
        → Method Cache JwtAuthError Payload
    verify_signed at client_id assertion jwks kid alg cache =
        elim (find_signing_key pyjwt jwks kid alg) [
          | none ↦ (raise no_matching_key, cache)
          | some signing_key ↦
              elim (decode_and_validate_claims at.decoded assertion signing_key alg client_id) [
                | raise e ↦ (raise e, cache)
                | ok payload ↦ check_payload check_and_record at.verified client_id payload cache
              ]
        ]

    unfoldable pub verify_jwt :
        Readings → String → String → Jwks Material → Method Cache JwtAuthError Payload
    unfolding translate_header
    verify_jwt at client_id assertion jwks cache = elim (get_unverified_header assertion) [
      | raise e ↦ (raise (translate_header e), cache)
      | ok header ↦
          let alg = get_or header.alg "RS256" in
          if is_blocked_algorithm alg
          then (raise algorithm_blocked, cache)
          else if not (is_allowed_algorithm alg)
          then (raise algorithm_not_allowed, cache)
          else verify_signed at client_id assertion jwks header.kid alg cache
    ]

    -- `jwks` is what the provider answered
    unfoldable pub authenticate :
        Readings
        → Option (Jwks Material)
        → String
        → String
        → String
        → Method Cache JwtAuthError Bool
    authenticate at jwks client_id client_assertion client_assertion_type cache =
        if not (client_assertion_type == jwt_client_assertion_type)
        then (raise invalid_assertion_type, cache)
        else if client_assertion == ""
        then (raise missing_assertion, cache)
        else elim jwks [
          | none ↦ (raise jwks_not_retrieved, cache)
          | some document ↦
              if is_empty document
              then (raise jwks_not_retrieved, cache)
              else (do verify_jwt at client_id client_assertion document; pure true) cache
        ]
