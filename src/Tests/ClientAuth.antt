-- ===== src/Tests/ClientAuth.antt =====
-- Client authentication at work, with a PyJWT that knows three assertions.
use mcp_authflow.Prelude.{
  ◌⊎◌, ℕ, ◌+◌, ◌≡◌, ◌≢◌, refl, String, true, false, Option, none, some, List, [], ◌∷◌, arith, ltb,
  eq_iff, ◌==◌, if◌then◌else◌,
}
use mcp_authflow.Prelude.Method.{Result, ok, raise}
use mcp_authflow.Dict
use mcp_authflow.ClientAuth.{
  Pyjwt, PyjwtError, JwtAuthError, Payload, Jwks, KeyData, expired_signature, decode_error,
  jwt_client_assertion_type, is_allowed_algorithm, is_blocked_algorithm, replay_detected,
  algorithm_blocked,
}
use mcp_authflow.ClientAuth.Keys.{expected_kty, key_matches, find_in, find_signing_key}
use mcp_authflow.ClientAuth.ReplayCache.{
  ReplayCache, init, cleanup_expired_jtis, check_and_record_jti,
}
use mcp_authflow.ClientAuth.Authenticate.{
  translate, translate_header, decode_and_validate_claims, record_payload, check_payload,
  verify_signed, verify_jwt, authenticate,
}
use mcp_authflow.ClientAuth.Frame.{lenient, Decides, authenticate-Decides}
use mcp_authflow.ClientAuth.Fits.{FitsDocument}
use mcp_authflow.ClientAuth.Accept.{Accepts, alg_of, authenticate_sound, authenticate_complete}
use mcp_authflow.ClientAuth.Replay.{
  Attempt, Accepted, attempt, run, jti_accepted_once, replay_accepted,
}

program : Unit {0}
unfolding Dict.empty Dict.get Dict.put Dict.remove Dict.keys_where Dict.remove_all
    is_allowed_algorithm is_blocked_algorithm expected_kty key_matches find_in find_signing_key init
    cleanup_expired_jtis check_and_record_jti translate translate_header decode_and_validate_claims
    record_payload check_payload verify_signed verify_jwt authenticate run
program = tt

-- the claims of the assertion "jwt": issued at 900 s, good until 1000 s
abbrev pub claims : Payload
claims = record {
  sub = some "app";
  iat = some 900_000_000;
  exp = some 1_000_000_000;
  jti = some "j1";
}

-- those of the assertion "jwt2"
abbrev pub later_claims : Payload
later_claims = record {
  sub = some "app";
  iat = some 910_000_000;
  exp = some 1_010_000_000;
  jti = some "j2";
}

-- those of the assertion "jwt3": issued at 1060 s, good until 2000 s
abbrev pub future_claims : Payload
future_claims = record {
  sub = some "app";
  iat = some 1_060_000_000;
  exp = some 2_000_000_000;
  jti = some "j3";
}

-- it tests the expiry, within the leeway, as PyJWT does
abbrev pub decode :
    String
    → Unit {0}
    → List String
    → String
    → String
    → List String
    → ℕ
    → ℕ
    → Result PyjwtError Payload
decode assertion key algorithms audience issuer required leeway now =
    if assertion == "jwt"
    then (if ltb now (1_000_000_000 + leeway) then ok claims else raise expired_signature)
    else if assertion == "jwt2"
    then (if ltb now (1_010_000_000 + leeway) then ok later_claims else raise expired_signature)
    else if assertion == "jwt3"
    then (if ltb now (2_000_000_000 + leeway) then ok future_claims else raise expired_signature)
    else raise decode_error

abbrev pub pyjwt : Pyjwt
pyjwt = record {
  Key = Unit {0};
  Material = Unit {0};
  get_unverified_header = λ assertion.
      if assertion == "hmac"
      then ok (record { kid = none; alg = some "HS256" })
      else ok (record { kid = none; alg = some "ES256" });
  from_dict = λ key_data. some tt;
  decode = decode;
}

abbrev pub ec_key : KeyData (Unit {0})
ec_key = record { kid = none; alg = none; use_ = some "sig"; kty = some "EC"; material = tt }

abbrev pub jwks : Option (Jwks (Unit {0}))
jwks = some (record { keys = some (ec_key ∷ []); has_others = false })

abbrev call : String → ℕ → Attempt (Unit {0})
call assertion now = record {
  at = record { verified = now; decoded = now };
  cleaned = now;
  recorded = now;
  jwks = jwks;
  client_id = "app";
  client_assertion = assertion;
  client_assertion_type = jwt_client_assertion_type;
}

abbrev pub endpoint : String
endpoint = "https://as.example/token"

abbrev cold : ReplayCache
cold = init 950_000_000

abbrev warm : ReplayCache
warm = (attempt pyjwt endpoint (call "jwt" 995_000_000) cold).1

-- The assertion is accepted, refused as a replay, and accepted again after its expiry.
replay_run :
    ((attempt pyjwt endpoint (call "jwt" 995_000_000) cold).0 ≡ ok true)
    × ((attempt pyjwt endpoint (call "jwt" 999_000_000) warm).0 ≡ raise replay_detected)
    × ((attempt pyjwt endpoint (call "jwt" 1_030_000_000) warm).0 ≡ ok true)
    × ((attempt pyjwt endpoint (call "hmac" 999_000_000) warm).0 ≡ raise algorithm_blocked)
unfolding program
replay_run = (refl, refl, refl, refl)

other_kid :
    (key_matches (record ec_key { kid = some "k1" }) (some "k2") "ES256" ≡ false)
    × (key_matches (record ec_key { kid = some "k2" }) (some "k2") "ES256" ≡ true)
unfolding program
other_kid = (refl, refl)

-- An assertion that was issued a minute in the future is accepted again 360 seconds later.
capped_run :
    let after = (attempt pyjwt endpoint (call "jwt3" 1_000_000_000) cold).1 in
    ((attempt pyjwt endpoint (call "jwt3" 1_000_000_000) cold).0 ≡ ok true)
    × ((attempt pyjwt endpoint (call "jwt3" 1_359_000_000) after).0 ≡ raise replay_detected)
    × ((attempt pyjwt endpoint (call "jwt3" 1_400_000_000) after).0 ≡ ok true)
unfolding program
capped_run = (refl, refl, refl)

abbrev first_call : Attempt (Unit {0})
first_call = call "jwt" 995_000_000

abbrev second_call : Attempt (Unit {0})
second_call = call "jwt2" 999_000_000

abbrev late_call : Attempt (Unit {0})
late_call = call "jwt" 1_030_000_000

first_Accepted : Accepted pyjwt endpoint first_call cold
unfolding program
first_Accepted = record {
  document = record { keys = some (ec_key ∷ []); has_others = false };
  header = record { kid = none; alg = some "ES256" };
  signing_key = tt;
  payload = claims;
  bearer = refl;
  given = ground (arith, eq_iff "jwt" "");
  provided = refl;
  parsed = refl;
  allowed = refl;
  found = refl;
  verified = refl;
  passes = record {
    jti = "j1";
    subject = refl;
    young = ground arith;
    identified = refl;
    unused = refl;
  };
}

second_Accepted : Accepted pyjwt endpoint second_call (run pyjwt endpoint [] warm)
unfolding program
second_Accepted = record {
  document = record { keys = some (ec_key ∷ []); has_others = false };
  header = record { kid = none; alg = some "ES256" };
  signing_key = tt;
  payload = later_claims;
  bearer = refl;
  given = ground (arith, eq_iff "jwt2" "");
  provided = refl;
  parsed = refl;
  allowed = refl;
  found = refl;
  verified = refl;
  passes = record {
    jti = "j2";
    subject = refl;
    young = ground arith;
    identified = refl;
    unused = refl;
  };
}

authenticate_sound_example :
    (a : Accepted pyjwt endpoint first_call cold) × FitsDocument pyjwt a.header.kid
      (alg_of a.header)
      a.signing_key
      a.document
authenticate_sound_example =
    authenticate_sound pyjwt endpoint (check_and_record_jti 995_000_000 995_000_000) first_call.at
      "app" "jwt" cold jwks jwt_client_assertion_type replay_run.0

authenticate_complete_example :
    attempt pyjwt endpoint first_call cold
    ≡ (ok true, (check_and_record_jti 995_000_000 995_000_000 "j1" 1_000_000_000 cold).1)
unfolding program first_Accepted
authenticate_complete_example =
    authenticate_complete pyjwt endpoint (check_and_record_jti 995_000_000 995_000_000)
      first_call.at "app" "jwt" cold jwks jwt_client_assertion_type first_Accepted

authenticate-Decides_example :
    let check = check_and_record_jti 999_000_000 999_000_000 in
    let after = attempt pyjwt endpoint (call "jwt" 999_000_000) warm in
    let at = (call "jwt" 999_000_000).at in
    (¬ Accepts pyjwt endpoint (lenient check) at jwks "app" "jwt" jwt_client_assertion_type warm
      × ((e : JwtAuthError) × (after ≡ (raise e, warm))))
    ⊎ ((a : Accepts pyjwt endpoint
          (lenient check)
          at
          jwks
          "app"
          "jwt"
          jwt_client_assertion_type
          warm)
        × Decides check pyjwt endpoint at "app" "jwt" warm jwks jwt_client_assertion_type after a)
authenticate-Decides_example =
    authenticate-Decides (check_and_record_jti 999_000_000 999_000_000) pyjwt endpoint
      (call "jwt" 999_000_000).at "app" "jwt" warm jwks jwt_client_assertion_type

jti_accepted_once_example : second_Accepted.passes.jti ≢ first_Accepted.passes.jti
unfolding program first_Accepted second_Accepted
jti_accepted_once_example =
    jti_accepted_once pyjwt endpoint first_call second_call [] cold first_Accepted second_Accepted
      tt (ground arith)

replay_accepted_example : (attempt pyjwt endpoint late_call warm).0 ≡ ok true
unfolding program first_Accepted
replay_accepted_example =
    replay_accepted pyjwt endpoint first_call late_call cold first_Accepted refl refl refl refl refl
      (ground arith) (ground arith) (ground arith)
