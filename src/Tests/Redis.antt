-- ===== src/Tests/Redis.antt =====
-- The replay cache over a Redis that keeps the end of each key.
use mcp_authflow.Prelude.{
  ℕ, ◌+◌, ◌*◌, ◌≡◌, ◌≢◌, refl, String, Bool, true, false, some, none, [], ◌∷◌, arith, ltb,
  if◌then◌else◌, eq_iff, ==_refl,
}
use mcp_authflow.Prelude.Method.{ok, raise}
use mcp_authflow.Dict
use mcp_authflow.Dict.{Dict, holds, get-put}
use mcp_authflow.ClientAuth.{
  jwt_client_assertion_type, is_allowed_algorithm, is_blocked_algorithm, replay_detected,
}
use mcp_authflow.ClientAuth.Keys.{expected_kty, key_matches, find_in, find_signing_key}
use mcp_authflow.ClientAuth.Authenticate.{
  translate, translate_header, decode_and_validate_claims, record_payload, check_payload,
  verify_signed, verify_jwt, authenticate,
}
use mcp_authflow.ClientAuth.RedisCache.{
  Redis, SetNx, millisecond, ttl, ttl_ms, check_and_record_jti_redis,
}
use mcp_authflow.ClientAuth.RedisReplay.{
  RedisAttempt, attempt, Accepted, run, redis_jti_accepted_once,
}
use mcp_authflow.Tests.ClientAuth.{pyjwt, endpoint, jwks, ec_key, claims, later_claims}

-- a key is there before its end
abbrev is_there : ℕ → String → Dict ℕ → Bool
is_there now key s = holds (λ end. ltb now end) (Dict.get s key)

abbrev redis : Redis
redis = record {
  Store = Dict ℕ;
  set = λ now key px s.
      if is_there now key s then (false, s) else (true, Dict.put s key (now + px * millisecond));
  exists_ = is_there;
}

redis-SetNx : SetNx redis
redis-SetNx = record {
  answer = λ now key px s. ground arith;
  lasts = λ now later key px s absent lo hi.
      ground (arith, ==_refl key, get-put s key key (now + px * millisecond));
  refused = λ now later key px s there. ground arith;
  others = λ now later key other px s differ.
      ground (arith, eq_iff key other, get-put s key other (now + px * millisecond));
}

program : Unit {0}
unfolding Dict.empty Dict.get Dict.put is_allowed_algorithm is_blocked_algorithm expected_kty
    key_matches find_in find_signing_key ttl ttl_ms check_and_record_jti_redis translate
    translate_header decode_and_validate_claims record_payload check_payload verify_signed
    verify_jwt authenticate run
program = tt

abbrev call : String → ℕ → RedisAttempt (Unit {0})
call assertion now = record {
  at = record { verified = now; decoded = now };
  recorded = now;
  server = now + 500;
  jwks = jwks;
  client_id = "app";
  client_assertion = assertion;
  client_assertion_type = jwt_client_assertion_type;
}

abbrev cold : Dict ℕ
cold = Dict.empty

abbrev warm : Dict ℕ
warm = (attempt redis redis-SetNx pyjwt endpoint (call "jwt" 995_000_000) cold).1

-- Within the leeway after its expiry the assertion is still refused as a replay.
replay_run :
    ((attempt redis redis-SetNx pyjwt endpoint (call "jwt" 995_000_000) cold).0 ≡ ok true)
    × ((attempt redis redis-SetNx pyjwt endpoint (call "jwt" 1_030_000_000) warm).0
        ≡ raise replay_detected)
unfolding program
replay_run = (refl, refl)

first_Accepted : Accepted redis redis-SetNx pyjwt endpoint (call "jwt" 995_000_000) cold
unfolding program
first_Accepted = record {
  document = record { keys = some (ec_key ∷ []); has_others = false };
  header = record { kid = none; alg = some "ES256" };
  signing_key = tt;
  payload = claims;
  bearer = refl;
  given = ground (arith, eq_iff "jwt" "");
  provided = refl;
  parsed = refl;
  allowed = refl;
  found = refl;
  verified = refl;
  passes = record {
    jti = "j1";
    subject = refl;
    young = ground arith;
    identified = refl;
    unused = refl;
  };
}

second_Accepted :
    Accepted redis redis-SetNx pyjwt endpoint
      (call "jwt2" 999_000_000)
      (run redis redis-SetNx pyjwt endpoint [] warm)
unfolding program
second_Accepted = record {
  document = record { keys = some (ec_key ∷ []); has_others = false };
  header = record { kid = none; alg = some "ES256" };
  signing_key = tt;
  payload = later_claims;
  bearer = refl;
  given = ground (arith, eq_iff "jwt2" "");
  provided = refl;
  parsed = refl;
  allowed = refl;
  found = refl;
  verified = refl;
  passes = record {
    jti = "j2";
    subject = refl;
    young = ground arith;
    identified = refl;
    unused = refl;
  };
}

redis_jti_accepted_once_example : second_Accepted.passes.jti ≢ first_Accepted.passes.jti
unfolding program first_Accepted second_Accepted
redis_jti_accepted_once_example =
    redis_jti_accepted_once redis redis-SetNx pyjwt endpoint (call "jwt" 995_000_000)
      (call "jwt2" 999_000_000) [] cold first_Accepted second_Accepted tt (ground arith)
      (ground arith)
