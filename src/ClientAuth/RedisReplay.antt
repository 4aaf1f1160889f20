-- ===== src/ClientAuth/RedisReplay.antt =====
-- Replays under the cache in Redis.
use mcp_authflow.Prelude.{
  ℕ, ◌+◌, ◌≤◌, ◌<◌, ◌≡◌, ◌≢◌, String, Bool, true, false, List, [], ◌∷◌, Option, arith, ◌==◌, eq_iff,
  Bool-cases, inl, inr, ◌∙◌,
}
use mcp_authflow.Prelude.Method.{Method}
use mcp_authflow.ClientAuth.{Pyjwt, Jwks, JwtAuthError, Payload}
use mcp_authflow.ClientAuth.RedisCache.{
  Redis, SetNx, ttl, ttl_ms, jti_key, check_and_record_jti_redis, ttl-le-ttl_ms,
}
use mcp_authflow.ClientAuth.Authenticate.{Readings, authenticate}
use mcp_authflow.ClientAuth.Accept.{Accepts, exp_of, authenticate_complete}
use mcp_authflow.ClientAuth.Frame.{authenticate-Touched}

-- One call of `authenticate`: its readings of the clocks, the answer of the JWKS provider and its
-- arguments.
pub record RedisAttempt (Material : Type 0) : Type 0 where
  pub at : Readings
  pub recorded : ℕ
  pub server : ℕ
  pub jwks : Option (Jwks Material)
  pub client_id : String
  pub client_assertion : String
  pub client_assertion_type : String

module _ (redis : Redis) (laws : SetNx redis) (pyjwt : Pyjwt) (token_endpoint : String) where
  open redis use {Store, exists_, set}
  open pyjwt use {Material}

  abbrev pub check : RedisAttempt Material → String → ℕ → Store → Bool × Store
  check a = check_and_record_jti_redis redis a.recorded a.server

  abbrev pub attempt : RedisAttempt Material → Method Store JwtAuthError Bool
  attempt a =
      authenticate pyjwt token_endpoint (check a) a.at a.jwks a.client_id a.client_assertion
        a.client_assertion_type

  abbrev pub Accepted : RedisAttempt Material → Store → Type 0
  Accepted a s =
      Accepts pyjwt token_endpoint (check a) a.at a.jwks a.client_id a.client_assertion
        a.client_assertion_type s

  unfoldable pub run : List (RedisAttempt Material) → Store → Store
  run [] s = s
  run (a ∷ rest) s = run rest (attempt a s).1

  -- the calls reach Redis from `start` on and before `end`
  abbrev pub AllWithin : ℕ → ℕ → List (RedisAttempt Material) → Type 0
  AllWithin start end [] = Unit {0}
  AllWithin start end (a ∷ rest) =
      ((start ≤ a.server) × (a.server < end)) × AllWithin start end rest

  -- The instant before which the key of an accepted assertion is there: 60 seconds after its `exp`,
  -- or 360 seconds after the acceptance if that is sooner.
  abbrev pub entry_end : RedisAttempt Material → Payload → ℕ
  entry_end a payload = a.server + ttl a.recorded (exp_of a.at.verified payload)

  abbrev Holds : ℕ → ℕ → String → Store → Type 0
  Holds start end key s = (t : ℕ) → start ≤ t → t < end → exists_ t key s ≡ true

  -- no `SET NX` of any key takes away a key that is there
  exists-set :
      (now t : ℕ) (key other : String) (px : ℕ) (s : Store)
      → exists_ now key s ≡ true
      → exists_ t key (set now other px s).1 ≡ exists_ t key s
  exists-set now t key other px s there = elim (Bool-cases (other == key)) [
    | inl same ↦ rw ((eq_iff other key).0 same) (laws.refused now t key px s there)
    | inr differ ↦ laws.others now t other key px s (λ e. ground (arith, eq_iff other key))
  ]

  check-Holds :
      (a : RedisAttempt Material) (s : Store) (jti other : String) (exp start end : ℕ)
      → start ≤ a.server
      → a.server < end
      → Holds start end (jti_key jti) s
      → Holds start end (jti_key jti) (check a other exp s).1
  unfolding check_and_record_jti_redis
  check-Holds a s jti other exp start end lo hi holds t l h =
      exists-set a.server t (jti_key jti) (jti_key other) (ttl_ms a.recorded exp) s
        (holds a.server lo hi)
      ∙ holds t l h

  attempt-Holds :
      (a : RedisAttempt Material) (s : Store) (jti : String) (start end : ℕ)
      → start ≤ a.server
      → a.server < end
      → Holds start end (jti_key jti) s
      → Holds start end (jti_key jti) (attempt a s).1
  attempt-Holds a s jti start end lo hi holds =
      elim (authenticate-Touched (check a) s pyjwt token_endpoint a.at a.jwks a.client_id
        a.client_assertion a.client_assertion_type) [
          | inl same ↦ rw same holds
          | inr (other, exp, step) ↦ rw step (check-Holds a s jti other exp start end lo hi holds)
        ]

  run-Holds :
      (between : List (RedisAttempt Material)) (s : Store) (jti : String) (start end : ℕ)
      → AllWithin start end between
      → Holds start end (jti_key jti) s
      → Holds start end (jti_key jti) (run between s)
  unfolding run
  run-Holds [] s jti start end within holds = holds
  run-Holds (a ∷ rest) s jti start end ((lo, hi), within) holds =
      run-Holds rest (attempt a s).1 jti start end within
        (attempt-Holds a s jti start end lo hi holds)

  unused-exists :
      (a : RedisAttempt Material) (jti : String) (exp : ℕ) (s : Store)
      → (check a jti exp s).0 ≡ true
      → exists_ a.server (jti_key jti) s ≡ false
  unfolding check_and_record_jti_redis
  unused-exists a jti exp s h =
      ground (arith, h, laws.answer a.server (jti_key jti) (ttl_ms a.recorded exp) s)

  accepted-Holds :
      (a : RedisAttempt Material) (s : Store) (first : Accepted a s)
      → Holds a.server (entry_end a first.payload) (jti_key first.passes.jti) (attempt a s).1
  unfolding check_and_record_jti_redis
  accepted-Holds a s first t lo hi =
      let exp = exp_of a.at.verified first.payload in
      let jti = first.passes.jti in
      let px = ttl_ms a.recorded exp in
      rw
        (authenticate_complete pyjwt token_endpoint (check a) a.at a.client_id a.client_assertion s
          a.jwks a.client_assertion_type first)
        (laws.lasts a.server t (jti_key jti) px s (unused-exists a jti exp s first.passes.unused) lo
          (omega (arith, hi, ttl-le-ttl_ms a.recorded exp)))

  -- Over a Redis that keeps the laws of `SET NX PX`: until 60 seconds after the `exp` of an accepted
  -- assertion, or 360 seconds after its acceptance if that is sooner, no assertion with the same
  -- `jti` is accepted, whatever calls reach Redis in between.
  pub redis_jti_accepted_once :
      (a b : RedisAttempt Material) (between : List (RedisAttempt Material)) (s : Store)
      (first : Accepted a s) (second : Accepted b (run between (attempt a s).1))
      → AllWithin a.server (entry_end a first.payload) between
      → a.server ≤ b.server
      → b.server < entry_end a first.payload
      → second.passes.jti ≢ first.passes.jti
  redis_jti_accepted_once a b between s first second within lo hi same =
      let e = entry_end a first.payload in
      let after = run between (attempt a s).1 in
      let there =
        run-Holds between (attempt a s).1 first.passes.jti a.server e within
          (accepted-Holds a s first) b.server lo hi in
      let absent =
        unused-exists b second.passes.jti (exp_of b.at.verified second.payload) after
          second.passes.unused in
      ground (arith, there, absent, same)
