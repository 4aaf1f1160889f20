-- ===== src/ClientAuth/Replay.antt =====
-- Replays under the cache in memory.
use mcp_authflow.Prelude.{
  ℕ, ◌+◌, ◌≤◌, ◌<◌, String, ◌≡◌, ◌≢◌, Bool, true, not, Option, none, some, List, [], ◌∷◌, arith,
  inl, inr, ◌∙◌, sym, ap,
}
use mcp_authflow.Prelude.Time.{seconds}
use mcp_authflow.Prelude.Method.{ok, Method}
use mcp_authflow.Dict
use mcp_authflow.Dict.{holds}
use mcp_authflow.ClientAuth.{
  Pyjwt, Payload, Jwks, JwtAuthError, jwt_replay_cache_cleanup_interval, jwt_max_clock_skew_seconds,
  jwt_replay_cache_max_ttl_seconds,
}
use mcp_authflow.ClientAuth.ReplayCache.{
  ReplayCache, cleanup_expired_jtis, capped_exp, check_and_record_jti,
}
use mcp_authflow.ClientAuth.ReplayCache.Entries.{
  get-cleanup_kept, get-cleanup_dropped, check_and_record_jti-has, get-check_and_record_jti_self,
  get-check_and_record_jti_kept,
}
use mcp_authflow.ClientAuth.Authenticate.{Readings, get_or, required_claims, authenticate}
use mcp_authflow.ClientAuth.Frame.{authenticate-Touched}
use mcp_authflow.ClientAuth.Accept.{Accepts, exp_of, alg_of, authenticate_complete}

-- One call of `authenticate`: its readings of the clock, the answer of the JWKS provider and its
-- arguments.
pub record Attempt (Material : Type 0) : Type 0 where
  pub at : Readings
  pub cleaned : ℕ
  pub recorded : ℕ
  pub jwks : Option (Jwks Material)
  pub client_id : String
  pub client_assertion : String
  pub client_assertion_type : String

module _ (pyjwt : Pyjwt) (token_endpoint : String) where
  open pyjwt use {Material}

  abbrev pub attempt : Attempt Material → Method ReplayCache JwtAuthError Bool
  attempt a =
      authenticate pyjwt token_endpoint (check_and_record_jti a.cleaned a.recorded) a.at a.jwks
        a.client_id a.client_assertion a.client_assertion_type

  abbrev pub Accepted : Attempt Material → ReplayCache → Type 0
  Accepted a cache =
      Accepts pyjwt token_endpoint (check_and_record_jti a.cleaned a.recorded) a.at a.jwks
        a.client_id a.client_assertion a.client_assertion_type cache

  -- the cache after a sequence of calls, whatever their outcomes
  unfoldable pub run : List (Attempt Material) → ReplayCache → ReplayCache
  run [] cache = cache
  run (a ∷ rest) cache = run rest (attempt a cache).1

  abbrev pub AllBy : ℕ → List (Attempt Material) → Type 0
  AllBy e [] = Unit {0}
  AllBy e (a ∷ rest) = (a.cleaned ≤ e) × AllBy e rest

  -- the instant at which the entry of an accepted assertion may go
  abbrev pub entry_end : Attempt Material → Payload → ℕ
  entry_end a payload = capped_exp (exp_of a.at.verified payload) a.recorded

  attempt-kept :
      (a : Attempt Material) (cache : ReplayCache) (jti : String) (e : ℕ)
      → Dict.get cache.used_jtis jti ≡ some e
      → a.cleaned ≤ e
      → Dict.get (attempt a cache).1.used_jtis jti ≡ some e
  attempt-kept a cache jti e h k =
      elim (authenticate-Touched (check_and_record_jti a.cleaned a.recorded) cache pyjwt
        token_endpoint a.at a.jwks a.client_id a.client_assertion a.client_assertion_type) [
          | inl same ↦ rw same h
          | inr (j, exp, step) ↦
              rw step (get-check_and_record_jti_kept a.cleaned cache a.recorded j exp jti h k)
        ]

  run-kept :
      (between : List (Attempt Material)) (cache : ReplayCache) (jti : String) (e : ℕ)
      → Dict.get cache.used_jtis jti ≡ some e
      → AllBy e between
      → Dict.get (run between cache).used_jtis jti ≡ some e
  unfolding run
  run-kept [] cache jti e h k = h
  run-kept (a ∷ rest) cache jti e h (k, ks) =
      run-kept rest (attempt a cache).1 jti e (attempt-kept a cache jti e h k) ks

  recorded-get :
      (a : Attempt Material) (cache : ReplayCache) (acc : Accepted a cache)
      → Dict.get (attempt a cache).1.used_jtis acc.passes.jti ≡ some (entry_end a acc.payload)
  recorded-get a cache acc =
      rw
        (authenticate_complete pyjwt token_endpoint (check_and_record_jti a.cleaned a.recorded) a.at
          a.client_id a.client_assertion cache a.jwks a.client_assertion_type acc)
        (get-check_and_record_jti_self a.cleaned cache a.recorded acc.passes.jti
          (exp_of a.at.verified acc.payload) acc.passes.unused)

  -- Until the end of the entry of an accepted assertion, which is its `exp` or 360 seconds after the
  -- acceptance if that is sooner, no assertion with the same `jti` is accepted, whatever calls come
  -- in between.
  pub jti_accepted_once :
      (a b : Attempt Material) (between : List (Attempt Material)) (cache : ReplayCache)
      (first : Accepted a cache) (second : Accepted b (run between (attempt a cache).1))
      → AllBy (entry_end a first.payload) between
      → b.cleaned ≤ entry_end a first.payload
      → second.passes.jti ≢ first.passes.jti
  jti_accepted_once a b between cache first second ks k same =
      let e = entry_end a first.payload in
      let jti = first.passes.jti in
      let before = run between (attempt a cache).1 in
      let there = run-kept between (attempt a cache).1 jti e (recorded-get a cache first) ks in
      ground (
        arith,
        get-cleanup_kept b.cleaned before jti there k,
        check_and_record_jti-has b.cleaned before b.recorded second.passes.jti
            (exp_of b.at.verified second.payload),
        second.passes.unused,
      )

  -- The code does not do what it means to: the assertion of an accepted call is accepted again by a
  -- call whose clean-up runs after the end of its cache entry, which is its `exp` or 360 seconds after
  -- the acceptance if that is sooner, as long as PyJWT still decodes it within its leeway and it is
  -- not too old, if no clean-up ran in the minute before.
  pub replay_accepted :
      (a b : Attempt Material) (cache : ReplayCache) (first : Accepted a cache)
      → b.jwks ≡ a.jwks
      → b.client_id ≡ a.client_id
      → b.client_assertion ≡ a.client_assertion
      → b.client_assertion_type ≡ a.client_assertion_type
      → pyjwt.decode a.client_assertion first.signing_key
          (alg_of first.header ∷ [])
          token_endpoint
          a.client_id
          required_claims
          (seconds jwt_max_clock_skew_seconds)
          b.at.decoded
        ≡ ok first.payload
      → b.at.verified ≤ get_or first.payload.iat 0 + seconds jwt_replay_cache_max_ttl_seconds
      → entry_end a first.payload < b.cleaned
      → (attempt a cache).1.last_cleanup + seconds jwt_replay_cache_cleanup_interval ≤ b.cleaned
      → (attempt b (attempt a cache).1).0 ≡ ok true
  replay_accepted a b cache first j c s t d y over due =
      ap (λ r. r.0)
        (authenticate_complete pyjwt token_endpoint (check_and_record_jti b.cleaned b.recorded) b.at
          b.client_id b.client_assertion after b.jwks b.client_assertion_type again)
    where
      after : ReplayCache
      after = (attempt a cache).1

      dropped : Dict.get (cleanup_expired_jtis b.cleaned after).used_jtis first.passes.jti ≡ none
      dropped =
          get-cleanup_dropped b.cleaned after first.passes.jti (recorded-get a cache first)
            (omega arith) due

      again : Accepted b after
      again = record {
        document = first.document;
        header = first.header;
        signing_key = first.signing_key;
        payload = first.payload;
        bearer = t ∙ first.bearer;
        given = λ x. first.given (sym s ∙ x);
        provided = j ∙ first.provided;
        parsed = ap pyjwt.get_unverified_header s ∙ first.parsed;
        allowed = first.allowed;
        found = first.found;
        verified = rw (s, c) d;
        passes = record {
          jti = first.passes.jti;
          subject = first.passes.subject ∙ ap some (sym c);
          young = y;
          identified = first.passes.identified;
          unused =
              check_and_record_jti-has b.cleaned after b.recorded first.passes.jti
                (exp_of b.at.verified first.payload)
              ∙ ap (λ o. not (holds (λ _. true) o)) dropped;
        };
      }
