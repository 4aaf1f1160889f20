-- ===== src/ClientAuth/Frame.antt =====
-- What `authenticate` may do to the replay cache that it is given.
use mcp_authflow.Prelude.{
  ℕ, String, ◌≡◌, ap, Bool, true, Option, none, some, arith, eq_iff, ◌⊎◌, inl, inr, ==_refl,
  Option-cases, if◌then◌else◌,
}
use mcp_authflow.Prelude.Method.{Result, ok, raise}
use mcp_authflow.ClientAuth.{
  Pyjwt, Payload, Jwks, JwtAuthError, replay_detected, jwt_client_assertion_type,
  allowed_not_blocked,
}
use mcp_authflow.ClientAuth.Keys.{find_signing_key}
use mcp_authflow.ClientAuth.Authenticate.{
  Readings, record_payload, check_payload, decode_and_validate_claims, verify_signed, verify_jwt,
  authenticate,
}
use mcp_authflow.ClientAuth.Accept.{
  exp_of, alg_of, Result-cases, Accepts, PayloadPasses, authenticate-Accepts, authenticate_complete,
  document_not_empty,
}

module _ {Cache : Type 0} (check_and_record : String → ℕ → Cache → Bool × Cache) where
  -- the same check with its verdict left open: it takes every `jti`
  abbrev pub lenient : String → ℕ → Cache → Bool × Cache
  lenient jti exp cache = (true, (check_and_record jti exp cache).1)

  record_payload_raises :
      (now : ℕ) (payload : Payload) (cache : Cache) (e : JwtAuthError)
      → (record_payload lenient now payload cache).0 ≡ raise e
      → record_payload check_and_record now payload cache ≡ (raise e, cache)
  unfolding record_payload
  record_payload_raises now payload cache e h = elim (Option-cases payload.jti) [
    | inl n ↦ ground (arith, n, h)
    | inr (jti, n) ↦ absurd (ground (arith, n, h))
  ]

  check_payload_raises :
      (now : ℕ) (client_id : String) (payload : Payload) (cache : Cache) (e : JwtAuthError)
      → (check_payload lenient now client_id payload cache).0 ≡ raise e
      → check_payload check_and_record now client_id payload cache ≡ (raise e, cache)
  unfolding check_payload
  check_payload_raises now client_id payload cache e h =
      ground (arith, record_payload_raises now payload cache e)

  check_payload_decides :
      (now : ℕ) (client_id : String) (payload : Payload) (cache : Cache)
      (p : PayloadPasses lenient now client_id cache payload)
      → let out = check_and_record p.jti (exp_of now payload) cache in
        check_payload check_and_record now client_id payload cache
        ≡ ((if out.0 then ok payload else raise replay_detected), out.1)
  unfolding check_payload record_payload
  check_payload_decides now client_id payload cache p =
      ground (arith, p.subject, p.identified, p.young, ==_refl client_id)

  module _ (pyjwt : Pyjwt) (token_endpoint : String) (at : Readings) (client_id assertion : String)
      (cache : Cache) where
    verify_signed_raises :
        (document : Jwks pyjwt.Material) (kid : Option String) (alg : String) (e : JwtAuthError)
        → (verify_signed pyjwt token_endpoint lenient at client_id assertion document kid alg
            cache).0
          ≡ raise e
        → verify_signed pyjwt token_endpoint check_and_record at client_id assertion document kid
            alg cache
          ≡ (raise e, cache)
    unfolding verify_signed
    verify_signed_raises document kid alg e h =
        elim (Option-cases (find_signing_key pyjwt document kid alg)) [
          | inl n ↦ ground (arith, n, h)
          | inr (key, n) ↦
              elim (Result-cases (
                decode_and_validate_claims pyjwt token_endpoint at.decoded assertion key alg
                  client_id)) [
                    | inr (x, f) ↦ ground (arith, n, f, h)
                    | inl (payload, f) ↦
                        ground (
                          arith,
                          n,
                          f,
                          h,
                          check_payload_raises at.verified client_id payload cache e,
                        )
                  ]
        ]

    verify_jwt_raises :
        (document : Jwks pyjwt.Material) (e : JwtAuthError)
        → (verify_jwt pyjwt token_endpoint lenient at client_id assertion document cache).0
          ≡ raise e
        → verify_jwt pyjwt token_endpoint check_and_record at client_id assertion document cache
          ≡ (raise e, cache)
    unfolding verify_jwt
    verify_jwt_raises document e h = elim (Result-cases (pyjwt.get_unverified_header assertion)) [
      | inr (x, f) ↦ ground (arith, f, h)
      | inl (header, f) ↦
          ground (arith, f, h, verify_signed_raises document header.kid (alg_of header) e)
    ]

    authenticate_raises :
        (jwks : Option (Jwks pyjwt.Material)) (type : String) (e : JwtAuthError)
        → (authenticate pyjwt token_endpoint lenient at jwks client_id assertion type cache).0
          ≡ raise e
        → authenticate pyjwt token_endpoint check_and_record at jwks client_id assertion type cache
          ≡ (raise e, cache)
    unfolding authenticate
    authenticate_raises none type e h = ground (arith, h)
    authenticate_raises (some document) type e h =
        elim (Result-cases
          (verify_jwt pyjwt token_endpoint lenient at client_id assertion document cache).0) [
            | inl (got, f) ↦ ground (arith, f, h)
            | inr (x, f) ↦ ground (arith, f, h, verify_jwt_raises document x f)
          ]

    module _ (jwks : Option (Jwks pyjwt.Material)) (type : String) where
      lenient_success :
          (b : Bool)
          → (authenticate pyjwt token_endpoint lenient at jwks client_id assertion type cache).0
            ≡ ok b
          → (authenticate pyjwt token_endpoint lenient at jwks client_id assertion type cache).0
            ≡ ok true
      unfolding authenticate
      lenient_success b h = ground arith

      raised_fails :
          (e : JwtAuthError)
          → (authenticate pyjwt token_endpoint lenient at jwks client_id assertion type cache).0
            ≡ raise e
          → ¬ Accepts pyjwt token_endpoint lenient at jwks client_id assertion type cache
      raised_fails e h a = absurd (
          cc (
            h,
            authenticate_complete pyjwt token_endpoint lenient at client_id assertion cache jwks
                type a,
          ))

      -- the assertion passes every test but that of the replay cache, which decides
      abbrev pub Decides :
          Result JwtAuthError Bool × Cache
          → Accepts pyjwt token_endpoint lenient at jwks client_id assertion type cache
          → Type 0
      Decides after a =
          let out = check_and_record a.passes.jti (exp_of at.verified a.payload) cache in
          after ≡ ((if out.0 then ok true else raise replay_detected), out.1)

      asks_cache_once :
          (a : Accepts pyjwt token_endpoint lenient at jwks client_id assertion type cache)
          → Decides
              (authenticate pyjwt token_endpoint check_and_record at jwks client_id assertion type
                cache)
              a
      unfolding authenticate verify_jwt verify_signed decode_and_validate_claims
      asks_cache_once a = ground (
        arith,
        eq_iff type jwt_client_assertion_type,
        eq_iff assertion "",
        a.bearer,
        a.given,
        a.provided,
        a.parsed,
        a.allowed,
        a.found,
        a.verified,
        document_not_empty pyjwt token_endpoint lenient at client_id assertion cache a.document
            a.header.kid (alg_of a.header) a.signing_key a.found,
        allowed_not_blocked (alg_of a.header) a.allowed,
        check_payload_decides at.verified client_id a.payload cache a.passes,
      )

      -- An assertion that fails any test but that of the replay cache is refused and leaves the cache
      -- as it was, so it uses up no `jti`. For one that passes all of them the cache is asked once, for
      -- the `jti` of its payload until the `exp` of its payload: the call succeeds if the cache takes
      -- the `jti` and raises that it was used if not, and leaves the cache as that check left it.
      pub authenticate-Decides :
          (¬ Accepts pyjwt token_endpoint lenient at jwks client_id assertion type cache
            × ((e : JwtAuthError) × (authenticate pyjwt token_endpoint check_and_record at jwks
                    client_id assertion type cache
                  ≡ (raise e, cache))))
          ⊎ ((a : Accepts pyjwt token_endpoint lenient at jwks client_id assertion type cache)
              × Decides
                  (authenticate pyjwt token_endpoint check_and_record at jwks client_id assertion
                    type cache)
                  a)
      authenticate-Decides =
          elim (Result-cases
            (authenticate pyjwt token_endpoint lenient at jwks client_id assertion type cache).0) [
              | inr (e, h) ↦ inl (raised_fails e h, (e, authenticate_raises jwks type e h))
              | inl (b, h) ↦
                  let a =
                    authenticate-Accepts pyjwt token_endpoint lenient at client_id assertion cache
                      jwks type (lenient_success b h) in
                  inr (a, asks_cache_once a)
            ]

-- what a call leaves of the cache, for sequences of calls
module _ {Cache : Type 0} (check_and_record : String → ℕ → Cache → Bool × Cache) (cache : Cache)
    (pyjwt : Pyjwt) (token_endpoint : String) where
  pub authenticate-Touched :
      (at : Readings) (jwks : Option (Jwks pyjwt.Material)) (client_id assertion type : String)
      → let after =
          (authenticate pyjwt token_endpoint check_and_record at jwks client_id assertion type
            cache).1 in
        (after ≡ cache)
        ⊎ ((jti : String) × (exp : ℕ) × (after ≡ (check_and_record jti exp cache).1))
  authenticate-Touched at jwks client_id assertion type =
      elim (authenticate-Decides check_and_record pyjwt token_endpoint at client_id assertion cache
        jwks type) [
          | inl (n, (e, h)) ↦ inl (ap (λ p. p.1) h)
          | inr (a, h) ↦ inr (a.passes.jti, exp_of at.verified a.payload, ap (λ p. p.1) h)
        ]
