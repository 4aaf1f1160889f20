-- ===== src/ClientAuth/Accept.antt =====
-- Exactly which assertions `authenticate` accepts.
use mcp_authflow.Prelude.{
  ℕ, ◌+◌, ◌≤◌, String, ◌≡◌, refl, Bool, true, false, Option, some, [], ◌∷◌, arith, eq_iff,
  Bool-cases, Option-cases, inl, inr, ◌⊎◌, ◌≢◌, ==_refl,
}
use mcp_authflow.Prelude.Time.{seconds}
use mcp_authflow.Prelude.Method.{Result, ok, raise}
use mcp_authflow.ClientAuth.{
  Pyjwt, Header, Payload, Jwks, jwt_client_assertion_type, jwt_max_clock_skew_seconds,
  jwt_replay_cache_max_ttl_seconds, jwt_max_lifetime_seconds, is_allowed_algorithm,
  is_blocked_algorithm, allowed_not_blocked,
}
use mcp_authflow.ClientAuth.Keys.{find_signing_key}
use mcp_authflow.ClientAuth.Fits.{FitsDocument, find_signing_key-FitsDocument}
use mcp_authflow.ClientAuth.Authenticate.{
  Readings, get_or, required_claims, is_empty, decode_and_validate_claims, record_payload,
  check_payload, verify_signed, verify_jwt, authenticate,
}

pub Result-cases {ℓ κ} :
    {E : Type ℓ} {A : Type κ} (r : Result E A) → ((a : A) × (r ≡ ok a)) ⊎ ((e : E) × (r ≡ raise e))
Result-cases (ok a) = inl (a, refl)
Result-cases (raise e) = inr (e, refl)

-- `payload.get("exp", now + JWT_MAX_LIFETIME_SECONDS)`
abbrev pub exp_of : ℕ → Payload → ℕ
exp_of now payload = get_or payload.exp (now + seconds jwt_max_lifetime_seconds)

-- The payload of an assertion whose signature was verified passes the remaining tests.
pub record PayloadPasses {Cache : Type 0} (check_and_record : String → ℕ → Cache → Bool × Cache)
    (now : ℕ) (client_id : String) (cache : Cache) (payload : Payload) : Type 0 where
  pub jti : String
  pub subject : payload.sub ≡ some client_id
  pub young : now ≤ get_or payload.iat 0 + seconds jwt_replay_cache_max_ttl_seconds
  pub identified : payload.jti ≡ some jti
  pub unused : (check_and_record jti (exp_of now payload) cache).0 ≡ true

module _ {Cache : Type 0} (check_and_record : String → ℕ → Cache → Bool × Cache) where
  record_payload_ok :
      (now : ℕ) (payload got : Payload) (cache : Cache)
      → (record_payload check_and_record now payload cache).0 ≡ ok got
      → (jti : String) × (payload.jti ≡ some jti)
        × ((check_and_record jti (exp_of now payload) cache).0 ≡ true)
  unfolding record_payload
  record_payload_ok now payload got cache h = elim (Option-cases payload.jti) [
    | inl e ↦ absurd (ground arith)
    | inr (jti, e) ↦ (jti, e, ground arith)
  ]

  check_payload_ok :
      (now : ℕ) (client_id : String) (payload got : Payload) (cache : Cache)
      → (check_payload check_and_record now client_id payload cache).0 ≡ ok got
      → PayloadPasses check_and_record now client_id cache payload
  unfolding check_payload
  check_payload_ok now client_id payload got cache h = elim (Option-cases payload.sub) [
    | inl e ↦ absurd (ground arith)
    | inr (sub, e) ↦
        let (jti, identified, unused) = record_payload_ok now payload got cache (ground arith) in
        record {
          jti = jti;
          subject = ground (arith, eq_iff sub client_id);
          young = ground arith;
          identified = identified;
          unused = unused;
        }
  ]

  check_payload_complete :
      (now : ℕ) (client_id : String) (payload : Payload) (cache : Cache)
      (p : PayloadPasses check_and_record now client_id cache payload)
      → check_payload check_and_record now client_id payload cache
        ≡ (ok payload, (check_and_record p.jti (exp_of now payload) cache).1)
  unfolding check_payload record_payload
  check_payload_complete now client_id payload cache p =
      ground (arith, p.subject, p.identified, p.unused, p.young, ==_refl client_id)

abbrev pub alg_of : Header → String
alg_of header = get_or header.alg "RS256"

module _ (pyjwt : Pyjwt) (token_endpoint : String) {Cache : Type 0}
    (check_and_record : String → ℕ → Cache → Bool × Cache) where
  open pyjwt use {Key, Material, get_unverified_header, decode}

  -- All that an accepted assertion has passed.
  pub record Accepts (at : Readings) (jwks : Option (Jwks Material))
      (client_id client_assertion : String) (client_assertion_type : String) (cache : Cache)
      : Type 0 where
    pub document : Jwks Material
    pub header : Header
    pub signing_key : Key
    pub payload : Payload
    pub bearer : client_assertion_type ≡ jwt_client_assertion_type
    pub given : client_assertion ≢ ""
    pub provided : jwks ≡ some document
    pub parsed : get_unverified_header client_assertion ≡ ok header
    pub allowed : is_allowed_algorithm (alg_of header) ≡ true
    pub found : find_signing_key pyjwt document header.kid (alg_of header) ≡ some signing_key
    pub verified :
        decode client_assertion signing_key
          (alg_of header ∷ [])
          token_endpoint
          client_id
          required_claims
          (seconds jwt_max_clock_skew_seconds)
          at.decoded
        ≡ ok payload
    pub passes : PayloadPasses check_and_record at.verified client_id cache payload

  module _ (at : Readings) (client_id assertion : String) (cache : Cache) where
    verify_signed_ok :
        (document : Jwks Material) (kid : Option String) (alg : String) (got : Payload)
        → (verify_signed pyjwt token_endpoint check_and_record at client_id assertion document kid
            alg cache).0
          ≡ ok got
        → (signing_key : Key) × (payload : Payload) × (find_signing_key pyjwt document kid alg
            ≡ some signing_key)
          × (decode assertion signing_key
                (alg ∷ [])
                token_endpoint
                client_id
                required_claims
                (seconds jwt_max_clock_skew_seconds)
                at.decoded
              ≡ ok payload)
          × PayloadPasses check_and_record at.verified client_id cache payload
    unfolding verify_signed decode_and_validate_claims
    verify_signed_ok document kid alg got h =
        elim (Option-cases (find_signing_key pyjwt document kid alg)) [
          | inl e ↦ absurd (ground arith)
          | inr (key, e) ↦
              elim (Result-cases (
                decode assertion key (alg ∷ []) token_endpoint client_id required_claims
                  (seconds jwt_max_clock_skew_seconds) at.decoded)) [
                    | inr (x, f) ↦ absurd (ground arith)
                    | inl (payload, f) ↦ (
                      key,
                      payload,
                      e,
                      f,
                      check_payload_ok check_and_record at.verified client_id payload got cache
                          (ground arith),
                    )
                  ]
        ]

    verify_jwt_ok :
        (document : Jwks Material) (got : Payload)
        → (verify_jwt pyjwt token_endpoint check_and_record at client_id assertion document cache).0
          ≡ ok got
        → (header : Header) × (get_unverified_header assertion ≡ ok header)
          × (is_allowed_algorithm (alg_of header) ≡ true)
          × ((verify_signed pyjwt token_endpoint check_and_record at client_id assertion document
                header.kid
                (alg_of header)
                cache).0
              ≡ ok got)
    unfolding verify_jwt
    verify_jwt_ok document got h = elim (Result-cases (get_unverified_header assertion)) [
      | inr (x, e) ↦ absurd (ground arith)
      | inl (header, e) ↦ elim (Bool-cases (is_blocked_algorithm (alg_of header))) [
        | inl blocked ↦ absurd (ground arith)
        | inr b ↦ elim (Bool-cases (is_allowed_algorithm (alg_of header))) [
          | inl allowed ↦ (header, e, allowed, ground arith)
          | inr a ↦ absurd (ground arith)
        ]
      ]
    ]

    pub document_not_empty :
        (document : Jwks Material) (kid : Option String) (alg : String) (key : Key)
        → find_signing_key pyjwt document kid alg ≡ some key
        → is_empty document ≡ false
    unfolding find_signing_key
    document_not_empty document kid alg key h = elim (Option-cases document.keys) [
      | inl e ↦ absurd (ground arith)
      | inr (keys, e) ↦ ground arith
    ]

    module _ (jwks : Option (Jwks Material)) (client_assertion_type : String) where
      pub authenticate-Accepts :
          (authenticate pyjwt token_endpoint check_and_record at jwks client_id assertion
              client_assertion_type cache).0
            ≡ ok true
          → Accepts at jwks client_id assertion client_assertion_type cache
      unfolding authenticate
      authenticate-Accepts h = elim (Option-cases jwks) [
        | inl e ↦ absurd (ground arith)
        | inr (document, e) ↦
            elim (Result-cases
              (verify_jwt pyjwt token_endpoint check_and_record at client_id assertion document
                cache).0) [
                  | inr (x, f) ↦ absurd (ground arith)
                  | inl (got, f) ↦
                      let (header, parsed, allowed, g) = verify_jwt_ok document got f in
                      let (key, payload, found, verified, passes) =
                        verify_signed_ok document header.kid (alg_of header) got g in
                      record {
                        document = document;
                        header = header;
                        signing_key = key;
                        payload = payload;
                        bearer =
                            ground (arith, eq_iff client_assertion_type jwt_client_assertion_type);
                        given = ground (arith, eq_iff assertion "");
                        provided = e;
                        parsed = parsed;
                        allowed = allowed;
                        found = found;
                        verified = verified;
                        passes = passes;
                      }
                ]
      ]

      -- Every assertion that `authenticate` accepts has the bearer type, comes from a client with a
      -- JWKS, names an allowed algorithm, is decoded by PyJWT under that algorithm alone with a key of
      -- the JWKS that matches, for this endpoint, this issuer and the required claims, has the client
      -- as its subject, is not too old, and has a `jti` that the replay cache takes. The key is made of
      -- an entry of the JWKS that has the key identifier of the assertion, if it gives one, and whose
      -- algorithm and use, if it gives them, are that of the assertion and "sig", and whose type is the
      -- one of the algorithm, where that has one; an identifier, algorithm or use that is empty counts as not given.
      pub authenticate_sound :
          (authenticate pyjwt token_endpoint check_and_record at jwks client_id assertion
              client_assertion_type cache).0
            ≡ ok true
          → (a : Accepts at jwks client_id assertion client_assertion_type cache) × FitsDocument
              pyjwt a.header.kid
              (alg_of a.header)
              a.signing_key
              a.document
      authenticate_sound h =
          let a = authenticate-Accepts h in
          (
            a,
            find_signing_key-FitsDocument pyjwt a.header.kid (alg_of a.header) a.signing_key
                a.document a.found,
          )

      -- An assertion that passes all of this is accepted, and the one change of state is that of the
      -- replay cache when it records the `jti`.
      pub authenticate_complete :
          (a : Accepts at jwks client_id assertion client_assertion_type cache)
          → authenticate pyjwt token_endpoint check_and_record at jwks client_id assertion
              client_assertion_type cache
            ≡ (ok true, (check_and_record a.passes.jti (exp_of at.verified a.payload) cache).1)
      unfolding authenticate verify_jwt verify_signed decode_and_validate_claims
      authenticate_complete a = ground (
        arith,
        eq_iff client_assertion_type jwt_client_assertion_type,
        eq_iff assertion "",
        a.bearer,
        a.given,
        a.provided,
        a.parsed,
        a.allowed,
        a.found,
        a.verified,
        document_not_empty a.document a.header.kid (alg_of a.header) a.signing_key a.found,
        allowed_not_blocked (alg_of a.header) a.allowed,
        check_payload_complete check_and_record at.verified client_id a.payload cache a.passes,
      )
