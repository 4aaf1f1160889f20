-- ===== src/ClientAuth.antt =====
-- mcp_authflow/client_auth/jwt.py: the constants, the data, and PyJWT, which the program calls and
-- does not contain, as a record of operations.
pub mod Keys
pub mod Fits
pub mod ReplayCache
pub mod Authenticate
pub mod Accept
pub mod Frame
pub mod Replay
pub mod RedisCache
pub mod RedisReplay
use mcp_authflow.Prelude.{
  ℕ, ◌+◌, String, Bool, Option, none, some, List, [], ◌∷◌, contains, contains-all, ◌≡◌, refl, true,
  false, not, arith,
}
use mcp_authflow.Prelude.Time.{seconds}
use mcp_authflow.Prelude.Method.{Result}

abbrev pub jwt_client_assertion_type : String
jwt_client_assertion_type = "urn:ietf:params:oauth:client-assertion-type:jwt-bearer"

abbrev pub jwt_max_clock_skew_seconds : ℕ
jwt_max_clock_skew_seconds = 60

abbrev pub jwt_max_lifetime_seconds : ℕ
jwt_max_lifetime_seconds = 300

abbrev pub jwt_replay_cache_cleanup_interval : ℕ
jwt_replay_cache_cleanup_interval = 60

abbrev pub jwt_replay_cache_max_ttl_seconds : ℕ
jwt_replay_cache_max_ttl_seconds = jwt_max_lifetime_seconds + jwt_max_clock_skew_seconds

abbrev pub allowed_jwt_algorithms : List String
allowed_jwt_algorithms =
    "RS256" ∷ "RS384" ∷ "RS512" ∷ "ES256" ∷ "ES384" ∷ "ES512" ∷ "PS256" ∷ "PS384" ∷ "PS512" ∷ []

abbrev pub blocked_jwt_algorithms : List String
blocked_jwt_algorithms = "none" ∷ "HS256" ∷ "HS384" ∷ "HS512" ∷ []

-- alg in ALLOWED_JWT_ALGORITHMS
unfoldable pub is_allowed_algorithm : String → Bool
is_allowed_algorithm alg = contains allowed_jwt_algorithms alg

-- alg in BLOCKED_JWT_ALGORITHMS
unfoldable pub is_blocked_algorithm : String → Bool
is_blocked_algorithm alg = contains blocked_jwt_algorithms alg

-- No algorithm is both allowed and blocked.
pub allowed_not_blocked :
    (alg : String) → is_allowed_algorithm alg ≡ true → is_blocked_algorithm alg ≡ false
unfolding is_allowed_algorithm is_blocked_algorithm
allowed_not_blocked alg h = ground (
  arith,
  contains-all (λ a. not (contains blocked_jwt_algorithms a)) allowed_jwt_algorithms alg refl h,
)

-- one constructor for each `raise JWTAuthError` or message of it
pub data JwtAuthError : Type 0 where
  invalid_assertion_type missing_assertion jwks_not_retrieved invalid_format : JwtAuthError
  algorithm_blocked algorithm_not_allowed no_matching_key subject_mismatch : JwtAuthError
  too_old replay_detected jwt_expired invalid_audience invalid_issuer : JwtAuthError
  decode_failed invalid_jwt verification_failed : JwtAuthError

-- The members of a JWK that the program reads; `material` stands for all the others.
pub record KeyData (Material : Type 0) : Type 0 where
  pub kid : Option String
  pub alg : Option String
  pub use_ : Option String
  pub kty : Option String
  pub material : Material

-- A JWKS document: its `keys`, and whether the dict has other members.
pub record Jwks (Material : Type 0) : Type 0 where
  pub keys : Option (List (KeyData Material))
  pub has_others : Bool

pub record Header : Type 0 where
  pub kid : Option String
  pub alg : Option String

-- The claims that the program reads, instants in microseconds.
pub record Payload : Type 0 where
  pub sub : Option String
  pub iat : Option ℕ
  pub exp : Option ℕ
  pub jti : Option String

-- the exceptions of PyJWT that the program tells apart; `other` is any other exception
pub data PyjwtError : Type 0 where
  expired_signature invalid_audience_error invalid_issuer_error : PyjwtError
  decode_error invalid_token other : PyjwtError

-- `decode` takes the assertion, the key, `algorithms`, `audience`, `issuer`, the claims of the
-- option `require`, `leeway` and the reading of the clock that PyJWT makes.
pub record Pyjwt : Type 1 where
  pub Key : Type 0
  pub Material : Type 0
  pub get_unverified_header : String → Result PyjwtError Header
  pub from_dict : KeyData Material → Option Key
  pub decode :
      String → Key → List String → String → String → List String → ℕ → ℕ → Result PyjwtError Payload
