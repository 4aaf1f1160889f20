-- ===== src/ClientAuth/RedisCache.antt =====
-- mcp_authflow/client_auth/jwt.py: the replay cache in Redis. Redis is a record of operations with
-- the documented behaviour of `SET key value NX PX milliseconds` as its laws.
use Prim.Native.String.{◌++◌ as concat}
use mcp_authflow.Prelude.{
  ℕ, ◌+◌, ◌-◌, ◌*◌, ◌/◌, ◌≤◌, ◌<◌, ◌≡◌, ◌≢◌, min, String, Bool, true, false, not, arith,
}
use mcp_authflow.Prelude.Time.{seconds}
use mcp_authflow.ClientAuth.{jwt_max_clock_skew_seconds, jwt_replay_cache_max_ttl_seconds}

-- `set` takes the reading of the server's clock, the key and the milliseconds; `exists_` says whether
-- a key is there at an instant.
pub record Redis : Type 1 where
  pub Store : Type 0
  pub set : ℕ → String → ℕ → Store → Bool × Store
  pub exists_ : ℕ → String → Store → Bool

abbrev pub millisecond : ℕ
millisecond = 1000

-- min(max(0.0, exp - now) + skew, max_ttl); the subtraction on ℕ stops at 0
unfoldable pub ttl : ℕ → ℕ → ℕ
ttl now exp =
    min (exp - now + seconds jwt_max_clock_skew_seconds) (seconds jwt_replay_cache_max_ttl_seconds)

-- math.ceil(ttl_seconds * 1000)
unfoldable pub ttl_ms : ℕ → ℕ → ℕ
unfolding ttl
ttl_ms now exp = (ttl now exp + (millisecond - 1)) / millisecond

abbrev pub jti_key : String → String
jti_key jti = concat "mcp_authflow:jti:" jti

pub ttl-le-ttl_ms : (now exp : ℕ) → ttl now exp ≤ ttl_ms now exp * millisecond
unfolding ttl_ms
ttl-le-ttl_ms now exp = ground arith

module _ (redis : Redis) where
  open redis use {Store, set, exists_}

  pub record SetNx : Type 0 where
    -- NX: the key is set only if it is not there
    pub answer :
        (now : ℕ) (key : String) (px : ℕ) (s : Store)
        → (set now key px s).0 ≡ not (exists_ now key s)
    -- PX: a key that was set is there for that many milliseconds
    pub lasts :
        (now later : ℕ) (key : String) (px : ℕ) (s : Store)
        → exists_ now key s ≡ false
        → now ≤ later
        → later < now + px * millisecond
        → exists_ later key (set now key px s).1 ≡ true
    -- a key that is there keeps its time
    pub refused :
        (now later : ℕ) (key : String) (px : ℕ) (s : Store)
        → exists_ now key s ≡ true
        → exists_ later key (set now key px s).1 ≡ exists_ later key s
    pub others :
        (now later : ℕ) (key other : String) (px : ℕ) (s : Store)
        → key ≢ other
        → exists_ later other (set now key px s).1 ≡ exists_ later other s

  -- `now` is the reading of the program, `server` that of Redis
  unfoldable pub check_and_record_jti_redis : ℕ → ℕ → String → ℕ → Store → Bool × Store
  unfolding ttl_ms
  check_and_record_jti_redis now server jti exp s = set server (jti_key jti) (ttl_ms now exp) s
