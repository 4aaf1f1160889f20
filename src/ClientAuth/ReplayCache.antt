-- ===== src/ClientAuth/ReplayCache.antt =====
-- mcp_authflow/client_auth/jwt.py: the replay cache of `JWTClientAuthenticator` in memory. The lock
-- makes each method one step; `now` is the reading that the method makes.
pub mod Entries
use mcp_authflow.Prelude.{ℕ, ◌+◌, min, String, Bool, true, false, ltb, if◌then◌else◌}
use mcp_authflow.Prelude.Time.{seconds}
use mcp_authflow.Dict
use mcp_authflow.Dict.{Dict}
use mcp_authflow.ClientAuth.{jwt_replay_cache_cleanup_interval, jwt_replay_cache_max_ttl_seconds}

-- `_used_jtis` maps a `jti` to the instant at which its entry may go
pub record ReplayCache : Type 0 where
  pub used_jtis : Dict ℕ
  pub last_cleanup : ℕ

-- __init__, at `now`
unfoldable pub init : ℕ → ReplayCache
init now = record { used_jtis = Dict.empty; last_cleanup = now }

-- now - self._last_cleanup < JWT_REPLAY_CACHE_CLEANUP_INTERVAL
abbrev pub is_early : ℕ → ReplayCache → Bool
is_early now cache = ltb now (cache.last_cleanup + seconds jwt_replay_cache_cleanup_interval)

-- now > exp
abbrev pub is_over : ℕ → ℕ → Bool
is_over now exp = ltb exp now

-- The test is made again under the lock.
unfoldable pub cleanup_expired_jtis : ℕ → ReplayCache → ReplayCache
cleanup_expired_jtis now cache =
    if is_early now cache then cache else if is_early now cache then cache else record {
      used_jtis = Dict.remove_all cache.used_jtis (Dict.keys_where (is_over now) cache.used_jtis);
      last_cleanup = now;
    }

-- min(exp, time.time() + JWT_REPLAY_CACHE_MAX_TTL_SECONDS)
abbrev pub capped_exp : ℕ → ℕ → ℕ
capped_exp exp now = min exp (now + seconds jwt_replay_cache_max_ttl_seconds)

-- `cleaned` is the reading of the clean-up and `now` the one after it
unfoldable pub check_and_record_jti : ℕ → ℕ → String → ℕ → ReplayCache → Bool × ReplayCache
check_and_record_jti cleaned now jti exp cache =
    let cache' = cleanup_expired_jtis cleaned cache in
    if Dict.has cache'.used_jtis jti
    then (false, cache')
    else (true, record cache' { used_jtis = Dict.put cache'.used_jtis jti (capped_exp exp now) })
