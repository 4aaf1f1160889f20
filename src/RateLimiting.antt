-- ===== src/RateLimiting.antt =====
-- mcp_authflow/rate_limiting.py: `SlidingWindowRateLimiter` without a Redis client. A method takes
-- the clock reading `now` that it makes, in microseconds; the two settings are natural numbers.
-- A difference of readings may be negative, so `now - t < w` is written `now < t + w`.
pub mod Windows
pub mod Step
pub mod Log
pub mod Bound
pub mod Retry
pub mod Isolation
pub mod RedisSets
pub mod RedisLog
pub mod RedisRuns
pub mod RedisCallers
pub mod RedisBound
pub mod RedisRetry
use mcp_authflow.Prelude.{
  ℕ, ◌+◌, ◌-◌, ◌/◌, max, String, Bool, true, false, ◌||◌, Option, none, some, List, [], ◌∷◌, ◌++◌,
  ltb, leb, if◌then◌else◌, length, select, minimum, maximum,
}
use mcp_authflow.Prelude.Time.{second, seconds}
use mcp_authflow.Dict
use mcp_authflow.Dict.{Dict}

pub record SlidingWindowRateLimiter : Type 0 where
  pub requests_per_window : ℕ
  pub window_seconds : ℕ
  pub clients : Dict (List ℕ)
  pub last_sweep : ℕ

-- __init__
unfoldable pub init : ℕ → ℕ → SlidingWindowRateLimiter
init requests_per_window window_seconds = record {
  requests_per_window = requests_per_window;
  window_seconds = window_seconds;
  clients = Dict.empty;
  last_sweep = 0;
}

-- the window in microseconds
abbrev pub window : SlidingWindowRateLimiter → ℕ
window l = seconds l.window_seconds

-- `self._clients[client_id]` of the `defaultdict`
abbrev pub or_empty : Option (List ℕ) → List ℕ
or_empty none = []
or_empty (some timestamps) = timestamps

abbrev pub timestamps_of : SlidingWindowRateLimiter → String → List ℕ
timestamps_of l client_id = or_empty (Dict.get l.clients client_id)

-- now - t < window
abbrev pub is_recent : ℕ → ℕ → ℕ → Bool
is_recent window now t = ltb now (t + window)

-- not timestamps or max(timestamps) < now - window
abbrev pub is_stale : ℕ → ℕ → List ℕ → Bool
is_stale window now [] = true
is_stale window now (t ∷ ts) = ltb (maximum t ts + window) now

unfoldable pub sweep_expired : ℕ → SlidingWindowRateLimiter → SlidingWindowRateLimiter
sweep_expired now l = if ltb now (l.last_sweep + window l) then l else record l {
  clients = Dict.remove_all l.clients (Dict.keys_where (is_stale (window l) now) l.clients);
  last_sweep = now;
}

unfoldable pub is_allowed_memory :
    ℕ → String → SlidingWindowRateLimiter → Bool × SlidingWindowRateLimiter
is_allowed_memory now client_id l =
    let swept = sweep_expired now l in
    let timestamps = select (is_recent (window l) now) (timestamps_of swept client_id) in
    if leb l.requests_per_window (length timestamps)
    then (false, record swept { clients = Dict.put swept.clients client_id timestamps })
    else (
      true,
      record swept { clients = Dict.put swept.clients client_id (timestamps ++ now ∷ []) },
    )

-- int(window - (now - oldest)) + 1, no less than 1. Where the difference is negative `int` rounds it
-- towards zero, to minus the whole seconds that are over.
unfoldable pub retry_after_seconds : ℕ → ℕ → ℕ → ℕ
retry_after_seconds window now oldest =
    max
      (if leb now (oldest + window)
        then (oldest + window - now) / second + 1
        else 1 - (now - (oldest + window)) / second)
      1

unfoldable pub get_retry_after_memory : ℕ → String → SlidingWindowRateLimiter → ℕ
unfolding retry_after_seconds
get_retry_after_memory now client_id l = elim (timestamps_of l client_id) [
  | [] ↦ 0
  | t ∷ ts ↦ retry_after_seconds (window l) now (minimum t ts)
]
