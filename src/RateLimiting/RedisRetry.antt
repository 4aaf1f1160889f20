-- ===== src/RateLimiting/RedisRetry.antt =====
-- `get_retry_after` of the limiter in Redis.
use mcp_authflow.Prelude.{
  ℕ, ◌+◌, ◌-◌, ◌≤◌, ◌<◌, ◌≡◌, String, true, false, ◌&&◌, ltb, arith, inl, inr, le_refl,
  Option-cases,
}
use mcp_authflow.Prelude.Time.{seconds}
use mcp_authflow.RateLimiting.{is_recent}
use mcp_authflow.RateLimiting.RedisSets.{
  SortedSets, SetLaws, redis_key, is_allowed_redis, retry_after_of, get_retry_after_redis,
}
use mcp_authflow.RateLimiting.RedisLog.{pruned, zcard-pruned}
use mcp_authflow.RateLimiting.Retry.{retry_after_seconds_lem}

module _ (sets : SortedSets) (laws : SetLaws sets) (n window_seconds : ℕ) where
  open sets use {Store, count, zrange_first}

  abbrev all_of : ℕ → String → Store → ℕ
  all_of now c s = count now (redis_key window_seconds c) (λ _. true) s

  abbrev recent_of : ℕ → String → Store → ℕ
  recent_of now c s =
      count now (redis_key window_seconds c) (is_recent (seconds window_seconds) now) s

  -- after the wait, one of the members of the set has left the window
  recent_of-lt :
      (asked later : ℕ) (c : String) (s : Store)
      → 0 < n
      → all_of asked c s ≤ n
      → asked ≤ later
      → asked
          + seconds (
              retry_after_of sets n window_seconds asked
                (zrange_first asked (redis_key window_seconds c) s))
        ≤ later
      → recent_of later c s < n
  recent_of-lt asked later c s pos few since h =
      let key = redis_key window_seconds c in
      let w = seconds window_seconds in
      let lapsed = laws.lapses asked later key (is_recent w later) s since in
      elim (Option-cases (zrange_first asked key s)) [
        | inl none_left ↦ omega (
          arith,
          lapsed,
          laws.part asked key (is_recent w later) s,
          laws.first_none asked key s none_left,
        )
        | inr (oldest, e) ↦
            let past : is_recent w later oldest ≡ false =
              ground (arith, rw e at h, retry_after_seconds_lem w asked oldest) in
            omega (arith, lapsed, laws.first_some asked key oldest (is_recent w later) s e past)
      ]

  -- In a Redis that keeps the laws, a client whose set has no more members than a positive limit, that
  -- asks how long to wait and makes no request for that many seconds, is let through; a client that was
  -- just refused is told to wait at least one second.
  pub redis_retry_after :
      (asked later : ℕ) (member c : String) (s : Store)
      → 0 < n
      → seconds window_seconds ≤ asked
      → all_of asked c s ≤ n
      → let (wait, after) = get_retry_after_redis sets n window_seconds asked c s in
        asked + seconds wait ≤ later
        → ((is_allowed_redis sets n window_seconds later member c after).0 ≡ true)
          × ((is_allowed_redis sets n window_seconds asked member c s).0 ≡ false → 1 ≤ wait)
  unfolding get_retry_after_redis is_allowed_redis
  redis_retry_after asked later member c s pos late few h =
      let left = pruned sets laws n window_seconds asked c s in
      let key = redis_key window_seconds c in
      let fewer : all_of asked c left ≤ n = omega (
        arith,
        few,
        laws.removed asked asked key (asked - seconds window_seconds) (λ _. true) s (le_refl asked),
        laws.part asked key (λ t. ltb (asked - seconds window_seconds) t && true) s,
      ) in
      (
        ground (
          arith,
          recent_of-lt asked later c left pos fewer (omega (arith, h)) h,
          zcard-pruned sets laws n window_seconds later c left (omega (arith, h, late)),
        ),
        λ refused. elim (Option-cases (zrange_first asked key left)) [
          | inl none_left ↦ absurd (
              ground (
                arith,
                pos,
                refused,
                laws.card asked key left,
                laws.first_none asked key left none_left,
              ))
          | inr (oldest, e) ↦ rw e (retry_after_seconds_lem (seconds window_seconds) asked oldest).0
        ],
      )
