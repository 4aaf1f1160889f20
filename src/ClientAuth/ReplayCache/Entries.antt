-- ===== src/ClientAuth/ReplayCache/Entries.antt =====
-- The entries of the replay cache in memory: how long one stays.
use mcp_authflow.Prelude.{ℕ, ◌+◌, ◌≤◌, ◌<◌, String, ◌≡◌, true, not, none, some, arith, eq_iff}
use mcp_authflow.Prelude.Time.{seconds}
use mcp_authflow.Dict
use mcp_authflow.Dict.{get-remove_where, get-put, holds}
use mcp_authflow.ClientAuth.{jwt_replay_cache_cleanup_interval, jwt_replay_cache_max_ttl_seconds}
use mcp_authflow.ClientAuth.ReplayCache.{
  ReplayCache, is_over, cleanup_expired_jtis, capped_exp, check_and_record_jti,
}

module _ (cleaned : ℕ) (cache : ReplayCache) where
  -- A clean-up drops no entry before its time.
  pub get-cleanup_kept :
      (jti : String) {e : ℕ}
      → Dict.get cache.used_jtis jti ≡ some e
      → cleaned ≤ e
      → Dict.get (cleanup_expired_jtis cleaned cache).used_jtis jti ≡ some e
  unfolding cleanup_expired_jtis
  get-cleanup_kept jti h k = ground (arith, get-remove_where cache.used_jtis (is_over cleaned) jti)

  -- A clean-up that is due drops every entry whose time is over.
  pub get-cleanup_dropped :
      (jti : String) {e : ℕ}
      → Dict.get cache.used_jtis jti ≡ some e
      → e < cleaned
      → cache.last_cleanup + seconds jwt_replay_cache_cleanup_interval ≤ cleaned
      → Dict.get (cleanup_expired_jtis cleaned cache).used_jtis jti ≡ none
  unfolding cleanup_expired_jtis
  get-cleanup_dropped jti h k due =
      ground (arith, get-remove_where cache.used_jtis (is_over cleaned) jti)

  module _ (now : ℕ) (jti : String) (exp : ℕ) where
    -- A `jti` is accepted exactly when the clean-up has left no entry for it.
    pub check_and_record_jti-has :
        (check_and_record_jti cleaned now jti exp cache).0
        ≡ not (Dict.has (cleanup_expired_jtis cleaned cache).used_jtis jti)
    unfolding check_and_record_jti
    check_and_record_jti-has = ground arith

    -- An accepted one is recorded until its capped expiry.
    pub get-check_and_record_jti_self :
        (check_and_record_jti cleaned now jti exp cache).0 ≡ true
        → Dict.get (check_and_record_jti cleaned now jti exp cache).1.used_jtis jti
          ≡ some (capped_exp exp now)
    unfolding check_and_record_jti
    get-check_and_record_jti_self h =
        let cache' = cleanup_expired_jtis cleaned cache in
        ground (arith, get-put cache'.used_jtis jti jti (capped_exp exp now), eq_iff jti jti)

    -- Until the time of an entry no check touches it.
    pub get-check_and_record_jti_kept :
        (j : String) {e : ℕ}
        → Dict.get cache.used_jtis j ≡ some e
        → cleaned ≤ e
        → Dict.get (check_and_record_jti cleaned now jti exp cache).1.used_jtis j ≡ some e
    unfolding check_and_record_jti
    get-check_and_record_jti_kept j h k =
        let cache' = cleanup_expired_jtis cleaned cache in
        ground (
          arith,
          get-cleanup_kept j h k,
          get-put cache'.used_jtis jti j (capped_exp exp now),
          eq_iff jti j,
        )

    -- No entry of the cache lasts longer than the maximum after it was made.
    pub check_and_record_jti_capped :
        (j : String) (e : ℕ)
        → Dict.get (check_and_record_jti cleaned now jti exp cache).1.used_jtis j ≡ some e
        → Dict.get (cleanup_expired_jtis cleaned cache).used_jtis j ≡ none
        → e ≤ now + seconds jwt_replay_cache_max_ttl_seconds
    unfolding check_and_record_jti
    check_and_record_jti_capped j e h fresh =
        let cache' = cleanup_expired_jtis cleaned cache in
        ground (arith, get-put cache'.used_jtis jti j (capped_exp exp now), eq_iff jti j)
