-- ===== src/RateLimiting/RedisRuns.antt =====
-- Sequences of requests to the limiter in Redis, against the log of Log.
use mcp_authflow.Prelude.{
  ℕ, ◌≤◌, ◌≡◌, refl, String, Bool, true, false, List, [], ◌∷◌, ap₂, map, arith, ◌==◌, length,
  select, eq_iff, ==_refl, Bool-cases, inl, inr, le_trans,
}
use mcp_authflow.Prelude.Time.{seconds}
use mcp_authflow.RateLimiting.{is_recent}
use mcp_authflow.RateLimiting.Log.{Log, Ascending, blank, log_allows, note, log_decisions}
use mcp_authflow.RateLimiting.RedisSets.{SortedSets, SetLaws, redis_key, is_allowed_redis}
use mcp_authflow.RateLimiting.RedisLog.{
  Matches, IsPast, later-IsPast, append-IsPast, pruned, grown, is_allowed_redis-log, count-grown,
  count-refused, count-other,
}

-- A request with the member that it adds to the set of its client.
pub record RedisRequest : Type 0 where
  pub now : ℕ
  pub client_id : String
  pub member : String

abbrev pub plain : RedisRequest → ℕ × String
plain r = (r.now, r.client_id)

module _ (sets : SortedSets) (laws : SetLaws sets) (n window_seconds : ℕ) where
  open sets use {Store, has, count}

  unfoldable pub redis_decisions : List RedisRequest → Store → List Bool
  redis_decisions [] s = []
  redis_decisions (r ∷ rest) s =
      let (allowed, s') = is_allowed_redis sets n window_seconds r.now r.member r.client_id s in
      allowed ∷ redis_decisions rest s'

  -- No request draws a suffix that makes a member which the set of its client has.
  unfoldable pub NewMembers : List RedisRequest → Store → Type 0
  NewMembers [] s = Unit {0}
  NewMembers (r ∷ rest) s =
      (has r.now (redis_key window_seconds r.client_id) r.member
          (pruned sets laws n window_seconds r.now r.client_id s)
        ≡ false)
      × NewMembers rest (is_allowed_redis sets n window_seconds r.now r.member r.client_id s).1

  -- a Redis without a set of the limiter
  abbrev pub IsBlank : Store → Type 0
  IsBlank s =
      (c : String) (at : ℕ) (test : ℕ → Bool) → count at (redis_key window_seconds c) test s ≡ 0

  module _ {before now : ℕ} {s : Store} {log : Log} (m : Matches sets window_seconds before s log)
      (since : before ≤ now) (late : seconds window_seconds ≤ now) (c : String) (member : String)
      (fresh : has now
          (redis_key window_seconds c)
          member
          (pruned sets laws n window_seconds now c s)
        ≡ false) where
    is_allowed_redis-granted :
        log_allows n (seconds window_seconds) now c log ≡ true
        → (is_allowed_redis sets n window_seconds now member c s).1
          ≡ grown sets laws n window_seconds m since late c member
    unfolding is_allowed_redis
    is_allowed_redis-granted a =
        ground (arith, a, is_allowed_redis-log sets laws n window_seconds m since late c member)

    is_allowed_redis-refused :
        log_allows n (seconds window_seconds) now c log ≡ false
        → (is_allowed_redis sets n window_seconds now member c s).1
          ≡ pruned sets laws n window_seconds now c s
    unfolding is_allowed_redis
    is_allowed_redis-refused a =
        ground (arith, a, is_allowed_redis-log sets laws n window_seconds m since late c member)

    abbrev Counted : Store → Log → Type 0
    Counted after log' =
        (d : String) (at later : ℕ)
        → now ≤ at
        → at ≤ later
        → seconds window_seconds ≤ at
        → count at (redis_key window_seconds d) (is_recent (seconds window_seconds) later) after
          ≡ length (select (is_recent (seconds window_seconds) later) (log' d))

    grown-Counted :
        Counted (grown sets laws n window_seconds m since late c member) (note now c true log)
    grown-Counted d at later h k l = elim (Bool-cases (c == d)) [
      | inl same ↦
          rw (← (eq_iff c d).0 same, ==_refl c)
            (count-grown sets laws n window_seconds m since late c member fresh at later h k)
      | inr differ ↦
          rw differ
            (count-other sets laws n window_seconds m since late c member d at later
              (λ e. ground (arith, eq_iff c d, differ, e)) h k l).0
    ]

    pruned-Counted : Counted (pruned sets laws n window_seconds now c s) (note now c false log)
    pruned-Counted d at later h k l = elim (Bool-cases (c == d)) [
      | inl same ↦
          rw (← (eq_iff c d).0 same, ==_refl c)
            (count-refused sets laws n window_seconds m since late c member at later h k l)
      | inr differ ↦
          rw differ
            (count-other sets laws n window_seconds m since late c member d at later
              (λ e. ground (arith, eq_iff c d, differ, e)) h k l).1
    ]

    note-IsPast : (allowed : Bool) (d : String) → IsPast now (note now c allowed log d)
    note-IsPast allowed d =
        let before_now = later-IsPast before now (log d) since (m.past d) in
        ground (arith, before_now, append-IsPast now (log d) before_now)

    is_allowed_redis-Matches :
        Matches sets window_seconds now
          (is_allowed_redis sets n window_seconds now member c s).1
          (note now c (log_allows n (seconds window_seconds) now c log) log)
    is_allowed_redis-Matches = elim (Bool-cases (log_allows n (seconds window_seconds) now c log)) [
      | inl a ↦
          rw (is_allowed_redis-granted a, a)
            (record { counts = grown-Counted; past = note-IsPast true })
      | inr a ↦
          rw (is_allowed_redis-refused a, a)
            (record { counts = pruned-Counted; past = note-IsPast false })
    ]

  decisions-Matches :
      (requests : List RedisRequest) {before : ℕ} {s : Store} {log : Log}
      → Matches sets window_seconds before s log
      → seconds window_seconds ≤ before
      → Ascending before (map plain requests)
      → NewMembers requests s
      → redis_decisions requests s
        ≡ log_decisions n (seconds window_seconds) (map plain requests) log
  unfolding redis_decisions log_decisions NewMembers
  decisions-Matches [] m late a f = refl
  decisions-Matches (r ∷ rest) m late (since, a) (fresh, f) =
      let late' = le_trans late since in
      ap₂ ◌∷◌ (is_allowed_redis-log sets laws n window_seconds m since late' r.client_id r.member) (
        decisions-Matches rest (is_allowed_redis-Matches m since late' r.client_id r.member fresh)
          late' a f)

  blank-Matches : (start : ℕ) (s : Store) → IsBlank s → Matches sets window_seconds start s blank
  blank-Matches start s empty = record {
    counts = λ c at later h k l. empty c at (is_recent (seconds window_seconds) later);
    past = λ c. refl;
  }

  -- Over a Redis that keeps the laws of its sorted sets and has none of the limiter's to begin with,
  -- from a window after the epoch on and under a clock that never falls, the limiter in Redis lets a
  -- request through exactly when fewer than `requests_per_window` requests of its client were let
  -- through in the window that ends at it, if every request adds a new member.
  pub redis_decisions-log :
      (start : ℕ) (requests : List RedisRequest) (s : Store)
      → IsBlank s
      → seconds window_seconds ≤ start
      → Ascending start (map plain requests)
      → NewMembers requests s
      → redis_decisions requests s
        ≡ log_decisions n (seconds window_seconds) (map plain requests) blank
  redis_decisions-log start requests s empty late a f =
      decisions-Matches requests (blank-Matches start s empty) late a f
