-- ===== src/RateLimiting/RedisBound.antt =====
-- How far callers of the limiter in Redis that run at once can go over the limit.
use mcp_authflow.Prelude.{
  ℕ, ◌+◌, ◌-◌, ◌≤◌, ◌<◌, ◌≡◌, ◌≢◌, String, true, false, ◌&&◌, Option, none, some, List, [], ◌∷◌,
  ◌++◌, ap, ◌∙◌, arith, leb, ltb, length, length-append, select, select-append, length-select-le,
  if◌then◌else◌, ◌==◌, eq_iff, Bool-cases, le_refl, inl, inr, ◌⊎◌,
}
use mcp_authflow.Prelude.Time.{seconds}
use mcp_authflow.RateLimiting.RedisSets.{SortedSets, SetLaws, redis_key}
use mcp_authflow.RateLimiting.RedisLog.{redis_key-injective}
use mcp_authflow.RateLimiting.RedisCallers.{
  Phase, pruning, checking, adding, expiring, Caller, is_pending, pending, waiting, advance, World,
  Step, tick, call, run, Reaches, here, followed, IsBounded,
}

length-waiting : (o : Option Caller) → length (waiting o) ≤ 1
length-waiting none = omega arith
length-waiting (some caller) = omega arith

pending-append :
    (d : String) (xs ys : List Caller) → pending d (xs ++ ys) ≡ pending d xs + pending d ys
pending-append d xs ys =
    ap length (select-append (is_pending d) xs ys)
    ∙ length-append (select (is_pending d) xs) (select (is_pending d) ys)

module _ (sets : SortedSets) (laws : SetLaws sets) (n window_seconds : ℕ) where
  open sets use {Store, zremrangebyscore, zcard, zadd, expire, count}

  abbrev caller_of : String → ℕ → String → Phase → Caller
  caller_of client_id now member phase = record {
    client_id = client_id;
    now = now;
    member = member;
    phase = phase;
  }

  -- A command adds to what is recorded of a client or about to be only where less than the limit is
  -- recorded.
  Bounds : ℕ → Caller → Store → String → Type 0
  Bounds clock caller s d =
      let key = redis_key window_seconds d in
      let (o, after) = advance sets n window_seconds clock caller s in
      (count clock key (λ _. true) after + pending d (waiting o)
        ≤ count clock key (λ _. true) s + pending d (caller ∷ []))
      ⊎ (count clock key (λ _. true) after < n)

  abbrev all_of : ℕ → String → Store → ℕ
  all_of clock d s = count clock (redis_key window_seconds d) (λ _. true) s

  apart :
      (c d : String) → (c == d) ≡ false → redis_key window_seconds c ≢ redis_key window_seconds d
  apart c d differ e =
      let same = redis_key-injective window_seconds c d e in
      ground (arith, eq_iff c d, differ, same)

  zremrangebyscore-le :
      (clock : ℕ) (c d : String) (top : ℕ) (s : Store)
      → all_of clock d (zremrangebyscore clock (redis_key window_seconds c) top s)
        ≤ all_of clock d s
  zremrangebyscore-le clock c d top s =
      let key = redis_key window_seconds d in
      elim (Bool-cases (c == d)) [
        | inl same ↦ rw ((eq_iff c d).0 same) (
            omega (
              arith,
              laws.removed clock clock key top (λ _. true) s (le_refl clock),
              laws.part clock key (λ t. ltb top t && true) s,
            ))
        | inr differ ↦ omega (
          arith,
          laws.removed_other clock clock (redis_key window_seconds c) key top (λ _. true) s
              (apart c d differ),
        )
      ]

  zadd-le :
      (clock : ℕ) (c d member : String) (score : ℕ) (s : Store)
      → all_of clock d (zadd clock (redis_key window_seconds c) member score s)
        ≤ all_of clock d s + (if c == d then 1 else 0)
  zadd-le clock c d member score s =
      let key = redis_key window_seconds d in
      elim (Bool-cases (c == d)) [
        | inl same ↦ rw (same, (eq_iff c d).0 same) (laws.added_le clock key member score s)
        | inr differ ↦ rw differ (
            omega (
              arith,
              laws.added_other clock clock (redis_key window_seconds c) key member score (λ _. true)
                  s (apart c d differ),
            ))
      ]

  expire-le :
      (clock : ℕ) (c d : String) (time : ℕ) (s : Store)
      → all_of clock d (expire clock (redis_key window_seconds c) time s) ≤ all_of clock d s
  expire-le clock c d time s =
      let key = redis_key window_seconds d in
      elim (Bool-cases (c == d)) [
        | inl same ↦
            rw ((eq_iff c d).0 same)
              (ground (arith, laws.expired clock clock key time (λ _. true) s (le_refl clock)))
        | inr differ ↦ omega (
          arith,
          laws.expired_other clock clock (redis_key window_seconds c) key time (λ _. true) s
              (apart c d differ),
        )
      ]

  advance-Bounds :
      (clock : ℕ) (c : String) (now : ℕ) (member : String) (phase : Phase) (s : Store) (d : String)
      → Bounds clock (caller_of c now member phase) s d
  unfolding advance Bounds
  advance-Bounds clock c now member checking s d =
      let key = redis_key window_seconds c in
      elim (Bool-cases (leb n (zcard clock key s))) [
        | inl over ↦ inl (rw over (omega arith))
        | inr under ↦ elim (Bool-cases (c == d)) [
          | inl same ↦
              inr (rw (← (eq_iff c d).0 same) (ground (arith, under, laws.card clock key s)))
          | inr differ ↦ inl (rw (under, differ) (omega arith))
        ]
      ]
  advance-Bounds clock c now member pruning s d =
      inl (omega (arith, zremrangebyscore-le clock c d (now - seconds window_seconds) s))
  advance-Bounds clock c now member adding s d =
      inl (ground (arith, zadd-le clock c d member now s))
  advance-Bounds clock c now member expiring s d =
      inl (omega (arith, expire-le clock c d (window_seconds + 1) s))

  caller-Bounds : (clock : ℕ) (caller : Caller) (s : Store) (d : String) → Bounds clock caller s d
  caller-Bounds clock caller s d =
      advance-Bounds clock caller.client_id caller.now caller.member caller.phase s d

  module _ (limit : ℕ) where
    run-IsBounded :
        (clock : ℕ) (before : List Caller) (caller : Caller) (after : List Caller) (s : Store)
        → IsBounded sets n window_seconds limit
            (record { clock = clock; callers = before ++ caller ∷ after; store = s })
        → IsBounded sets n window_seconds limit (record {
          clock = clock;
          callers = before ++ waiting (advance sets n window_seconds clock caller s).0 ++ after;
          store = (advance sets n window_seconds clock caller s).1;
        })
    unfolding Bounds
    run-IsBounded clock before caller after s v =
        let left = waiting (advance sets n window_seconds clock caller s).0 in
        let working : length (before ++ left ++ after) ≤ limit = omega (
          arith,
          v.working,
          length-waiting (advance sets n window_seconds clock caller s).0,
          length-append (before ++ left) after,
          length-append before left,
          length-append before (caller ∷ after),
        ) in
        record {
          working = working;
          admitted = λ d. elim (caller-Bounds clock caller s d) [
            | inl less ↦ omega (
              arith,
              less,
              v.admitted d,
              pending-append d (before ++ left) after,
              pending-append d before left,
              pending-append d before (caller ∷ after),
              pending-append d (caller ∷ []) after,
            )
            | inr under ↦
                omega
                  (arith, under, working, length-select-le (is_pending d) (before ++ left ++ after))
          ];
        }

    step-IsBounded :
        (world next : World sets n window_seconds)
        → IsBounded sets n window_seconds limit world
        → Step sets n window_seconds limit world next
        → IsBounded sets n window_seconds limit next
    step-IsBounded world next v (tick clock later callers s h) = record {
      working = v.working;
      admitted = λ d. omega (
        arith,
        v.admitted d,
        laws.lapses clock later (redis_key window_seconds d) (λ _. true) s h,
      );
    }
    step-IsBounded world next v (call clock c member callers s h) = record {
      working = omega (arith, h);
      admitted = λ d. v.admitted d;
    }
    step-IsBounded world next v (run clock before caller after s) =
        run-IsBounded clock before caller after s v

    -- From a Redis without sets of the limiter and no caller at work, whatever callers of whatever
    -- clients run their commands in whatever order, at most `limit` of them at once and one at least, the
    -- requests of a client that are recorded or let through and about to be never exceed the
    -- limit of the window by as many as `limit`.
    pub Reaches-IsBounded :
        (clock : ℕ) (s : Store) (world : World sets n window_seconds)
        → ((d : String) → count clock (redis_key window_seconds d) (λ _. true) s ≡ 0)
        → 0 < limit
        → Reaches sets n window_seconds limit
            (record { clock = clock; callers = []; store = s })
            world
        → IsBounded sets n window_seconds limit world
    Reaches-IsBounded clock s world empty pos here = record {
      working = omega arith;
      admitted = λ d. omega (arith, empty d, pos);
    }
    Reaches-IsBounded clock s world empty pos (followed before next r step) =
        step-IsBounded before world (Reaches-IsBounded clock s before empty pos r) step
