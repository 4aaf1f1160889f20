-- ===== src/RateLimiting/RedisLog.antt =====
-- One request to the limiter in Redis, against the log of Log.
use mcp_authflow.Prelude.{
  ℕ, ◌+◌, ◌-◌, ◌≤◌, ◌≡◌, ◌≢◌, refl, String, true, false, ◌&&◌, List, [], ◌∷◌, ◌++◌, ap, ◌∙◌, arith,
  ltb, leb, length, select, select-append, length-append, all,
}
use Prim.Native.String.{◌++◌ as concat}
use mcp_authflow.Responses.{decimal}
use text.Mathlib.TextLemmas.{append_cancel_left, append_cancel_right}
use mcp_authflow.Prelude.Time.{seconds}
use mcp_authflow.RateLimiting.{is_recent}
use mcp_authflow.RateLimiting.Log.{Log, log_allows}
use mcp_authflow.RateLimiting.RedisSets.{
  SortedSets, SetLaws, digit_string, redis_key, is_allowed_redis,
}

-- Two clients have two keys.
pub redis_key-injective :
    (window_seconds : ℕ) (c d : String)
    → redis_key window_seconds c ≡ redis_key window_seconds d
    → c ≡ d
redis_key-injective window_seconds c d e =
    let behind = concat ":" (digit_string (decimal window_seconds)) in
    append_cancel_right c d behind
      (append_cancel_left "mcp_auth:ratelimit:" (concat c behind) (concat d behind) e)

abbrev pub IsPast : ℕ → List ℕ → Type 0
IsPast now ts = all (λ t. leb t now) ts ≡ true

no_recent :
    (w now later : ℕ) (ts : List ℕ)
    → now + w ≤ later
    → IsPast now ts
    → length (select (is_recent w later) ts) ≡ 0
no_recent w now later [] h p = refl
no_recent w now later (t ∷ ts) h p = ground (arith, no_recent w now later ts)

pub later-IsPast : (now later : ℕ) (ts : List ℕ) → now ≤ later → IsPast now ts → IsPast later ts
later-IsPast now later [] h p = refl
later-IsPast now later (t ∷ ts) h p = ground (arith, later-IsPast now later ts)

pub append-IsPast : (now : ℕ) (ts : List ℕ) → IsPast now ts → IsPast now (ts ++ now ∷ [])
append-IsPast now [] p = ground arith
append-IsPast now (t ∷ ts) p = ground (arith, append-IsPast now ts)

-- What Redis keeps is enough: of every client, at every instant from now on, as many recent scores as
-- the log has.
pub record Matches (sets : SortedSets) (window_seconds now : ℕ) (s : sets.Store) (log : Log)
    : Type 0 where
  pub counts :
      (c : String) (at later : ℕ)
      → now ≤ at
      → at ≤ later
      → seconds window_seconds ≤ at
      → sets.count at (redis_key window_seconds c) (is_recent (seconds window_seconds) later) s
        ≡ length (select (is_recent (seconds window_seconds) later) (log c))
  pub past : (c : String) → IsPast now (log c)

module _ (sets : SortedSets) (laws : SetLaws sets) (n window_seconds : ℕ) where
  open sets use {Store, count, zremrangebyscore, has}

  abbrev pub w : ℕ
  w = seconds window_seconds

  abbrev pub pruned : ℕ → String → Store → Store
  pruned now c s = zremrangebyscore now (redis_key window_seconds c) (now - w) s

  -- the pruning keeps what is recent now or later
  count-pruned :
      (now at later : ℕ) (c : String) (s : Store)
      → w ≤ now
      → now ≤ at
      → at ≤ later
      → count at (redis_key window_seconds c) (is_recent w later) (pruned now c s)
        ≡ count at (redis_key window_seconds c) (is_recent w later) s
  count-pruned now at later c s h k l =
      laws.removed now at (redis_key window_seconds c) (now - w) (is_recent w later) s k
      ∙ ap (λ f. count at (redis_key window_seconds c) f s) (λ i t. same t i)
    where
      same : (t : ℕ) → (ltb (now - w) t && is_recent w later t) ≡ is_recent w later t
      same t = ground arith

  pub zcard-pruned :
      (now : ℕ) (c : String) (s : Store)
      → w ≤ now
      → sets.zcard now (redis_key window_seconds c) (pruned now c s)
        ≡ count now (redis_key window_seconds c) (is_recent w now) s
  zcard-pruned now c s h =
      laws.card now (redis_key window_seconds c) (pruned now c s)
      ∙ laws.removed now now (redis_key window_seconds c) (now - w) (λ _. true) s (omega arith)
      ∙ ap (λ f. count now (redis_key window_seconds c) f s) (λ i t. same t i)
    where
      same : (t : ℕ) → (ltb (now - w) t && true) ≡ is_recent w now t
      same t = ground arith

  module _ {before now : ℕ} {s : Store} {log : Log} (m : Matches sets window_seconds before s log)
      (since : before ≤ now) (late : w ≤ now) (c : String) (member : String) where
    -- The decision is that of the log.
    pub is_allowed_redis-log :
        (is_allowed_redis sets n window_seconds now member c s).0 ≡ log_allows n w now c log
    unfolding is_allowed_redis
    is_allowed_redis-log =
        ground (arith, zcard-pruned now c s late, m.counts c now now since (omega arith) late)

    abbrev pub key : String
    key = redis_key window_seconds c

    abbrev pub grown : Store
    grown = sets.expire now key (window_seconds + 1) (sets.zadd now key member now (pruned now c s))

    module _ (fresh : has now key member (pruned now c s) ≡ false) where
      pub count-grown :
          (at later : ℕ)
          → now ≤ at
          → at ≤ later
          → count at key (is_recent w later) grown
            ≡ length (select (is_recent w later) (log c ++ now ∷ []))
      count-grown at later h k =
          let recent = is_recent w later in
          let kept = pruned now c s in
          ground (
            arith,
            laws.expired now at key (window_seconds + 1) recent (sets.zadd now key member now kept)
                h,
            laws.added now key member now recent kept fresh,
            count-pruned now now later c s late (omega arith) (omega arith),
            m.counts c now later since (omega arith) late,
            select-append recent (log c) (now ∷ []),
            length-append (select recent (log c)) (select recent (now ∷ [])),
            no_recent w now later (log c ++ now ∷ []),
            append-IsPast now (log c) (later-IsPast before now (log c) since (m.past c)),
          )

    pub count-refused :
        (at later : ℕ)
        → now ≤ at
        → at ≤ later
        → w ≤ at
        → count at key (is_recent w later) (pruned now c s)
          ≡ length (select (is_recent w later) (log c))
    count-refused at later h k l =
        count-pruned now at later c s late h k ∙ m.counts c at later (omega arith) k l

    pub count-other :
        (d : String) (at later : ℕ)
        → c ≢ d
        → now ≤ at
        → at ≤ later
        → w ≤ at
        → (count at (redis_key window_seconds d) (is_recent w later) grown
            ≡ length (select (is_recent w later) (log d)))
          × (count at (redis_key window_seconds d) (is_recent w later) (pruned now c s)
              ≡ length (select (is_recent w later) (log d)))
    count-other d at later differ h k l =
        let recent = is_recent w later in
        let kept = pruned now c s in
        let apart : key ≢ redis_key window_seconds d =
          λ e. differ (redis_key-injective window_seconds c d e) in
        let same =
          laws.removed_other now at key (redis_key window_seconds d) (now - w) recent s apart
          ∙ m.counts d at later (omega arith) k l in
        (
          laws.expired_other now at key (redis_key window_seconds d) (window_seconds + 1) recent
                (sets.zadd now key member now kept) apart
              ∙ laws.added_other now at key (redis_key window_seconds d) member now recent kept
                  apart
              ∙ same,
          same,
        )
