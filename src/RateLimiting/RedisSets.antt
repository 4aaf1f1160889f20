-- ===== src/RateLimiting/RedisSets.antt =====
-- mcp_authflow/rate_limiting.py: `SlidingWindowRateLimiter` with a Redis client. The sorted sets of
-- Redis are a record of operations, with the documented behaviour of the commands as its laws.
use Prim.Native.String.{◌++◌ as concat}
use Prim.Native.String
use mcp_authflow.Text.{Text}
use mcp_authflow.Responses.{decimal}
use mcp_authflow.Prelude.{
  [], ◌∷◌, ℕ, ◌+◌, ◌-◌, ◌≤◌, ◌<◌, ◌≡◌, ◌≢◌, String, Bool, true, false, ◌&&◌, Option, none, some,
  leb, ltb, if◌then◌else◌,
}
use mcp_authflow.Prelude.Time.{seconds}
use mcp_authflow.RateLimiting.{
  SlidingWindowRateLimiter, is_allowed_memory, get_retry_after_memory, retry_after_seconds,
}

-- Each command takes the reading of the clock at which it runs. `count` is how many members of a set
-- have a score that passes a test, and `has` whether a member is there.
pub record SortedSets : Type 1 where
  pub Store : Type 0
  pub zremrangebyscore : ℕ → String → ℕ → Store → Store
  pub zcard : ℕ → String → Store → ℕ
  pub zadd : ℕ → String → String → ℕ → Store → Store
  pub expire : ℕ → String → ℕ → Store → Store
  pub zrange_first : ℕ → String → Store → Option ℕ
  pub count : ℕ → String → (ℕ → Bool) → Store → ℕ
  pub has : ℕ → String → String → Store → Bool

module _ (sets : SortedSets) where
  open sets use {Store, zremrangebyscore, zcard, zadd, expire, zrange_first, count, has}

  pub record SetLaws : Type 0 where
    pub card : (now : ℕ) (key : String) (s : Store) → zcard now key s ≡ count now key (λ _. true) s
    pub part :
        (now : ℕ) (key : String) (test : ℕ → Bool) (s : Store)
        → count now key test s ≤ count now key (λ _. true) s
    -- what is left keeps its time to live
    pub removed :
        (now later : ℕ) (key : String) (top : ℕ) (test : ℕ → Bool) (s : Store)
        → now ≤ later
        → count later key test (zremrangebyscore now key top s)
          ≡ count later key (λ t. ltb top t && test t) s
    -- a new member, at the instant at which it is added
    pub added :
        (now : ℕ) (key member : String) (score : ℕ) (test : ℕ → Bool) (s : Store)
        → has now key member s ≡ false
        → count now key test (zadd now key member score s)
          ≡ count now key test s + (if test score then 1 else 0)
    -- a member, new or not
    pub added_le :
        (now : ℕ) (key member : String) (score : ℕ) (s : Store)
        → count now key (λ _. true) (zadd now key member score s) ≤ count now key (λ _. true) s + 1
    -- a set may lapse, and none appears
    pub lapses :
        (now later : ℕ) (key : String) (test : ℕ → Bool) (s : Store)
        → now ≤ later
        → count later key test s ≤ count now key test s
    -- the score that is answered is one of the set's
    pub first_none :
        (now : ℕ) (key : String) (s : Store)
        → zrange_first now key s ≡ none
        → count now key (λ _. true) s ≡ 0
    pub first_some :
        (now : ℕ) (key : String) (score : ℕ) (test : ℕ → Bool) (s : Store)
        → zrange_first now key s ≡ some score
        → test score ≡ false
        → count now key test s < count now key (λ _. true) s
    -- the set lasts for `time` seconds from now, as it is now
    pub expired :
        (now later : ℕ) (key : String) (time : ℕ) (test : ℕ → Bool) (s : Store)
        → now ≤ later
        → count later key test (expire now key time s)
          ≡ (if ltb later (now + seconds time) then count now key test s else 0)
    -- no command on a key changes another
    pub removed_other :
        (now later : ℕ) (key other : String) (top : ℕ) (test : ℕ → Bool) (s : Store)
        → key ≢ other
        → count later other test (zremrangebyscore now key top s) ≡ count later other test s
    pub added_other :
        (now later : ℕ) (key other member : String) (score : ℕ) (test : ℕ → Bool) (s : Store)
        → key ≢ other
        → count later other test (zadd now key member score s) ≡ count later other test s
    pub expired_other :
        (now later : ℕ) (key other : String) (time : ℕ) (test : ℕ → Bool) (s : Store)
        → key ≢ other
        → count later other test (expire now key time s) ≡ count later other test s

abbrev pub digit_string : Text → String
digit_string [] = ""
digit_string (c ∷ cs) = String.◌∷◌ (String.char_at "0123456789" (c - b'0')) (digit_string cs)

-- the prefix, the client and, behind a colon, the seconds of the window
abbrev pub redis_key : ℕ → String → String
redis_key window_seconds client_id =
    concat "mcp_auth:ratelimit:"
      (concat client_id (concat ":" (digit_string (decimal window_seconds))))

module _ (sets : SortedSets) (requests_per_window window_seconds : ℕ) where
  open sets use {Store, zremrangebyscore, zcard, zadd, expire, zrange_first}

  -- The commands of one call run at the reading `now` that the call makes, and after the start of the
  -- epoch by a window at least. `member` is the text of `now` with the random suffix.
  unfoldable pub is_allowed_redis : ℕ → String → String → Store → Bool × Store
  is_allowed_redis now member client_id s =
      let key = redis_key window_seconds client_id in
      let pruned = zremrangebyscore now key (now - seconds window_seconds) s in
      if leb requests_per_window (zcard now key pruned)
      then (false, pruned)
      else (true, expire now key (window_seconds + 1) (zadd now key member now pruned))

  -- no entries: 0, or else the seconds from the first one's score
  abbrev pub retry_after_of : ℕ → Option ℕ → ℕ
  retry_after_of now none = 0
  retry_after_of now (some oldest) = retry_after_seconds (seconds window_seconds) now oldest

  unfoldable pub get_retry_after_redis : ℕ → String → Store → ℕ × Store
  get_retry_after_redis now client_id s =
      let key = redis_key window_seconds client_id in
      let pruned = zremrangebyscore now key (now - seconds window_seconds) s in
      (retry_after_of now (zrange_first now key pruned), pruned)

module _ (sets : SortedSets) where
  open sets use {Store}

  -- With a Redis client the limiter counts there, and in its own dict without one.
  unfoldable pub is_allowed :
      ℕ
      → String
      → String
      → SlidingWindowRateLimiter × Option Store
      → Bool × (SlidingWindowRateLimiter × Option Store)
  unfolding is_allowed_memory is_allowed_redis
  is_allowed now member client_id (l, none) =
      let (allowed, after) = is_allowed_memory now client_id l in (allowed, (after, none))
  is_allowed now member client_id (l, some s) =
      let (allowed, after) =
        is_allowed_redis sets l.requests_per_window l.window_seconds now member client_id s in
      (allowed, (l, some after))

  unfoldable pub get_retry_after :
      ℕ
      → String
      → SlidingWindowRateLimiter × Option Store
      → ℕ × (SlidingWindowRateLimiter × Option Store)
  unfolding get_retry_after_memory get_retry_after_redis
  get_retry_after now client_id (l, none) = (get_retry_after_memory now client_id l, (l, none))
  get_retry_after now client_id (l, some s) =
      let (wait, after) =
        get_retry_after_redis sets l.requests_per_window l.window_seconds now client_id s in
      (wait, (l, some after))
