-- ===== src/RateLimiting/Retry.antt =====
-- `get_retry_after` of the limiter in memory.
use mcp_authflow.Prelude.{
  ℕ, ◌+◌, ◌≤◌, ◌<◌, String, ◌≡◌, refl, true, false, List, [], ◌∷◌, arith, length, length-append,
  select, minimum, length-select-le, ==_refl,
}
use mcp_authflow.Prelude.Time.{seconds}
use mcp_authflow.Dict.{get-remove_where, get-empty}
use mcp_authflow.RateLimiting.{
  SlidingWindowRateLimiter, init, window, timestamps_of, is_recent, is_stale, sweep_expired,
  is_allowed_memory, retry_after_seconds, get_retry_after_memory,
}
use mcp_authflow.RateLimiting.Windows.{length-select-lt}
use mcp_authflow.RateLimiting.Step.{
  is_allowed_memory-eq, timestamps_of-is_allowed_memory, settings-is_allowed_memory,
}

-- No client has more timestamps than the limit.
pub record IsWithin (l : SlidingWindowRateLimiter) : Type 0 where
  pub bounded : (c : String) → length (timestamps_of l c) ≤ l.requests_per_window

pub init-IsWithin : (n s : ℕ) → IsWithin (init n s)
unfolding init
init-IsWithin n s = record { bounded = λ c. rw get-empty (omega arith) }

length-sweep_expired-le :
    (now : ℕ) (l : SlidingWindowRateLimiter) (c : String)
    → length (timestamps_of (sweep_expired now l) c) ≤ length (timestamps_of l c)
unfolding sweep_expired
length-sweep_expired-le now l c =
    ground (arith, get-remove_where l.clients (is_stale (window l) now) c)

pub is_allowed_memory-IsWithin :
    (now : ℕ) (c : String) {l : SlidingWindowRateLimiter}
    → IsWithin l
    → IsWithin (is_allowed_memory now c l).1
is_allowed_memory-IsWithin now c {l} v = record {
  bounded = λ d. ground (
    arith,
    (settings-is_allowed_memory now l c).0,
    is_allowed_memory-eq now l c,
    timestamps_of-is_allowed_memory now l c d,
    v.bounded d,
    v.bounded c,
    length-sweep_expired-le now l d,
    length-append (select (is_recent (window l) now) (timestamps_of l c)) (now ∷ []),
    length-select-le (is_recent (window l) now) (timestamps_of l c),
  );
}

-- The seconds to wait are at least one, and end after the oldest request has left the window.
pub retry_after_seconds_lem :
    (w now oldest : ℕ)
    → (1 ≤ retry_after_seconds w now oldest)
      × (oldest + w < now + seconds (retry_after_seconds w now oldest))
unfolding retry_after_seconds
retry_after_seconds_lem w now oldest = ground arith

-- `get_retry_after` on the timestamps of the client
abbrev wait : ℕ → ℕ → List ℕ → ℕ
wait w now [] = 0
wait w now (t ∷ ts) = retry_after_seconds w now (minimum t ts)

get_retry_after_memory-wait :
    (now : ℕ) (c : String) (l : SlidingWindowRateLimiter)
    → get_retry_after_memory now c l ≡ wait (window l) now (timestamps_of l c)
unfolding get_retry_after_memory
get_retry_after_memory-wait now c l = go (timestamps_of l c)
  where
    go :
        (ts : List ℕ)
        → elim ts [ [] ↦ 0 | t ∷ ts ↦ retry_after_seconds (window l) now (minimum t ts) ]
          ≡ wait (window l) now ts
    go [] = refl
    go (t ∷ ts) = refl

length-select-lt_of_wait :
    (w now later n : ℕ) (ts : List ℕ)
    → length ts ≤ n
    → 0 < n
    → now + seconds (wait w now ts) ≤ later
    → length (select (is_recent w later) ts) < n
length-select-lt_of_wait w now later n [] b pos h = omega arith
length-select-lt_of_wait w now later n (t ∷ ts) b pos h =
    let ended = (retry_after_seconds_lem w now (minimum t ts)).1 in
    omega (arith, length-select-lt w later t ts (omega arith))

wait_pos : (w now : ℕ) (ts : List ℕ) → 0 < length ts → 1 ≤ wait w now ts
wait_pos w now [] h = absurd (omega arith)
wait_pos w now (t ∷ ts) h = (retry_after_seconds_lem w now (minimum t ts)).0

is_allowed_after_wait :
    (now later : ℕ) (c : String) (l : SlidingWindowRateLimiter)
    → IsWithin l
    → 0 < l.requests_per_window
    → now + seconds (get_retry_after_memory now c l) ≤ later
    → (is_allowed_memory later c l).0 ≡ true
is_allowed_after_wait now later c l v pos h =
    let w = window l in
    let ts = timestamps_of l c in
    ground (
      arith,
      is_allowed_memory-eq later l c,
      get_retry_after_memory-wait now c l,
      length-select-lt_of_wait w now later l.requests_per_window ts (v.bounded c) pos,
    )

-- In a limiter with a positive limit, in which no client has more timestamps than the limit: a
-- client that was refused, then asks how long to wait and makes no request for that many seconds,
-- is told to wait at least one second, and is let through.
pub retry_after_refusal :
    (now asked later : ℕ) (c : String) (l : SlidingWindowRateLimiter)
    → IsWithin l
    → 0 < l.requests_per_window
    → (is_allowed_memory now c l).0 ≡ false
    → let refused = (is_allowed_memory now c l).1 in
      asked + seconds (get_retry_after_memory asked c refused) ≤ later
      → (1 ≤ get_retry_after_memory asked c refused)
        × ((is_allowed_memory later c refused).0 ≡ true)
retry_after_refusal now asked later c l v pos refused h =
    let l' = (is_allowed_memory now c l).1 in
    let limit = (settings-is_allowed_memory now l c).0 in
    (
      ground (
        arith,
        ==_refl c,
        is_allowed_memory-eq now l c,
        timestamps_of-is_allowed_memory now l c c,
        get_retry_after_memory-wait asked c l',
        wait_pos (window l') asked (timestamps_of l' c),
      ),
      is_allowed_after_wait asked later c l' (is_allowed_memory-IsWithin now c v) (omega arith) h,
    )
