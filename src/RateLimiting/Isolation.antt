-- ===== src/RateLimiting/Isolation.antt =====
-- What a request of one client does to the others.
use mcp_authflow.Prelude.{
  ℕ, ◌+◌, ◌≤◌, ◌<◌, String, ◌≡◌, ◌≢◌, Bool, some, List, [], ◌∷◌, arith, leb, length, select, ◌++◌,
  eq_iff, maximum,
}
use mcp_authflow.Dict
use mcp_authflow.Dict.{get-remove_where, get-put, holds}
use mcp_authflow.RateLimiting.{
  SlidingWindowRateLimiter, window, timestamps_of, is_recent, is_stale, sweep_expired,
  is_allowed_memory,
}
use mcp_authflow.RateLimiting.Step.{
  select-sweep_expired, is_allowed_memory-eq, timestamps_of-is_allowed_memory,
  settings-is_allowed_memory,
}

-- A request of one client, granted or refused, and the sweep that it may start, do not change the
-- answer to another client's request at that time or later.
pub is_allowed_memory_other :
    (now later : ℕ) (c d : String) (l : SlidingWindowRateLimiter)
    → c ≢ d
    → now ≤ later
    → (is_allowed_memory later d (is_allowed_memory now c l).1).0 ≡ (is_allowed_memory later d l).0
is_allowed_memory_other now later c d l other h =
    let l' = (is_allowed_memory now c l).1 in
    ground (
      arith,
      eq_iff c d,
      is_allowed_memory-eq later l' d,
      is_allowed_memory-eq later l d,
      settings-is_allowed_memory now l c,
      timestamps_of-is_allowed_memory now l c d,
      select-sweep_expired now l d later h,
    )

-- at most a window old
abbrev pub is_fresh : ℕ → ℕ → ℕ → Bool
is_fresh w now t = leb now (t + w)

fresh_of_not_stale :
    (w now t : ℕ) (ts : List ℕ)
    → now ≤ maximum t ts + w
    → 0 < length (select (is_fresh w now) (t ∷ ts))
fresh_of_not_stale w now t [] h = ground arith
fresh_of_not_stale w now t (s ∷ ts) h = ground (arith, fresh_of_not_stale w now s ts)

get-sweep_expired :
    (now : ℕ) (c : String) (l : SlidingWindowRateLimiter) (ts : List ℕ)
    → l.last_sweep + window l ≤ now
    → Dict.get (sweep_expired now l).clients c ≡ some ts
    → 0 < length (select (is_fresh (window l) now) ts)
unfolding sweep_expired
get-sweep_expired now c l [] due h =
    ground (arith, get-remove_where l.clients (is_stale (window l) now) c)
get-sweep_expired now c l (t ∷ ts) due h = ground (
  arith,
  get-remove_where l.clients (is_stale (window l) now) c,
  fresh_of_not_stale (window l) now t ts,
)

-- A request that comes a window or more after the last sweep leaves in the dict, of the other
-- clients, only those with a timestamp that is at most a window old.
pub get-is_allowed_memory_fresh :
    (now : ℕ) (c d : String) (l : SlidingWindowRateLimiter) (ts : List ℕ)
    → c ≢ d
    → l.last_sweep + window l ≤ now
    → Dict.get (is_allowed_memory now c l).1.clients d ≡ some ts
    → 0 < length (select (is_fresh (window l) now) ts)
unfolding is_allowed_memory
get-is_allowed_memory_fresh now c d l ts other due h =
    let swept = sweep_expired now l in
    let recent = select (is_recent (window l) now) (timestamps_of swept c) in
    ground (
      arith,
      eq_iff c d,
      get-put swept.clients c d recent,
      get-put swept.clients c d (recent ++ now ∷ []),
      get-sweep_expired now d l ts due,
    )
