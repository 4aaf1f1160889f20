-- ===== src/RateLimiting/Log.antt =====
-- A limiter that forgets nothing: a log of every request that was let through, which is never pruned.
-- It is compared with the limiter of the program.
use mcp_authflow.Prelude.{
  ℕ, ◌≤◌, String, ◌≡◌, refl, Bool, ◌&&◌, List, [], ◌∷◌, ◌++◌, arith, ap₂, ltb, ◌==◌, if◌then◌else◌,
  length, select, select-append, le_refl, ◌∙◌, eq_iff,
}
use mcp_authflow.Prelude.Time.{seconds}
use mcp_authflow.Dict.{get-empty}
use mcp_authflow.RateLimiting.{
  SlidingWindowRateLimiter, init, timestamps_of, is_recent, sweep_expired, is_allowed_memory,
}
use mcp_authflow.RateLimiting.Windows.{select-select}
use mcp_authflow.RateLimiting.Step.{
  select-sweep_expired, is_allowed_memory-eq, timestamps_of-is_allowed_memory,
  settings-is_allowed_memory,
}

-- the instants at which requests of a client were let through
abbrev pub Log : Type 0
Log = String → List ℕ

abbrev pub blank : Log
blank _ = []

-- fewer than `n` requests were let through in the window `w` that ends now
abbrev pub log_allows : ℕ → ℕ → ℕ → String → Log → Bool
log_allows n w now c log = ltb (length (select (is_recent w now) (log c))) n

abbrev pub note : ℕ → String → Bool → Log → Log
note now c allowed log d = if (c == d) && allowed then log d ++ now ∷ [] else log d

-- a request is the instant and the client
abbrev pub Requests : Type 0
Requests = List (ℕ × String)

-- the readings of the clock never fall
abbrev pub Ascending : ℕ → Requests → Type 0
Ascending now [] = Unit
Ascending now ((later, c) ∷ rest) = (now ≤ later) × Ascending later rest

unfoldable pub decisions : Requests → SlidingWindowRateLimiter → List Bool
decisions [] l = []
decisions ((now, c) ∷ rest) l =
    let (allowed, l') = is_allowed_memory now c l in allowed ∷ decisions rest l'

unfoldable pub log_decisions : ℕ → ℕ → Requests → Log → List Bool
log_decisions n w [] log = []
log_decisions n w ((now, c) ∷ rest) log =
    let allowed = log_allows n w now c log in
    allowed ∷ log_decisions n w rest (note now c allowed log)

pub record Tracks (n duration now : ℕ) (l : SlidingWindowRateLimiter) (log : Log) : Type 0 where
  pub limit : l.requests_per_window ≡ n
  pub width : l.window_seconds ≡ duration
  pub agrees :
      (c : String) (later : ℕ)
      → now ≤ later
      → select (is_recent (seconds duration) later) (timestamps_of l c)
        ≡ select (is_recent (seconds duration) later) (log c)

module _ {n s : ℕ} where
  pub Tracks-later :
      {now : ℕ} (later : ℕ) {l : SlidingWindowRateLimiter} {log : Log}
      → now ≤ later
      → Tracks n s now l log
      → Tracks n s later l log
  Tracks-later later h t = record {
    limit = t.limit;
    width = t.width;
    agrees = λ c last k. t.agrees c last (omega arith);
  }

  module _ {now : ℕ} {l : SlidingWindowRateLimiter} {log : Log} (t : Tracks n s now l log)
      (c : String) where
    pub is_allowed_memory-log : (is_allowed_memory now c l).0 ≡ log_allows n (seconds s) now c log
    is_allowed_memory-log =
        rw (is_allowed_memory-eq, t.width, t.limit, t.agrees c now (le_refl now))

    is_allowed_memory-agrees :
        (d : String) (later : ℕ)
        → now ≤ later
        → select (is_recent (seconds s) later) (timestamps_of (is_allowed_memory now c l).1 d)
          ≡ select (is_recent (seconds s) later) (note now c (is_allowed_memory now c l).0 log d)
    is_allowed_memory-agrees d later h =
        let w = seconds s in
        let recent = select (is_recent w now) (timestamps_of l c) in
        ground (
          arith,
          eq_iff c d,
          after,
          swept,
          select-append (is_recent w later) recent (now ∷ []),
          select-append (is_recent w later) (log d) (now ∷ []),
          select-select w now later (timestamps_of l c) h,
          t.agrees d later h,
        )
      where
        after : timestamps_of (is_allowed_memory now c l).1 d ≡ (
            if c == d
            then (let recent = select (is_recent (seconds s) now) (timestamps_of l c) in
                if (is_allowed_memory now c l).0 then recent ++ now ∷ [] else recent)
            else timestamps_of (sweep_expired now l) d)
        after = rw (← t.width) (timestamps_of-is_allowed_memory now l c d)

        swept :
            select (is_recent (seconds s) later) (timestamps_of (sweep_expired now l) d)
            ≡ select (is_recent (seconds s) later) (timestamps_of l d)
        swept = rw (← t.width) (select-sweep_expired now l d later h)

    pub is_allowed_memory-Tracks :
        Tracks n s now
          (is_allowed_memory now c l).1
          (note now c (log_allows n (seconds s) now c log) log)
    is_allowed_memory-Tracks = record {
      limit = (settings-is_allowed_memory now l c).0 ∙ t.limit;
      width = (settings-is_allowed_memory now l c).1 ∙ t.width;
      agrees = rw (← is_allowed_memory-log) is_allowed_memory-agrees;
    }

  pub decisions-Tracks :
      (requests : Requests) {now : ℕ} {l : SlidingWindowRateLimiter} {log : Log}
      → Tracks n s now l log
      → Ascending now requests
      → decisions requests l ≡ log_decisions n (seconds s) requests log
  unfolding decisions log_decisions
  decisions-Tracks [] t a = refl
  decisions-Tracks ((later, c) ∷ rest) t (h, a) =
      let t' = Tracks-later later h t in
      ap₂ ◌∷◌ (is_allowed_memory-log t' c) (decisions-Tracks rest (is_allowed_memory-Tracks t' c) a)

pub init-Tracks : (n s : ℕ) → Tracks n s 0 (init n s) blank
unfolding init
init-Tracks n s = record { limit = refl; width = refl; agrees = λ c later h. rw get-empty }

-- Under a clock that never falls, a new limiter answers every sequence of requests, of any clients,
-- as the ideal one does: a request is let through exactly when fewer than `requests_per_window`
-- requests of its client were let through in the window that ends at it. The pruning of the lists
-- and the sweep of the dict change no answer.
pub decisions-log :
    (n s : ℕ) (requests : Requests)
    → Ascending 0 requests
    → decisions requests (init n s) ≡ log_decisions n (seconds s) requests blank
decisions-log n s requests a = decisions-Tracks requests (init-Tracks n s) a
