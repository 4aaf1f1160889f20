-- ===== src/RateLimiting/Bound.antt =====
-- The granted requests of one client in a window, wherever the window lies.
use mcp_authflow.Prelude.{
  ℕ, ◌+◌, ◌≤◌, String, ◌≡◌, Bool, ◌&&◌, List, [], ◌∷◌, ◌++◌, arith, ltb, leb, ◌==◌, if◌then◌else◌,
  length, length-append, select, select-append, eq_iff, Bool-cases, inl, inr, sym,
}
use mcp_authflow.Prelude.Time.{seconds}
use mathlib.Core.List.{append-nil, append_assoc}
use mcp_authflow.RateLimiting.{SlidingWindowRateLimiter, init, is_recent, is_allowed_memory}
use mcp_authflow.RateLimiting.Log.{
  Log, log_allows, note, Requests, Ascending, Tracks, Tracks-later, is_allowed_memory-log,
  is_allowed_memory-Tracks, init-Tracks,
}

-- the instants of the requests of a client that were answered `True`
unfoldable pub granted : Requests → SlidingWindowRateLimiter → String → List ℕ
granted [] l d = []
granted ((now, c) ∷ rest) l d =
    let (allowed, l') = is_allowed_memory now c l in
    let later = granted rest l' d in if (c == d) && allowed then now ∷ later else later

-- t is in the window of width `w` that ends at `x`
abbrev pub in_window : ℕ → ℕ → ℕ → Bool
in_window w x t = leb t x && ltb x (t + w)

length-in_window-le :
    (w now x : ℕ) (ts : List ℕ)
    → now ≤ x
    → length (select (in_window w x) ts) ≤ length (select (is_recent w now) ts)
length-in_window-le w now x [] h = omega arith
length-in_window-le w now x (t ∷ ts) h = ground (arith, length-in_window-le w now x ts h)

abbrev Bounded : ℕ → ℕ → Log → Type 0
Bounded n w log = (c : String) (x : ℕ) → length (select (in_window w x) (log c)) ≤ n

note-Bounded :
    (n w now : ℕ) (c : String) (log : Log)
    → Bounded n w log
    → Bounded n w (note now c (log_allows n w now c log) log)
note-Bounded n w now c log b d x = ground (
  arith,
  eq_iff c d,
  b d x,
  select-append (in_window w x) (log d) (now ∷ []),
  length-append (select (in_window w x) (log d)) (select (in_window w x) (now ∷ [])),
  length-in_window-le w now x (log d),
)

note-append :
    (log : Log) (now : ℕ) (c d : String) (allowed : Bool) (rest : List ℕ)
    → log d ++ (if (c == d) && allowed then now ∷ rest else rest) ≡ note now c allowed log d ++ rest
note-append log now c d allowed rest = elim (Bool-cases ((c == d) && allowed)) [
  | inl hit ↦ rw hit (sym (append_assoc (log d) (now ∷ []) rest))
  | inr miss ↦ rw miss
]

-- what was granted before and what is granted from now on
granted-Bounded :
    (requests : Requests) {n s now : ℕ} {l : SlidingWindowRateLimiter} {log : Log}
    → Tracks n s now l log
    → Ascending now requests
    → Bounded n (seconds s) log
    → Bounded n (seconds s) (λ d. log d ++ granted requests l d)
unfolding granted
granted-Bounded [] t a b d x = rw append-nil (b d x)
granted-Bounded ((later, c) ∷ rest) {n} {s} {now} {l} {log} t (h, a) b d x =
    let t' = Tracks-later later h t in
    let (allowed, l') = is_allowed_memory later c l in
    rw (note-append log later c d allowed (granted rest l' d), is_allowed_memory-log t' c)
      (granted-Bounded rest (is_allowed_memory-Tracks t' c) a
        (note-Bounded n (seconds s) later c log b) d x)

-- Under a clock that never falls, whatever the requests and their clients, every window of
-- `window_seconds`, wherever it ends, holds at most `requests_per_window` granted requests of any
-- one client.
pub granted-le-limit :
    (n s : ℕ) (requests : Requests) (client : String) (x : ℕ)
    → Ascending 0 requests
    → length (select (in_window (seconds s) x) (granted requests (init n s) client)) ≤ n
granted-le-limit n s requests client x a =
    granted-Bounded requests (init-Tracks n s) a (λ c y. omega arith) client x
