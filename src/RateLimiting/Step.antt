-- ===== src/RateLimiting/Step.antt =====
-- What one `is_allowed` leaves in the dict of the limiter.
use mcp_authflow.Prelude.{
  ℕ, ◌+◌, ◌≤◌, le_refl, String, ◌≡◌, refl, Option, none, some, List, [], ◌∷◌, ◌++◌, arith, ltb,
  ◌==◌, if◌then◌else◌, length, select, inl, inr, Bool-cases,
}
use mcp_authflow.Dict
use mcp_authflow.Dict.{Dict, get-remove_where, get-put, holds}
use mcp_authflow.RateLimiting.{
  SlidingWindowRateLimiter, window, or_empty, timestamps_of, is_recent, is_stale, sweep_expired,
  is_allowed_memory,
}
use mcp_authflow.RateLimiting.Windows.{select_stale}

module _ (now : ℕ) (l : SlidingWindowRateLimiter) where
  drop_stale :
      (w later : ℕ) (o : Option (List ℕ))
      → now ≤ later
      → select (is_recent w later) (or_empty (if holds (is_stale w now) o then none else o))
        ≡ select (is_recent w later) (or_empty o)
  drop_stale w later none h = refl
  drop_stale w later (some ts) h = elim (Bool-cases (is_stale w now ts)) [
    | inl stale ↦ rw (stale, select_stale w now later ts stale h)
    | inr kept ↦ rw kept
  ]

  -- The sweep removes nothing that is in a window which ends now or later.
  pub select-sweep_expired :
      (d : String) (later : ℕ)
      → now ≤ later
      → select (is_recent (window l) later) (timestamps_of (sweep_expired now l) d)
        ≡ select (is_recent (window l) later) (timestamps_of l d)
  unfolding sweep_expired
  select-sweep_expired d later h = elim (Bool-cases (ltb now (l.last_sweep + window l))) [
    | inl early ↦ rw early
    | inr due ↦ rw (due, get-remove_where) (drop_stale (window l) later (Dict.get l.clients d) h)
  ]

  -- Whether the request of a client is let through is decided by its timestamps in the window.
  pub is_allowed_memory-eq :
      (c : String)
      → (is_allowed_memory now c l).0
        ≡ ltb (length (select (is_recent (window l) now) (timestamps_of l c))) l.requests_per_window
  unfolding is_allowed_memory
  is_allowed_memory-eq c = rw (← select-sweep_expired c now (le_refl now)) (ground arith)

  pub timestamps_of-is_allowed_memory :
      (c d : String)
      → timestamps_of (is_allowed_memory now c l).1 d ≡ (
          if c == d
          then (let recent = select (is_recent (window l) now) (timestamps_of l c) in
              if (is_allowed_memory now c l).0 then recent ++ now ∷ [] else recent)
          else timestamps_of (sweep_expired now l) d)
  unfolding is_allowed_memory
  timestamps_of-is_allowed_memory c d =
      let swept = sweep_expired now l in
      let recent = select (is_recent (window l) now) (timestamps_of swept c) in
      rw (← select-sweep_expired c now (le_refl now)) (
        ground
          (arith, get-put swept.clients c d recent, get-put swept.clients c d (recent ++ now ∷ [])))

  pub settings-is_allowed_memory :
      (c : String)
      → let l' = (is_allowed_memory now c l).1 in
        (l'.requests_per_window ≡ l.requests_per_window) × (l'.window_seconds ≡ l.window_seconds)
  unfolding is_allowed_memory sweep_expired
  settings-is_allowed_memory c = ground arith
