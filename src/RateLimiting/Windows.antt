-- ===== src/RateLimiting/Windows.antt =====
-- The timestamps of a client inside a sliding window.
use mcp_authflow.Prelude.{
  ℕ, ◌+◌, ◌≤◌, ◌<◌, ◌≡◌, refl, List, [], ◌∷◌, arith, length, select, length-select-le, true,
  minimum, maximum,
}
use mcp_authflow.RateLimiting.{is_recent, is_stale}

-- What is outside the window stays outside.
pub select-select :
    (w now later : ℕ) (ts : List ℕ)
    → now ≤ later
    → select (is_recent w later) (select (is_recent w now) ts) ≡ select (is_recent w later) ts
select-select w now later [] h = refl
select-select w now later (t ∷ ts) h = ground (arith, select-select w now later ts h)

select-below :
    (w now : ℕ) (t : ℕ) (ts : List ℕ)
    → maximum t ts + w ≤ now
    → select (is_recent w now) (t ∷ ts) ≡ []
select-below w now t [] h = ground arith
select-below w now t (s ∷ ts) h = ground (arith, select-below w now s ts)

pub select_stale :
    (w now later : ℕ) (ts : List ℕ)
    → is_stale w now ts ≡ true
    → now ≤ later
    → select (is_recent w later) ts ≡ []
select_stale w now later [] s h = refl
select_stale w now later (t ∷ ts) s h = select-below w later t ts (ground arith)

-- Once the oldest timestamp has left the window, fewer are in it.
pub length-select-lt :
    (w now : ℕ) (t : ℕ) (ts : List ℕ)
    → minimum t ts + w ≤ now
    → length (select (is_recent w now) (t ∷ ts)) < length (t ∷ ts)
length-select-lt w now t [] h = ground arith
length-select-lt w now t (s ∷ ts) h =
    ground (arith, length-select-lt w now s ts, length-select-le (is_recent w now) (s ∷ ts))
