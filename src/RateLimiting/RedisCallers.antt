-- ===== src/RateLimiting/RedisCallers.antt =====
-- Callers of the limiter in Redis that run at once. `_is_allowed_redis` sends four commands and waits
-- for each: between any two of them the clock may go on and other callers may run.
use mathlib.Core.Path.{subst}
use mcp_authflow.Prelude.{
  ℕ, ◌+◌, ◌-◌, ◌≤◌, ◌<◌, ◌≡◌, refl, String, Bool, true, false, ◌&&◌, Option, none, some, List, [],
  ◌∷◌, ◌++◌, leb, length, select, if◌then◌else◌, ◌==◌, Bool-cases, inl, inr,
}
use mcp_authflow.Prelude.Time.{seconds}
use mcp_authflow.RateLimiting.RedisSets.{SortedSets, redis_key, is_allowed_redis}

-- the command that a caller sends next
pub data Phase : Type 0 where
  pruning checking adding expiring : Phase

pub record Caller : Type 0 where
  pub client_id : String
  pub now : ℕ
  pub member : String
  pub phase : Phase

abbrev pub is_adding : Phase → Bool
is_adding adding = true
is_adding _ = false

-- let through, and not yet in the set
abbrev pub is_pending : String → Caller → Bool
is_pending client_id caller = is_adding caller.phase && (caller.client_id == client_id)

abbrev pub pending : String → List Caller → ℕ
pending client_id callers = length (select (is_pending client_id) callers)

abbrev pub waiting : Option Caller → List Caller
waiting none = []
waiting (some caller) = caller ∷ []

module _ (sets : SortedSets) (requests_per_window window_seconds : ℕ) where
  open sets use {Store, zremrangebyscore, zcard, zadd, expire, count}

  -- One command of a caller, run at `clock`: what is left of the caller, and the sets after it.
  unfoldable pub advance : ℕ → Caller → Store → Option Caller × Store
  advance clock caller s =
      let key = redis_key window_seconds caller.client_id in
      elim caller.phase [
        | pruning ↦ (
          some (record caller { phase = checking }),
          zremrangebyscore clock key (caller.now - seconds window_seconds) s,
        )
        | checking ↦ (
          if leb requests_per_window (zcard clock key s)
              then none
              else some (record caller { phase = adding }),
          s,
        )
        | adding ↦
            (some (record caller { phase = expiring }), zadd clock key caller.member caller.now s)
        | expiring ↦ (none, expire clock key (window_seconds + 1) s)
      ]

  pub record World : Type 0 where
    pub clock : ℕ
    pub callers : List Caller
    pub store : Store

  -- At most `limit` callers are at work at once.
  pub data Step (limit : ℕ) : World → World → Type 0 where
    tick :
        (clock later : ℕ) (callers : List Caller) (s : Store)
        → clock ≤ later
        → Step limit
            (record { clock = clock; callers = callers; store = s })
            (record { clock = later; callers = callers; store = s })
    call :
        (clock : ℕ) (client_id member : String) (callers : List Caller) (s : Store)
        → length callers < limit
        → Step limit
            (record { clock = clock; callers = callers; store = s })
            (record {
              clock = clock;
              callers =
                  record { client_id = client_id; now = clock; member = member; phase = pruning }
                  ∷ callers;
              store = s;
            })
    run :
        (clock : ℕ) (before : List Caller) (caller : Caller) (after : List Caller) (s : Store)
        → Step limit
            (record { clock = clock; callers = before ++ caller ∷ after; store = s })
            (record {
              clock = clock;
              callers = before ++ waiting (advance clock caller s).0 ++ after;
              store = (advance clock caller s).1;
            })

  pub data Reaches (limit : ℕ) (start : World) : World → Type 0 where
    here : Reaches limit start start
    followed :
        (world next : World)
        → Reaches limit start world
        → Step limit world next
        → Reaches limit start next

  abbrev pub recorded : World → String → ℕ
  recorded world client_id =
      count world.clock (redis_key window_seconds client_id) (λ _. true) world.store

  -- what is recorded of a client or about to be, and the callers at work
  pub record IsBounded (limit : ℕ) (world : World) : Type 0 where
    pub admitted :
        (client_id : String)
        → recorded world client_id + pending client_id world.callers < requests_per_window + limit
    pub working : length world.callers ≤ limit

module _ (sets : SortedSets) (n window_seconds limit clock : ℕ) where
  open sets use {Store, zremrangebyscore, zcard, zadd, expire}

  -- nobody is at work
  abbrev pub idle : Store → World sets n window_seconds
  idle s = record { clock = clock; callers = []; store = s }

  abbrev one : Caller → Store → World sets n window_seconds
  one caller s = record { clock = clock; callers = caller ∷ []; store = s }

  waiting-nil : (o : Option Caller) → waiting o ++ [] ≡ waiting o
  waiting-nil none = refl
  waiting-nil (some caller) = refl

  run_one :
      (caller : Caller) (s : Store) (o : Option Caller) (after : Store)
      → advance sets n window_seconds clock caller s ≡ (o, after)
      → Step sets n window_seconds limit
          (one caller s)
          (record { clock = clock; callers = waiting o; store = after })
  run_one caller s o after h =
      subst
        (λ left.
          Step sets n window_seconds limit (one caller s)
            (record { clock = clock; callers = left; store = after }))
        (waiting-nil o)
        (subst
          (λ p.
            Step sets n window_seconds limit (one caller s)
              (record { clock = clock; callers = waiting p.0 ++ []; store = p.1 }))
          h (run clock [] caller [] s))

  -- A caller that runs with no other between its commands does what `_is_allowed_redis` does.
  pub is_allowed_redis-Reaches :
      (member client_id : String) (s : Store)
      → 0 < limit
      → Reaches sets n window_seconds limit
          (idle s)
          (idle (is_allowed_redis sets n window_seconds clock member client_id s).1)
  unfolding is_allowed_redis advance
  is_allowed_redis-Reaches member c s pos =
      let key = redis_key window_seconds c in
      let caller : Phase → Caller =
        λ phase. record { client_id = c; now = clock; member = member; phase = phase } in
      let pruned = zremrangebyscore clock key (clock - seconds window_seconds) s in
      let added = zadd clock key member clock pruned in
      let grown = expire clock key (window_seconds + 1) added in
      let asked = followed (idle s) (one (caller pruning) s) here (call clock c member [] s pos) in
      let checks =
        followed (one (caller pruning) s) (one (caller checking) pruned) asked
          (run_one (caller pruning) s (some (caller checking)) pruned refl) in
      elim (Bool-cases (leb n (zcard clock key pruned))) [
        | inl over ↦ rw over (
            followed (one (caller checking) pruned) (idle pruned) checks
              (run_one (caller checking) pruned none pruned (rw over)))
        | inr under ↦ rw under (
            followed (one (caller expiring) added) (idle grown)
              (followed (one (caller adding) pruned) (one (caller expiring) added)
                (followed (one (caller checking) pruned) (one (caller adding) pruned) checks
                  (run_one (caller checking) pruned (some (caller adding)) pruned (rw under)))
                (run_one (caller adding) pruned (some (caller expiring)) added refl))
              (run_one (caller expiring) added none grown refl))
      ]
