-- ===== src/Tests/RateLimiting.antt =====
-- The rate limiter at work: two requests in ten seconds.
use mcp_authflow.Prelude.{
  ◌+◌, ◌≤◌, ◌<◌, ◌≡◌, ◌≢◌, refl, String, true, false, [], ◌∷◌, arith, length, select, eq_iff, some,
}
use mcp_authflow.Prelude.Time.{seconds}
use mcp_authflow.Dict
use mcp_authflow.RateLimiting.{
  SlidingWindowRateLimiter, init, sweep_expired, is_allowed_memory, retry_after_seconds,
  get_retry_after_memory, window,
}
use mcp_authflow.RateLimiting.Log.{Requests, decisions, log_decisions, blank, decisions-log}
use mcp_authflow.RateLimiting.Bound.{granted, in_window, granted-le-limit}
use mcp_authflow.RateLimiting.Retry.{
  IsWithin, init-IsWithin, is_allowed_memory-IsWithin, retry_after_refusal,
}

program : Unit {0}
unfolding Dict.empty Dict.get Dict.put Dict.remove Dict.keys_where Dict.remove_all init
    sweep_expired is_allowed_memory retry_after_seconds get_retry_after_memory decisions
    log_decisions granted
program = tt

abbrev limiter : SlidingWindowRateLimiter
limiter = init 2 10

abbrev requests : Requests
requests =
    (100_000_000, "a")
    ∷ (101_000_000, "a")
    ∷ (102_000_000, "b")
    ∷ (109_999_999, "a")
    ∷ (110_000_000, "a")
    ∷ (110_500_000, "a")
    ∷ []

requests_run : decisions requests limiter ≡ true ∷ true ∷ true ∷ false ∷ true ∷ false ∷ []
unfolding program
requests_run = refl

decisions-log_example : decisions requests limiter ≡ log_decisions 2 10_000_000 requests blank
decisions-log_example = decisions-log 2 10 requests (omega arith)

granted-le-limit_example :
    length (select (in_window (seconds 10) 109_000_000) (granted requests (init 2 10) "a")) ≤ 2
granted-le-limit_example = granted-le-limit 2 10 requests "a" 109_000_000 (omega arith)

abbrev once : SlidingWindowRateLimiter
once = (is_allowed_memory 100_000_000 "a" limiter).1

abbrev twice : SlidingWindowRateLimiter
twice = (is_allowed_memory 101_000_000 "a" once).1

twice-IsWithin : IsWithin twice
twice-IsWithin =
    is_allowed_memory-IsWithin 101_000_000 "a"
      (is_allowed_memory-IsWithin 100_000_000 "a" (init-IsWithin 2 10))

twice_limit : 0 < twice.requests_per_window
unfolding program
twice_limit = omega arith

third_refused : (is_allowed_memory 102_000_000 "a" twice).0 ≡ false
unfolding program
third_refused = refl

abbrev refused : SlidingWindowRateLimiter
refused = (is_allowed_memory 102_000_000 "a" twice).1

wait_over : 103_000_000 + seconds (get_retry_after_memory 103_000_000 "a" refused) ≤ 111_000_000
unfolding program
wait_over = omega arith

retry_after_refusal_example :
    (1 ≤ get_retry_after_memory 103_000_000 "a" refused)
    × ((is_allowed_memory 111_000_000 "a" refused).0 ≡ true)
retry_after_refusal_example =
    retry_after_refusal 102_000_000 103_000_000 111_000_000 "a" twice twice-IsWithin twice_limit
      third_refused wait_over

abbrev a : String
a = "a"

abbrev b : String
b = "b"

a_not_b : a ≢ b
a_not_b = ground (arith, eq_iff "a" "b")

sweep_due : twice.last_sweep + window twice ≤ 111_000_000
unfolding program
sweep_due = omega arith

a_kept :
    Dict.get (is_allowed_memory 111_000_000 b twice).1.clients a
    ≡ some (100_000_000 ∷ 101_000_000 ∷ [])
unfolding program
a_kept = refl

b_not_a : b ≢ a
b_not_a = ground (arith, eq_iff "a" "b")
