-- ===== src/Tests/RedisLimiter.antt =====
-- The rate limiter over sorted sets that are lists: two requests in ten seconds.
use mcp_authflow.Prelude.{
  ℕ, ◌≡◌, ◌≤◌, refl, String, Bool, true, false, none, List, [], ◌∷◌, arith, map,
}
use mcp_authflow.Prelude.Time.{seconds}
use mcp_authflow.Responses.{decimal, digits}
use mcp_authflow.RateLimiting.{retry_after_seconds}
use mcp_authflow.RateLimiting.Log.{blank, log_decisions}
use mcp_authflow.RateLimiting.RedisSets.{redis_key, is_allowed_redis, get_retry_after_redis}
use mcp_authflow.RateLimiting.RedisRetry.{redis_retry_after}
use mcp_authflow.RateLimiting.RedisCallers.{
  Caller, Phase, pruning, checking, adding, expiring, World, Reaches, here, followed, call, run,
  IsBounded, advance,
}
use mcp_authflow.RateLimiting.RedisBound.{Reaches-IsBounded}
use mcp_authflow.RateLimiting.RedisRuns.{
  RedisRequest, plain, redis_decisions, NewMembers, redis_decisions-log,
}
use mcp_authflow.Tests.Sets.{Sets, sets, sets-SetLaws}

program : Unit {0}
unfolding decimal digits is_allowed_redis retry_after_seconds get_retry_after_redis advance
    redis_decisions NewMembers
program = tt

abbrev request : ℕ → String → RedisRequest
request now member = record { now = now; client_id = "a"; member = member }

abbrev requests : List RedisRequest
requests =
    request 100_000_000 "100.0:1f"
    ∷ request 101_000_000 "101.0:2f"
    ∷ request 109_000_000 "109.0:3f"
    ∷ request 110_000_000 "110.0:4f"
    ∷ []

abbrev empty_sets : Sets
empty_sets _ = record { members = []; end = none }

abbrev granted_or_not : List Bool
granted_or_not = true ∷ true ∷ false ∷ true ∷ []

requests_run : redis_decisions sets sets-SetLaws 2 10 requests empty_sets ≡ granted_or_not
unfolding program
requests_run = refl

requests-NewMembers : NewMembers sets sets-SetLaws 2 10 requests empty_sets
unfolding program
requests-NewMembers = (refl, (refl, (refl, (refl, tt))))

redis_decisions-log_example :
    redis_decisions sets sets-SetLaws 2 10 requests empty_sets
    ≡ log_decisions 2 (seconds 10) (map plain requests) blank
redis_decisions-log_example =
    redis_decisions-log sets sets-SetLaws 2 10 99_000_000 requests empty_sets (λ c at test. refl)
      (omega arith) (omega arith) requests-NewMembers

-- the limit of two is reached
abbrev full : Sets
full =
    (is_allowed_redis sets 2 10 101_000_000 "101.0:2f" "a"
      (is_allowed_redis sets 2 10 100_000_000 "100.0:1f" "a" empty_sets).1).1

full-waits : (get_retry_after_redis sets 2 10 102_000_000 "a" full).0 ≡ 9
unfolding program
full-waits = refl

full_two : sets.count 102_000_000 (redis_key 10 "a") (λ _. true) full ≤ 2
unfolding program
full_two = omega arith

redis_retry_after_example :
    let (wait, after) = get_retry_after_redis sets 2 10 102_000_000 "a" full in
    ((is_allowed_redis sets 2 10 111_000_000 "111.0:3f" "a" after).0 ≡ true)
    × ((is_allowed_redis sets 2 10 102_000_000 "111.0:3f" "a" full).0 ≡ false → 1 ≤ wait)
redis_retry_after_example =
    redis_retry_after sets sets-SetLaws 2 10 102_000_000 111_000_000 "111.0:3f" "a" full
      (omega arith) (omega arith) full_two (omega (arith, full-waits))

-- Two callers at once, with a limit of one: both check before either adds, and both are let through.
abbrev caller : String → Phase → Caller
caller member phase = record { client_id = "a"; now = 100_000_000; member = member; phase = phase }

abbrev world : List Caller → Sets → World sets 1 10
world callers s = record { clock = 100_000_000; callers = callers; store = s }

abbrev pruned_once : Sets
pruned_once = (advance sets 1 10 100_000_000 (caller "2f" pruning) empty_sets).1

abbrev pruned_twice : Sets
pruned_twice = (advance sets 1 10 100_000_000 (caller "1f" pruning) pruned_once).1

abbrev added_once : Sets
added_once = (advance sets 1 10 100_000_000 (caller "2f" adding) pruned_twice).1

abbrev added_twice : Sets
added_twice = (advance sets 1 10 100_000_000 (caller "1f" adding) added_once).1

abbrev over : World sets 1 10
over = world (caller "2f" expiring ∷ caller "1f" expiring ∷ []) added_twice

abbrev Reached : World sets 1 10 → Type 0
Reached w = Reaches sets 1 10 2 (world [] empty_sets) w

both_called : Reached (world (caller "2f" pruning ∷ caller "1f" pruning ∷ []) empty_sets)
both_called =
    followed _ _ (followed _ _ here (call 100_000_000 "a" "1f" [] empty_sets (omega arith)))
      (call 100_000_000 "a" "2f" (caller "1f" pruning ∷ []) empty_sets (omega arith))

both_pruned : Reached (world (caller "2f" checking ∷ caller "1f" checking ∷ []) pruned_twice)
unfolding program
both_pruned =
    followed _ _
      (followed _ _ both_called
        (run 100_000_000 [] (caller "2f" pruning) (caller "1f" pruning ∷ []) empty_sets))
      (run 100_000_000 (caller "2f" checking ∷ []) (caller "1f" pruning) [] pruned_once)

both_checked : Reached (world (caller "2f" adding ∷ caller "1f" adding ∷ []) pruned_twice)
unfolding program
both_checked =
    followed _ _
      (followed _ _ both_pruned
        (run 100_000_000 [] (caller "2f" checking) (caller "1f" checking ∷ []) pruned_twice))
      (run 100_000_000 (caller "2f" adding ∷ []) (caller "1f" checking) [] pruned_twice)

both_added : Reached over
unfolding program
both_added =
    followed _ _
      (followed _ _ both_checked
        (run 100_000_000 [] (caller "2f" adding) (caller "1f" adding ∷ []) pruned_twice))
      (run 100_000_000 (caller "2f" expiring ∷ []) (caller "1f" adding) [] added_once)

over_limit : sets.count 100_000_000 (redis_key 10 "a") (λ _. true) added_twice ≡ 2
unfolding program
over_limit = refl

Reaches-IsBounded_example : IsBounded sets 1 10 2 over
Reaches-IsBounded_example =
    Reaches-IsBounded sets sets-SetLaws 1 10 2 100_000_000 empty_sets over (λ d. refl) (omega arith)
      both_added
