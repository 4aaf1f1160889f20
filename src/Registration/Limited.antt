-- ===== src/Registration/Limited.antt =====
-- The handler over the rate limiter in memory.
use mcp_authflow.Prelude.{ℕ, ◌+◌, ◌≤◌, ◌<◌, ◌≡◌, refl, String, true, false, Option, some, arith}
use mcp_authflow.Prelude.Time.{seconds}
use mcp_authflow.Prelude.Method.{Result, ok}
use mcp_authflow.RateLimiting.{SlidingWindowRateLimiter, is_allowed_memory, get_retry_after_memory}
use mcp_authflow.RateLimiting.Retry.{IsWithin, retry_after_refusal}
use mcp_authflow.Responses.{JsonResponse, oauth_error, rate_limit_exceeded}
use mcp_authflow.Responses.Headers.{TellsToWait, retry_after-TellsToWait}
use mcp_authflow.Registration.{ClientRegistry}
use mcp_authflow.Json.{LoadFault}
use mcp_authflow.Registration.Handler.{
  HttpRequest, RateLimiter, Settings, State, is_unauthorized, client_ip, limit_request,
  register_handler,
}

-- the readings of the clock that the two methods make
abbrev pub memory_limiter : ℕ → ℕ → RateLimiter
memory_limiter now asked = record {
  Limiter = SlidingWindowRateLimiter;
  is_allowed = is_allowed_memory now;
  get_retry_after = λ client_ip l. (get_retry_after_memory asked client_ip l, l);
}

module _ (registry : ClientRegistry) (Host : Type 0) (now asked : ℕ)
    (settings : Settings registry (memory_limiter now asked) Host) where
  -- The answer to a request over the limit: how long to wait, that nothing but the limiter has
  -- changed, and that the wait is enough.
  pub record Postpones (ip : String) (s : State registry (memory_limiter now asked) Host)
      (after : Result LoadFault JsonResponse × State registry (memory_limiter now asked) Host)
      : Type 0 where
    pub response : JsonResponse
    pub wait : ℕ
    pub answers : after.0 ≡ ok response
    pub too_many : response.status_code ≡ 429
    pub tells : TellsToWait wait response
    pub positive : 1 ≤ wait
    pub same_clients : after.1.clients ≡ s.clients
    pub same_host : after.1.host ≡ s.host
    pub enough :
        (later : ℕ)
        → asked + seconds wait ≤ later
        → (is_allowed_memory later ip after.1.limits).0 ≡ true

  abbrev told : String → SlidingWindowRateLimiter → ℕ
  told ip l = get_retry_after_memory asked ip (is_allowed_memory now ip l).1

  register_handler_refused :
      (request : HttpRequest) (s : State registry (memory_limiter now asked) Host)
      → let ip = client_ip registry (memory_limiter now asked) Host settings request in
        is_unauthorized registry (memory_limiter now asked) Host settings request ≡ false
        → settings.limited ≡ true
        → (is_allowed_memory now ip s.limits).0 ≡ false
        → register_handler registry (memory_limiter now asked) Host settings request s ≡ (
          ok (rate_limit_exceeded "Too many registration requests" (some (told ip s.limits))),
          record s { limits = (is_allowed_memory now ip s.limits).1 },
        )
  unfolding register_handler limit_request
  register_handler_refused request s a l refused = ground (arith, a, l, refused)

  rate_limit_exceeded-status :
      (description : String) (n : Option ℕ) → (rate_limit_exceeded description n).status_code ≡ 429
  unfolding rate_limit_exceeded oauth_error
  rate_limit_exceeded-status description n = refl

  -- An authorized request over the limit of its client changes neither the registry nor the host,
  -- and is answered with 429 and a positive number of seconds in `Retry-After`; a client that makes
  -- no request for that long is then let through, if the limit is positive and no client has more
  -- timestamps than the limit.
  pub register_handler-Postpones :
      (request : HttpRequest) (s : State registry (memory_limiter now asked) Host)
      → let ip = client_ip registry (memory_limiter now asked) Host settings request in
        is_unauthorized registry (memory_limiter now asked) Host settings request ≡ false
        → settings.limited ≡ true
        → IsWithin s.limits
        → 0 < s.limits.requests_per_window
        → (is_allowed_memory now ip s.limits).0 ≡ false
        → Postpones ip s
            (register_handler registry (memory_limiter now asked) Host settings request s)
  register_handler-Postpones request s a l v pos refused =
      let ip = client_ip registry (memory_limiter now asked) Host settings request in
      let n = told ip s.limits in
      let waits = λ (later : ℕ). retry_after_refusal now asked later ip s.limits v pos refused in
      let positive = (waits (asked + seconds n) (omega arith)).0 in
      let description : String = "Too many registration requests" in
      rw (register_handler_refused request s a l refused) (record {
        response = rate_limit_exceeded description (some n);
        wait = n;
        answers = refl;
        too_many = rate_limit_exceeded-status description (some n);
        tells = (retry_after-TellsToWait description n (omega (arith, positive))).1;
        positive = positive;
        same_clients = refl;
        same_host = refl;
        enough = λ later h. (waits later h).1;
      })
