-- ===== src/Registration/Uncaught.antt =====
-- When a registration request ends in an exception.
use mcp_authflow.Prelude.{◌≡◌, Bool, true, false, ◌↔◌}
use mcp_authflow.Prelude.Method.{Result, ok, raise}
use mcp_authflow.Json.{LoadFault, load_fault}
use mcp_authflow.Responses.{JsonResponse}
use mcp_authflow.Registration.{ClientRegistry}
use mcp_authflow.Registration.Handler.{
  HttpRequest, HandlerError, uncaught, unicode_encode_error, RateLimiter, Settings, State,
  client_ip, load,
}

module _ (registry : ClientRegistry) (limiter : RateLimiter) (Host : Type 0)
    (settings : Settings registry limiter Host) where
  -- no 429: there is no rate limit, or the limiter lets the request through
  abbrev pub IsWithinLimit : HttpRequest → State registry limiter Host → Type 0
  IsWithinLimit request s =
      settings.limited ≡ true
      → (limiter.is_allowed (client_ip registry limiter Host settings request) s.limits).0 ≡ true

  abbrev Raises :
      LoadFault → HttpRequest → State registry limiter Host → Result LoadFault JsonResponse → Type 0
  Raises fault request s answer = (answer ≡ raise fault) ↔ (
      IsWithinLimit request s
      × (load registry limiter Host settings request.body ≡ load_fault fault))

  -- what leaves the handler with its answer made
  abbrev pub Fails :
      (JsonResponse → Bool)
      → HttpRequest
      → State registry limiter Host
      → Result LoadFault JsonResponse
      → Result HandlerError JsonResponse
      → Type 0
  Fails renders request s answer made =
      ((fault : LoadFault) → (made ≡ raise (uncaught fault)) ↔ (answer ≡ raise fault))
      × ((made ≡ raise unicode_encode_error)
          ↔ ((response : JsonResponse) × (answer ≡ ok response) × (renders response ≡ false)))
