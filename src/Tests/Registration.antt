-- ===== src/Tests/Registration.antt =====
-- Dynamic client registration at work.
use mcp_authflow.Prelude.{
  ℕ, ◌≡◌, ◌≢◌, ◌<◌, ◌↔◌, ◌⊎◌, refl, String, true, false, Option, none, some, List, [], ◌∷◌, ◌==◌,
  eqb, if◌then◌else◌, arith,
}
use mcp_authflow.Prelude.Method.{ok, raise}
use mcp_authflow.Text.{codes}
use mcp_authflow.Dict
use mcp_authflow.Json.{
  str, array, object, cons, nil, member, end, Loads, loaded, json_decode_error, load_fault,
  unicode_decode_error, recursion_error,
}
use mcp_authflow.RateLimiting.{
  init, sweep_expired, is_allowed_memory, retry_after_seconds, get_retry_after_memory,
}
use mcp_authflow.RateLimiting.Retry.{init-IsWithin, is_allowed_memory-IsWithin}
use mcp_authflow.Responses.{
  digits, decimal, oauth_no_cache_headers, update, oauth_error, retry_after_header, invalid_client,
  invalid_request, rate_limit_exceeded, slow_down, invalid_redirect_uri, server_error,
}
use mcp_authflow.Registration.{RegisteredClient, ClientRegistrationRequest, ClientRegistry}
use mcp_authflow.Registration.Memory as Memory
use mcp_authflow.Registration.Memory.{
  memory_registry, issue, create_client, get_client, get_client-create_client,
}
use mcp_authflow.Registration.Redirect.{
  ParseResult, parsed_valid, default_redirect_uri_valid, Permits, default_redirect_uri_valid_iff,
}
use mcp_authflow.Registration.Payload.{
  get_field, payload_error, extra_members, derive_grant_types_and_auth_method, parsed_request,
  build_response_body,
}
use mcp_authflow.Registration.Handler.{
  HttpRequest, unicode_encode_error, render_response, handle, RateLimiter, Settings, State,
  is_unauthorized, run_hooks, rewrite_uris, first_invalid, default_client_ip, settled_uris,
  rejected_uri, named, create, register_payload, register_body, limit_request, register_handler,
}
use mcp_authflow.Registration.Effects.{status, Accepts, created_response, register_handler-Accepts}
use mcp_authflow.Registration.Issued.{Issues, register_handler-Issues}
use mcp_authflow.Registration.Limited.{memory_limiter, Postpones, register_handler-Postpones}
use mcp_authflow.Registration.Outcomes.{Asks, register_handler-clients}

program : Unit {0}
unfolding Dict.empty Dict.get Dict.put Dict.remove Dict.keys_where Dict.remove_all init
    sweep_expired is_allowed_memory retry_after_seconds get_retry_after_memory digits decimal
    oauth_no_cache_headers update oauth_error retry_after_header invalid_client invalid_request
    rate_limit_exceeded slow_down invalid_redirect_uri server_error issue create_client get_client
    Memory.init parsed_valid default_redirect_uri_valid get_field payload_error extra_members
    derive_grant_types_and_auth_method parsed_request build_response_body run_hooks rewrite_uris
    first_invalid default_client_ip settled_uris rejected_uri named create register_payload
    register_body limit_request register_handler render_response handle Dict.size
program = tt

-- a parser that knows two URIs
abbrev urlparse : String → Option ParseResult
urlparse uri =
    if uri == "https://app.example/cb"
    then some (record { scheme = codes "https"; fragment = ""; hostname = some "app.example" })
    else if uri == "http://evil.example/cb"
    then some (record { scheme = codes "http"; fragment = ""; hostname = some "evil.example" })
    else none

abbrev good_uri : String
good_uri = "https://app.example/cb"

default_redirect_uri_valid_iff_example :
    (default_redirect_uri_valid urlparse "https://app.example/cb" ≡ true)
    ↔ ((parsed : ParseResult) × (urlparse good_uri ≡ some parsed) × Permits parsed)
default_redirect_uri_valid_iff_example = default_redirect_uri_valid_iff urlparse good_uri

evil_refused : default_redirect_uri_valid urlparse "http://evil.example/cb" ≡ false
unfolding program
evil_refused = refl

-- a body of one byte: 1 and 2 are JSON objects with redirect URIs, 255 is no UTF-8,
-- 91 stands for nested arrays, and all else is no JSON
abbrev with_uri : String → Loads
with_uri uri = loaded (object (member "redirect_uris" (array (cons (str uri) nil)) end))

abbrev loads : List ℕ → Loads
loads (n ∷ []) =
    if eqb n 1
    then with_uri good_uri
    else if eqb n 2
    then with_uri "http://evil.example/cb"
    else if eqb n 255
    then load_fault unicode_decode_error
    else if eqb n 91
    then load_fault recursion_error
    else json_decode_error
loads _ = json_decode_error

abbrev registry : ClientRegistry
registry = memory_registry "id" "secret" 1_000_000_000

abbrev limits : RateLimiter
limits = memory_limiter 102_000_000 102_500_000

abbrev settings : Settings registry limits (Unit {0})
settings = record {
  loads = loads;
  default_scope = "read";
  limited = true;
  auth_validator = none;
  get_client_ip = none;
  default_redirect_uris = [];
  redirect_uri_rewriters = [];
  redirect_uri_validator = some (default_redirect_uri_valid urlparse);
  client_name_factory = none;
  post_register_hooks = [];
}

abbrev fresh : State registry limits (Unit {0})
fresh = record { limits = init 1 10; clients = Memory.init; host = tt }

abbrev busy : State registry limits (Unit {0})
busy = record {
  limits = (is_allowed_memory 101_000_000 "peer" (init 1 10)).1;
  clients = Memory.init;
  host = tt;
}

abbrev request : List ℕ → HttpRequest
request body = record { client = some "peer"; body = body }

created :
    status (register_handler registry limits (Unit {0}) settings (request (1 ∷ [])) fresh).0 ≡ 201
unfolding program
created = refl

refusals :
    (status (register_handler registry limits (Unit {0}) settings (request (2 ∷ [])) fresh).0 ≡ 400)
    × (status (register_handler registry limits (Unit {0}) settings (request (3 ∷ [])) fresh).0
        ≡ 400)
    × (status (register_handler registry limits (Unit {0}) settings (request (1 ∷ [])) busy).0
        ≡ 429)
unfolding program
refusals = (refl, refl, refl)

over : (is_allowed_memory 102_000_000 "peer" busy.limits).0 ≡ false
unfolding program
over = refl

positive_limit : 0 < busy.limits.requests_per_window
unfolding program
positive_limit = omega arith

register_handler-Accepts_example :
    Accepts registry limits
      (Unit {0})
      settings
      (request (1 ∷ []))
      fresh
      (register_handler registry limits (Unit {0}) settings (request (1 ∷ [])) fresh)
register_handler-Accepts_example =
    register_handler-Accepts registry limits (Unit {0}) settings (request (1 ∷ [])) fresh created

register_handler-Issues_example :
    (client : RegisteredClient) × ((register_handler registry limits
        (Unit {0})
        settings
        (request (1 ∷ []))
        fresh).0
      ≡ ok (created_response registry limits (Unit {0}) settings client))
    × Issues limits
        (Unit {0})
        "id"
        "secret"
        1_000_000_000
        settings
        (request (1 ∷ []))
        fresh
        (register_handler registry limits (Unit {0}) settings (request (1 ∷ [])) fresh).1
        client
register_handler-Issues_example =
    register_handler-Issues limits (Unit {0}) "id" "secret" 1_000_000_000 settings
      (request (1 ∷ [])) fresh created

register_handler-Postpones_example :
    Postpones registry
      (Unit {0})
      102_000_000
      102_500_000
      settings
      "peer"
      busy
      (register_handler registry limits (Unit {0}) settings (request (1 ∷ [])) busy)
unfolding default_client_ip
register_handler-Postpones_example =
    register_handler-Postpones registry (Unit {0}) 102_000_000 102_500_000 settings
      (request (1 ∷ [])) busy refl refl
      (is_allowed_memory-IsWithin 101_000_000 "peer" (init-IsWithin 1 10)) positive_limit over

register_handler-clients_example :
    ((register_handler registry limits (Unit {0}) settings (request (1 ∷ [])) fresh).1.clients
      ≡ fresh.clients)
    ⊎ ((is_unauthorized registry limits (Unit {0}) settings (request (1 ∷ [])) ≡ false)
        × Asks registry limits
            (Unit {0})
            settings
            (1 ∷ [])
            fresh.clients
            (register_handler registry limits
              (Unit {0})
              settings
              (request (1 ∷ []))
              fresh).1.clients)
register_handler-clients_example =
    register_handler-clients registry limits (Unit {0}) settings (request (1 ∷ [])) fresh

abbrev asked : ClientRegistrationRequest
asked = record {
  client_name = some "App";
  redirect_uris = good_uri ∷ [];
  grant_types = "client_credentials" ∷ [];
  response_types = "code" ∷ [];
  token_endpoint_auth_method = "client_secret_post";
  scope = some "read";
  extra = end;
}

get_client-create_client_example :
    let made = create_client "id" "secret" 1_000_000_000 asked Memory.init in
    (client : RegisteredClient) × (made.0 ≡ ok client)
    × (get_client made.1 client.client_id ≡ some client)
    × Memory.IsDescribed "id" "secret" 1_000_000_000 asked client
    × (client.client_id ≢ "other" → get_client made.1 "other" ≡ get_client Memory.init "other")
get_client-create_client_example =
    get_client-create_client "id" "secret" 1_000_000_000 asked Memory.init "other"

not_utf8 :
    (register_handler registry limits (Unit {0}) settings (request (255 ∷ [])) fresh).0
    ≡ raise unicode_decode_error
unfolding program
not_utf8 = refl

-- a client is registered although the answer cannot be rendered
unrendered :
    let made =
      handle registry limits (Unit {0}) settings (λ response. false) (request (1 ∷ [])) fresh in
    (made.0 ≡ raise unicode_encode_error) × (Dict.size made.1.clients ≡ 1)
unfolding program
unrendered = (refl, refl)
