-- ===== src/Registration/Handler.antt =====
-- mcp_authflow/registration/handler.py: `build_register_handler`. What the host supplies is a record
-- of functions; the rate limiter, the registry and what the hooks change are the state.
use Prim.Native.String.{◌++◌ as concat}
use mcp_authflow.Prelude.{
  ℕ, String, Bool, false, not, Option, none, some, List, [], ◌∷◌, if◌then◌else◌,
}
use mcp_authflow.Prelude.Method.{Result, ok, raise, Method}
use mcp_authflow.Dict
use mcp_authflow.Json.{
  object, Members, end, LoadFault, Loads, loaded, json_decode_error, load_fault,
}
use mcp_authflow.Responses.{
  JsonResponse, invalid_client, rate_limit_exceeded, invalid_request, invalid_redirect_uri,
  server_error,
}
use mcp_authflow.Registration.{ClientRegistrationRequest, RegisteredClient, ClientRegistry}
use mcp_authflow.Registration.Payload.{
  get_field, list_field, payload_error, parsed_request, build_response_body,
}

-- the body as bytes, and the host of the direct TCP peer
pub record HttpRequest : Type 0 where
  pub client : Option String
  pub body : List ℕ

-- what leaves the handler as an exception: what `json.loads` raises and the handler does not catch,
-- and what the making of the answer raises
pub data HandlerError : Type 0 where
  uncaught : LoadFault → HandlerError
  unicode_encode_error : HandlerError

-- `SlidingWindowRateLimiter` as the handler sees it
pub record RateLimiter : Type 1 where
  pub Limiter : Type 0
  pub is_allowed : String → Limiter → Bool × Limiter
  pub get_retry_after : String → Limiter → ℕ × Limiter

unfoldable pub default_client_ip : HttpRequest → String
default_client_ip request = elim request.client [ none ↦ "unknown" | some host ↦ host ]

-- for rewriter in rewriters: redirect_uris = rewriter(redirect_uris)
unfoldable pub rewrite_uris : List (List String → List String) → List String → List String
rewrite_uris [] uris = uris
rewrite_uris (rewriter ∷ rewriters) uris = rewrite_uris rewriters (rewriter uris)

-- the first URI that the validator rejects
unfoldable pub first_invalid : (String → Bool) → List String → Option String
first_invalid valid [] = none
first_invalid valid (uri ∷ uris) = if valid uri then first_invalid valid uris else some uri

module _ (registry : ClientRegistry) (limiter : RateLimiter) (Host : Type 0) where
  open registry use {Registry, Failure, create_client}
  open limiter use {Limiter, is_allowed, get_retry_after}

  -- The arguments of `build_register_handler`, and `json.loads`. The host's callables are total, but
  -- for the hooks, which may raise anything.
  pub record Settings : Type 0 where
    pub loads : List ℕ → Loads
    pub default_scope : String
    pub limited : Bool
    pub auth_validator : Option (HttpRequest → Bool)
    pub get_client_ip : Option (HttpRequest → String)
    pub default_redirect_uris : List String
    pub redirect_uri_rewriters : List (List String → List String)
    pub redirect_uri_validator : Option (String → Bool)
    pub client_name_factory : Option (ClientRegistrationRequest → String)
    pub post_register_hooks : List (RegisteredClient → Method Host (Unit {0}) (Unit {0}))

  pub record State : Type 0 where
    pub limits : Limiter
    pub clients : Registry
    pub host : Host

  abbrev pub Handling : Type 0
  Handling = Method State LoadFault JsonResponse

  -- hooks run in order; what one raises is logged
  unfoldable pub run_hooks :
      List (RegisteredClient → Method Host (Unit {0}) (Unit {0})) → RegisteredClient → Host → Host
  run_hooks [] client host = host
  run_hooks (hook ∷ hooks) client host = run_hooks hooks client (hook client host).1

  module _ (settings : Settings) where
    open settings use {
      loads, default_scope, limited, auth_validator, get_client_ip, default_redirect_uris,
      redirect_uri_rewriters, redirect_uri_validator, client_name_factory, post_register_hooks,
    }

    -- auth_validator is not None and not await auth_validator(request)
    abbrev pub is_unauthorized : HttpRequest → Bool
    is_unauthorized request = elim auth_validator [
      | none ↦ false
      | some valid ↦ not (valid request)
    ]

    abbrev pub client_ip : HttpRequest → String
    client_ip request = elim get_client_ip [ none ↦ default_client_ip request | some f ↦ f request ]

    -- the redirect URIs after the rewriters, or the defaults
    unfoldable pub settled_uris : Members → List String
    unfolding rewrite_uris get_field
    settled_uris payload =
        elim (rewrite_uris redirect_uri_rewriters
          (list_field (get_field "redirect_uris" payload))) [
            | [] ↦ default_redirect_uris
            | uri ∷ uris ↦ uri ∷ uris
          ]

    unfoldable pub rejected_uri : List String → Option String
    unfolding first_invalid
    rejected_uri uris = elim redirect_uri_validator [
      | none ↦ none
      | some valid ↦ first_invalid valid uris
    ]

    unfoldable pub named : ClientRegistrationRequest → ClientRegistrationRequest
    named parsed = elim client_name_factory [
      | none ↦ parsed
      | some factory ↦ record parsed { client_name = some (factory parsed) }
    ]

    -- from `registry.create_client` on
    unfoldable pub create : ClientRegistrationRequest → State → JsonResponse × State
    unfolding run_hooks
    create parsed s =
        let made = create_client parsed s.clients in
        elim made.0 [
          | raise failure ↦
              (server_error "Failed to register client" 500, record s { clients = made.1 })
          | ok client ↦ (
            record {
              content = build_response_body client;
              status_code = 201;
              headers = Dict.empty;
            },
            record s { clients = made.1; host = run_hooks post_register_hooks client s.host },
          )
        ]

    -- from the checks of the fields on
    unfoldable pub register_payload : Members → State → JsonResponse × State
    unfolding settled_uris rejected_uri named create
    register_payload payload s = elim (payload_error payload) [
      | some description ↦ (invalid_request description, s)
      | none ↦ elim (rejected_uri (settled_uris payload)) [
        | some uri ↦ (invalid_redirect_uri (concat "Invalid redirect_uri: " uri), s)
        | none ↦ create (named (parsed_request default_scope (settled_uris payload) payload)) s
      ]
    ]

    abbrev pub load : List ℕ → Loads
    load [] = loaded (object end)
    load (byte ∷ body) = loads (byte ∷ body)

    -- from the reading of the body on
    unfoldable pub register_body : List ℕ → Handling
    unfolding register_payload
    register_body body s = elim (load body) [
      | load_fault fault ↦ (raise fault, s)
      | json_decode_error ↦ (ok (invalid_request "Invalid JSON"), s)
      | loaded (object payload) ↦ let answer = register_payload payload s in (ok answer.0, answer.1)
      | loaded _ ↦ (ok (invalid_request "Request body must be a JSON object"), s)
    ]

    -- from the test of the rate limiter on
    unfoldable pub limit_request : HttpRequest → Handling
    unfolding register_body default_client_ip
    limit_request request s =
        if not limited
        then register_body request.body s
        else let asked = is_allowed (client_ip request) s.limits in
          if asked.0
          then register_body request.body (record s { limits = asked.1 })
          else let told = get_retry_after (client_ip request) asked.1 in
            (
              ok (rate_limit_exceeded "Too many registration requests" (some told.0)),
              record s { limits = told.1 },
            )

    unfoldable pub register_handler : HttpRequest → Handling
    unfolding limit_request
    register_handler request s =
        if is_unauthorized request
        then (ok (invalid_client "Registration not authorized"), s)
        else limit_request request s

    -- The handler with the making of its answer: Starlette renders the content of a JSONResponse as
    -- UTF-8 when it is made, which each branch does last. `renders` tells for which answers it can;
    -- for the others it raises UnicodeEncodeError.
    unfoldable pub render_response :
        (JsonResponse → Bool) → Result LoadFault JsonResponse → Result HandlerError JsonResponse
    render_response renders (raise fault) = raise (uncaught fault)
    render_response renders (ok response) =
        if renders response then ok response else raise unicode_encode_error

    unfoldable pub handle :
        (JsonResponse → Bool) → HttpRequest → Method State HandlerError JsonResponse
    unfolding register_handler render_response
    handle renders request s =
        let answer = register_handler request s in (render_response renders answer.0, answer.1)
