-- ===== src/Registration/Effects.antt =====
-- What a registration request does to the registry, whatever the settings of the handler.
use mcp_authflow.Prelude.{
  ℕ, ◌≡◌, refl, String, Bool, true, false, none, some, List, [], ◌∷◌, all, arith, Bool-cases,
  Option-cases, inl, inr, ◌≢◌,
}
use mcp_authflow.Prelude.Method.{Result, ok, raise}
use mcp_authflow.Dict
use mcp_authflow.Json.{LoadFault, object, Members, Loads, loaded, json_decode_error, load_fault}
use mcp_authflow.Responses.{
  JsonResponse, oauth_error, invalid_client, rate_limit_exceeded, invalid_request,
  invalid_redirect_uri, server_error,
}
use mcp_authflow.ClientAuth.Accept.{Result-cases}
use mcp_authflow.Registration.{ClientRegistrationRequest, RegisteredClient, ClientRegistry}
use mcp_authflow.Registration.Payload.{payload_error, parsed_request, build_response_body}
use mcp_authflow.Registration.Types.{IsTyped, payload_error-IsTyped}
use mcp_authflow.Registration.Handler.{
  HttpRequest, RateLimiter, Settings, State, is_unauthorized, client_ip, first_invalid,
  settled_uris, rejected_uri, named, create, register_payload, load, register_body, limit_request,
  register_handler,
}

-- the status that is sent; Starlette answers an exception with 500
abbrev pub status : Result LoadFault JsonResponse → ℕ
status (ok response) = response.status_code
status (raise e) = 500

all-first_invalid :
    (valid : String → Bool) (uris : List String)
    → first_invalid valid uris ≡ none
    → all valid uris ≡ true
unfolding first_invalid
all-first_invalid valid [] h = refl
all-first_invalid valid (uri ∷ uris) h = ground (arith, all-first_invalid valid uris)

module _ (registry : ClientRegistry) (limiter : RateLimiter) (Host : Type 0)
    (settings : Settings registry limiter Host) where
  open registry use {create_client}
  open settings use {default_scope, redirect_uri_validator}

  abbrev pub request_of : Members → ClientRegistrationRequest
  request_of payload =
      named registry limiter Host settings
        (parsed_request default_scope (settled_uris registry limiter Host settings payload) payload)

  abbrev pub created_response : RegisteredClient → JsonResponse
  created_response client = record {
    content = build_response_body client;
    status_code = 201;
    headers = Dict.empty;
  }

  -- The payload is well-formed, every redirect URI that was settled on satisfies the validator, and
  -- the registry issued the client that the answer is about.
  pub record Registers (payload : Members) (clients : registry.Registry) (response : JsonResponse)
      (after : registry.Registry) : Type 0 where
    pub client : RegisteredClient
    pub checked : payload_error payload ≡ none
    pub typed : IsTyped payload
    pub vetted :
        (valid : String → Bool)
        → redirect_uri_validator ≡ some valid
        → all valid (settled_uris registry limiter Host settings payload) ≡ true
    pub created : (create_client (request_of payload) clients).0 ≡ ok client
    pub answered : response ≡ created_response client
    pub stored : after ≡ (create_client (request_of payload) clients).1

  pub vetted_uris :
      (uris : List String) (valid : String → Bool)
      → rejected_uri registry limiter Host settings uris ≡ none
      → redirect_uri_validator ≡ some valid
      → all valid uris ≡ true
  unfolding rejected_uri
  vetted_uris uris valid h v = all-first_invalid valid uris (ground (arith, v, h))

  register_payload-Registers :
      (payload : Members) (s : State registry limiter Host)
      → (register_payload registry limiter Host settings payload s).0.status_code ≡ 201
      → Registers payload s.clients
          (register_payload registry limiter Host settings payload s).0
          (register_payload registry limiter Host settings payload s).1.clients
  unfolding register_payload create invalid_request invalid_redirect_uri server_error oauth_error
  register_payload-Registers payload s h = elim (Option-cases (payload_error payload)) [
    | inr (description, e) ↦ absurd (ground arith)
    | inl e ↦
        let uris = settled_uris registry limiter Host settings payload in
        elim (Option-cases (rejected_uri registry limiter Host settings uris)) [
          | inr (uri, r) ↦ absurd (ground arith)
          | inl r ↦ elim (Result-cases (create_client (request_of payload) s.clients).0) [
            | inr (failure, c) ↦ absurd (ground arith)
            | inl (client, c) ↦ record {
              client = client;
              checked = e;
              typed = payload_error-IsTyped payload e;
              vetted = λ valid v. vetted_uris uris valid r v;
              created = c;
              answered = ground arith;
              stored = ground arith;
            }
          ]
        ]
  ]

  -- The request that led to a registration.
  pub record Accepts (request : HttpRequest) (s : State registry limiter Host)
      (after : Result LoadFault JsonResponse × State registry limiter Host) : Type 0 where
    pub payload : Members
    pub response : JsonResponse
    pub authorized : is_unauthorized registry limiter Host settings request ≡ false
    pub within :
        settings.limited ≡ true
        → (limiter.is_allowed (client_ip registry limiter Host settings request) s.limits).0 ≡ true
    pub read : load registry limiter Host settings request.body ≡ loaded (object payload)
    pub answers : after.0 ≡ ok response
    pub registers : Registers payload s.clients response after.1.clients

  -- The outcome of the part of the handler that reads the body.
  record Reads (body : List ℕ) (clients : registry.Registry)
      (after : Result LoadFault JsonResponse × State registry limiter Host) : Type 0 where
    pub payload : Members
    pub response : JsonResponse
    pub read : load registry limiter Host settings body ≡ loaded (object payload)
    pub answers : after.0 ≡ ok response
    pub registers : Registers payload clients response after.1.clients

  pub register_body_object :
      (body : List ℕ) (s : State registry limiter Host) (payload : Members)
      → load registry limiter Host settings body ≡ loaded (object payload)
      → let out = register_payload registry limiter Host settings payload s in
        register_body registry limiter Host settings body s ≡ (ok out.0, out.1)
  unfolding register_body
  register_body_object body s payload e = ground (arith, e)

  register_body_payload :
      (body : List ℕ) (s : State registry limiter Host)
      → status (register_body registry limiter Host settings body s).0 ≡ 201
      → (payload : Members) × (load registry limiter Host settings body ≡ loaded (object payload))
  unfolding register_body invalid_request oauth_error
  register_body_payload body s h = go (load registry limiter Host settings body) refl
    where
      go :
          (l : Loads)
          → load registry limiter Host settings body ≡ l
          → (payload : Members) × (load registry limiter Host settings body
              ≡ loaded (object payload))
      go (loaded (object payload)) e = (payload, e)
      go (load_fault fault) e = absurd (ground arith)
      go json_decode_error e = absurd (ground arith)
      go (loaded _) e = absurd (ground arith)

  register_body-Reads :
      (body : List ℕ) (s : State registry limiter Host)
      → status (register_body registry limiter Host settings body s).0 ≡ 201
      → Reads body s.clients (register_body registry limiter Host settings body s)
  register_body-Reads body s h =
      let (payload, e) = register_body_payload body s h in
      let out = register_payload registry limiter Host settings payload s in
      let same = register_body_object body s payload e in
      rw same (record {
        payload = payload;
        response = out.0;
        read = e;
        answers = refl;
        registers = register_payload-Registers payload s (rw same at h);
      })

  pub limit_request_open :
      (request : HttpRequest) (s : State registry limiter Host)
      → settings.limited ≡ false
      → limit_request registry limiter Host settings request s
        ≡ register_body registry limiter Host settings request.body s
  unfolding limit_request
  limit_request_open request s l = ground (arith, l)

  module _ (request : HttpRequest) (s : State registry limiter Host)
      (l : settings.limited ≡ true) where
    pub limit_request_granted :
        let asked =
          limiter.is_allowed (client_ip registry limiter Host settings request) s.limits in
        asked.0 ≡ true
        → limit_request registry limiter Host settings request s
          ≡ register_body registry limiter Host settings request.body
              (record s { limits = asked.1 })
    unfolding limit_request
    limit_request_granted g = ground (arith, l, g)

    limit_request_refused :
        (limiter.is_allowed (client_ip registry limiter Host settings request) s.limits).0 ≡ false
        → status (limit_request registry limiter Host settings request s).0 ≢ 201
    unfolding limit_request rate_limit_exceeded oauth_error
    limit_request_refused r = ground (arith, l, r)

  pub register_handler_authorized :
      (request : HttpRequest) (s : State registry limiter Host)
      → is_unauthorized registry limiter Host settings request ≡ false
      → register_handler registry limiter Host settings request s
        ≡ limit_request registry limiter Host settings request s
  unfolding register_handler
  register_handler_authorized request s a = ground (arith, a)

  register_handler_unauthorized :
      (request : HttpRequest) (s : State registry limiter Host)
      → is_unauthorized registry limiter Host settings request ≡ true
      → status (register_handler registry limiter Host settings request s).0 ≢ 201
  unfolding register_handler invalid_client oauth_error
  register_handler_unauthorized request s u = ground (arith, u)

  limit_request-Accepts :
      (request : HttpRequest) (s : State registry limiter Host)
      → is_unauthorized registry limiter Host settings request ≡ false
      → status (limit_request registry limiter Host settings request s).0 ≡ 201
      → Accepts request s (limit_request registry limiter Host settings request s)
  limit_request-Accepts request s authorized h = elim (Bool-cases settings.limited) [
    | inr l ↦
        let same = limit_request_open request s l in
        let reads = register_body-Reads request.body s (rw same at h) in
        rw same (record {
          payload = reads.payload;
          response = reads.response;
          authorized = authorized;
          within = λ k. ground arith;
          read = reads.read;
          answers = reads.answers;
          registers = reads.registers;
        })
    | inl l ↦
        let asked =
          limiter.is_allowed (client_ip registry limiter Host settings request) s.limits in
        elim (Bool-cases asked.0) [
          | inr refused ↦ absurd (limit_request_refused request s l refused h)
          | inl granted ↦
              let same = limit_request_granted request s l granted in
              let reads =
                register_body-Reads request.body (record s { limits = asked.1 }) (rw same at h) in
              rw same (record {
                payload = reads.payload;
                response = reads.response;
                authorized = authorized;
                within = λ k. granted;
                read = reads.read;
                answers = reads.answers;
                registers = reads.registers;
              })
        ]
  ]

  -- A request that is answered with 201 was authorized and within the rate limit, its body is a JSON
  -- object whose metadata members are each omitted, null or of the right type, an array of texts or a
  -- text, every redirect URI that the client gets satisfies the validator of the host, and the registry
  -- issued the client that the response describes.
  pub register_handler-Accepts :
      (request : HttpRequest) (s : State registry limiter Host)
      → status (register_handler registry limiter Host settings request s).0 ≡ 201
      → Accepts request s (register_handler registry limiter Host settings request s)
  register_handler-Accepts request s h =
      elim (Bool-cases (is_unauthorized registry limiter Host settings request)) [
        | inl u ↦ absurd (register_handler_unauthorized request s u h)
        | inr a ↦
            let same = register_handler_authorized request s a in
            rw same (limit_request-Accepts request s a (rw same at h))
      ]
