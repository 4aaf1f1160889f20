-- ===== src/Registration/Issued.antt =====
-- The handler over the registry in memory.
use mcp_authflow.Prelude.{
  ℕ, ◌≡◌, String, List, Bool, true, false, none, some, all, contains, arith, eq_iff, Bool-cases,
  inl, inr, ◌↔◌,
}
use mcp_authflow.Prelude.Method.{ok}
use mcp_authflow.Json.{Members, object, loaded}
use mcp_authflow.Registration.{RegisteredClient, ClientRegistry}
use mcp_authflow.Registration.Memory.{memory_registry, get_client, get_client-create_client}
use mcp_authflow.Registration.Payload.{
  auth_method_confidential, get_field, list_field, derive_grant_types_and_auth_method,
  parsed_request,
}
use mcp_authflow.Registration.Handler.{
  HttpRequest, RateLimiter, Settings, State, load, named, settled_uris, register_handler,
}
use mcp_authflow.Registration.Effects.{
  status, request_of, created_response, register_handler-Accepts,
}

derive-public :
    (requested : List String)
    → ((derive_grant_types_and_auth_method requested).1 ≡ "none")
      ↔ (contains requested "client_credentials" ≡ false)
unfolding derive_grant_types_and_auth_method
derive-public requested = elim (Bool-cases (contains requested "client_credentials")) [
  | inl e ↦ ground (arith, e, eq_iff auth_method_confidential "none")
  | inr e ↦ ground (arith, e)
]

module _ (limiter : RateLimiter) (Host : Type 0) (id_token secret_token : String) (now : ℕ)
    (settings : Settings (memory_registry id_token secret_token now) limiter Host) where
  abbrev pub registry : ClientRegistry
  registry = memory_registry id_token secret_token now

  -- the grant types that the payload asks for
  abbrev pub requested_grants : Members → List String
  requested_grants payload = list_field (get_field "grant_types" payload)

  request_of-redirect_uris :
      (payload : Members)
      → (request_of registry limiter Host settings payload).redirect_uris
        ≡ settled_uris registry limiter Host settings payload
  unfolding named parsed_request
  request_of-redirect_uris payload = ground arith

  request_of-token_endpoint_auth_method :
      (payload : Members)
      → (request_of registry limiter Host settings payload).token_endpoint_auth_method
        ≡ (derive_grant_types_and_auth_method (requested_grants payload)).1
  unfolding named parsed_request
  request_of-token_endpoint_auth_method payload = ground arith

  request_of-auth_method :
      (payload : Members)
      → ((request_of registry limiter Host settings payload).token_endpoint_auth_method ≡ "none")
        ↔ (contains (requested_grants payload) "client_credentials" ≡ false)
  request_of-auth_method payload =
      rw (request_of-token_endpoint_auth_method payload) (derive-public (requested_grants payload))

  -- What a registration leaves in the registry.
  pub record Issues (request : HttpRequest) (s after : State registry limiter Host)
      (client : RegisteredClient) : Type 0 where
    pub payload : Members
    pub read : load registry limiter Host settings request.body ≡ loaded (object payload)
    pub found : get_client after.clients client.client_id ≡ some client
    pub vetted :
        (valid : String → Bool)
        → settings.redirect_uri_validator ≡ some valid
        → all valid client.redirect_uris ≡ true
    pub confidential :
        (client.client_secret ≡ none)
        ↔ (contains (requested_grants payload) "client_credentials" ≡ false)

  -- A request that is answered with 201 has put in the registry the client that the answer
  -- describes: it is found by its identifier, each of its redirect URIs satisfies the validator of
  -- the host, and it has no secret exactly when the request does not ask for the grant type
  -- "client_credentials".
  pub register_handler-Issues :
      (request : HttpRequest) (s : State registry limiter Host)
      → let after = register_handler registry limiter Host settings request s in
        status after.0 ≡ 201
        → (client : RegisteredClient) × (after.0
            ≡ ok (created_response registry limiter Host settings client))
          × Issues request s after.1 client
  register_handler-Issues request s h =
      let a = register_handler-Accepts registry limiter Host settings request s h in
      let parsed = request_of registry limiter Host settings a.payload in
      let (client, made, found, described, others) =
        get_client-create_client id_token secret_token now parsed s.clients "" in
      (
        client,
        ground (arith, a.answers, a.registers.answered, a.registers.created, made),
        record {
          payload = a.payload;
          read = a.read;
          found = rw a.registers.stored found;
          vetted = λ valid v.
              rw (described.redirect_uris, request_of-redirect_uris a.payload)
                (a.registers.vetted valid v);
          confidential = ground (arith, described.public_only, request_of-auth_method a.payload);
        },
      )
