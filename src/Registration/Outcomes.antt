-- ===== src/Registration/Outcomes.antt =====
-- What every registration request does, refused or not.
use mcp_authflow.Prelude.{
  ℕ, ◌≡◌, refl, String, Bool, true, false, none, some, all, arith, Bool-cases, Option-cases, inl,
  inr, ◌⊎◌, List,
}
use mcp_authflow.Json.{object, Members, Loads, loaded, json_decode_error, load_fault}
use mcp_authflow.ClientAuth.Accept.{Result-cases}
use mcp_authflow.Registration.{ClientRegistry}
use mcp_authflow.Registration.Payload.{payload_error}
use mcp_authflow.Registration.Types.{IsTyped, payload_error-IsTyped}
use mcp_authflow.Registration.Handler.{
  HttpRequest, RateLimiter, Settings, State, is_unauthorized, client_ip, settled_uris, rejected_uri,
  create, register_payload, load, register_body, limit_request, register_handler,
}
use mcp_authflow.Registration.Effects.{
  request_of, vetted_uris, register_body_object, limit_request_open, limit_request_granted,
  register_handler_authorized,
}

module _ (registry : ClientRegistry) (limiter : RateLimiter) (Host : Type 0)
    (settings : Settings registry limiter Host) where
  open registry use {create_client}

  -- The one call of the registry that a body can lead to, with fields that passed the checks and
  -- redirect URIs that passed the validator.
  pub record Asks (body : List ℕ) (clients after : registry.Registry) : Type 0 where
    pub payload : Members
    pub read : load registry limiter Host settings body ≡ loaded (object payload)
    pub checked : payload_error payload ≡ none
    pub typed : IsTyped payload
    pub vetted :
        (valid : String → Bool)
        → settings.redirect_uri_validator ≡ some valid
        → all valid (settled_uris registry limiter Host settings payload) ≡ true
    pub asked :
        after ≡ (create_client (request_of registry limiter Host settings payload) clients).1

  register_payload-clients :
      (payload : Members) (s : State registry limiter Host)
      → let after = (register_payload registry limiter Host settings payload s).1.clients in
        (after ≡ s.clients)
        ⊎ ((payload_error payload ≡ none)
            × (rejected_uri registry limiter Host settings
                  (settled_uris registry limiter Host settings payload)
                ≡ none)
            × (after
                ≡ (create_client (request_of registry limiter Host settings payload) s.clients).1))
  unfolding register_payload create
  register_payload-clients payload s = elim (Option-cases (payload_error payload)) [
    | inr (description, e) ↦ inl (ground arith)
    | inl e ↦
        elim (Option-cases (
          rejected_uri registry limiter Host settings
            (settled_uris registry limiter Host settings payload))) [
              | inr (uri, r) ↦ inl (ground arith)
              | inl r ↦
                  elim (Result-cases
                    (create_client (request_of registry limiter Host settings payload)
                      s.clients).0) [
                        | inr (failure, c) ↦ inr (e, r, ground arith)
                        | inl (client, c) ↦ inr (e, r, ground arith)
                      ]
            ]
  ]

  abbrev Outcome : List ℕ → registry.Registry → registry.Registry → Type 0
  Outcome body clients after = (after ≡ clients) ⊎ Asks body clients after

  register_body-clients :
      (body : List ℕ) (s : State registry limiter Host)
      → Outcome body s.clients (register_body registry limiter Host settings body s).1.clients
  register_body-clients body s = go (load registry limiter Host settings body) refl
    where
      go :
          (l : Loads)
          → load registry limiter Host settings body ≡ l
          → Outcome body s.clients (register_body registry limiter Host settings body s).1.clients
      go (loaded (object payload)) e =
          rw (register_body_object registry limiter Host settings body s payload e)
            (elim (register_payload-clients payload s) [
              | inl same ↦ inl same
              | inr (checked, r, asked) ↦ inr (record {
                payload = payload;
                read = e;
                checked = checked;
                typed = payload_error-IsTyped payload checked;
                vetted = λ valid v.
                    vetted_uris registry limiter Host settings
                      (settled_uris registry limiter Host settings payload) valid r v;
                asked = asked;
              })
            ])
      go (load_fault fault) e = inl (unfold register_body in ground (arith, e))
      go json_decode_error e = inl (unfold register_body in ground (arith, e))
      go (loaded _) e = inl (unfold register_body in ground (arith, e))

  limit_request-clients :
      (request : HttpRequest) (s : State registry limiter Host)
      → Outcome request.body s.clients
          (limit_request registry limiter Host settings request s).1.clients
  limit_request-clients request s = elim (Bool-cases settings.limited) [
    | inr l ↦
        rw (limit_request_open registry limiter Host settings request s l)
          (register_body-clients request.body s)
    | inl l ↦
        let asked =
          limiter.is_allowed (client_ip registry limiter Host settings request) s.limits in
        elim (Bool-cases asked.0) [
          | inr refused ↦ inl (unfold limit_request in ground (arith, l, refused))
          | inl granted ↦
              rw (limit_request_granted registry limiter Host settings request s l granted)
                (register_body-clients request.body (record s { limits = asked.1 }))
        ]
  ]

  -- A request changes the registry in no other way than by one call of `create_client`, and makes
  -- that call only if it is authorized, its body is a JSON object whose metadata members are each
  -- omitted, null or of the right type, an array of texts or a text, and every redirect URI satisfies the validator of the host.
  pub register_handler-clients :
      (request : HttpRequest) (s : State registry limiter Host)
      → let after = (register_handler registry limiter Host settings request s).1.clients in
        (after ≡ s.clients)
        ⊎ ((is_unauthorized registry limiter Host settings request ≡ false)
            × Asks request.body s.clients after)
  register_handler-clients request s =
      elim (Bool-cases (is_unauthorized registry limiter Host settings request)) [
        | inl u ↦ inl (unfold register_handler in ground (arith, u))
        | inr a ↦
            rw (register_handler_authorized registry limiter Host settings request s a)
              (elim (limit_request-clients request s) [
                | inl same ↦ inl same
                | inr asks ↦ inr (a, asks)
              ])
      ]
