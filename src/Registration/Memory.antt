-- ===== src/Registration/Memory.antt =====
-- mcp_authflow/registration/memory.py: `MemoryClientRegistry`. The two texts that
-- `secrets.token_urlsafe` draws and the reading of the clock are arguments.
use Prim.Native.String.{◌++◌ as concat}
use mcp_authflow.Prelude.{
  ℕ, ◌≡◌, ◌≢◌, refl, String, Option, none, some, if◌then◌else◌, arith, eq_iff, ◌↔◌, ◌⊎◌,
}
use mcp_authflow.Prelude.Time.{int_time}
use mcp_authflow.Prelude.Method.{Method, ok}
use mcp_authflow.Dict
use mcp_authflow.Dict.{Dict, get-put}
use mcp_authflow.Registration.{
  ClientRegistrationRequest, is_public_client, RegisteredClient, ClientRegistry,
}

abbrev pub MemoryClientRegistry : Type 0
MemoryClientRegistry = Dict RegisteredClient

unfoldable pub init : MemoryClientRegistry
init = Dict.empty

-- the RegisteredClient that `create_client` makes
unfoldable pub issue : String → String → ℕ → ClientRegistrationRequest → RegisteredClient
issue id_token secret_token now request = record {
  client_id = concat "mcp-" id_token;
  client_secret = if is_public_client request then none else some secret_token;
  client_name = request.client_name;
  redirect_uris = request.redirect_uris;
  grant_types = request.grant_types;
  response_types = request.response_types;
  token_endpoint_auth_method = request.token_endpoint_auth_method;
  scope = request.scope;
  client_id_issued_at = int_time now;
  client_secret_expires_at = 0;
}

-- It raises nothing.
unfoldable pub create_client :
    String
    → String
    → ℕ
    → ClientRegistrationRequest
    → Method MemoryClientRegistry (Unit {0}) RegisteredClient
unfolding issue
create_client id_token secret_token now request clients =
    let client = issue id_token secret_token now request in
    (ok client, Dict.put clients client.client_id client)

unfoldable pub get_client : MemoryClientRegistry → String → Option RegisteredClient
get_client clients client_id = Dict.get clients client_id

abbrev pub memory_registry : String → String → ℕ → ClientRegistry
memory_registry id_token secret_token now = record {
  Registry = MemoryClientRegistry;
  Failure = Unit {0};
  create_client = create_client id_token secret_token now;
  get_client = get_client;
}

-- the client has the metadata of the request, and what the registry adds to it
pub record IsDescribed (id_token secret_token : String) (now : ℕ)
    (request : ClientRegistrationRequest) (client : RegisteredClient) : Type 0 where
  pub client_id : client.client_id ≡ concat "mcp-" id_token
  pub client_name : client.client_name ≡ request.client_name
  pub redirect_uris : client.redirect_uris ≡ request.redirect_uris
  pub grant_types : client.grant_types ≡ request.grant_types
  pub response_types : client.response_types ≡ request.response_types
  pub auth_method : client.token_endpoint_auth_method ≡ request.token_endpoint_auth_method
  pub scope : client.scope ≡ request.scope
  pub issued_at : client.client_id_issued_at ≡ int_time now
  pub lasting : client.client_secret_expires_at ≡ 0
  pub public_only : (client.client_secret ≡ none) ↔ (request.token_endpoint_auth_method ≡ "none")
  pub secret : (client.client_secret ≡ none) ⊎ (client.client_secret ≡ some secret_token)

issue-IsDescribed :
    (id_token secret_token : String) (now : ℕ) (request : ClientRegistrationRequest)
    → IsDescribed id_token secret_token now request (issue id_token secret_token now request)
unfolding issue
issue-IsDescribed id_token secret_token now request = record {
  client_id = refl;
  client_name = refl;
  redirect_uris = refl;
  grant_types = refl;
  response_types = refl;
  auth_method = refl;
  scope = refl;
  issued_at = refl;
  lasting = refl;
  public_only = ground (arith, eq_iff request.token_endpoint_auth_method "none");
  secret = ground (arith, eq_iff request.token_endpoint_auth_method "none");
}

-- A client that is created is found by its identifier, which is "mcp-" and the text drawn, with all
-- the metadata of the request: its name, redirect URIs, grant types, response types, authentication
-- method and scope. It is issued at the second of the clock, its secret never expires, and it has
-- a secret, the text drawn, exactly when the authentication method is not "none". If its identifier
-- is new, every other client is found as before.
pub get_client-create_client :
    (id_token secret_token : String) (now : ℕ) (request : ClientRegistrationRequest)
    (clients : MemoryClientRegistry) (wanted : String)
    → let made = create_client id_token secret_token now request clients in
      (client : RegisteredClient) × (made.0 ≡ ok client)
      × (get_client made.1 client.client_id ≡ some client)
      × IsDescribed id_token secret_token now request client
      × (client.client_id ≢ wanted → get_client made.1 wanted ≡ get_client clients wanted)
unfolding create_client get_client
get_client-create_client id_token secret_token now request clients wanted =
    let client = issue id_token secret_token now request in
    (
      client,
      refl,
      ground (
        arith,
        get-put clients client.client_id client.client_id client,
        eq_iff client.client_id client.client_id,
      ),
      issue-IsDescribed id_token secret_token now request,
      λ other.
          ground
            (arith, get-put clients client.client_id wanted client, eq_iff client.client_id wanted),
    )
