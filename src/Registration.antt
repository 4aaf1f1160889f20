-- ===== src/Registration.antt =====
-- mcp_authflow/registration/base.py: the data, and the registry interface as a record of operations
-- on a registry of any type. `create_client` may raise, whatever it raises.
pub mod Memory
pub mod Redirect
pub mod Payload
pub mod Handler
pub mod Effects
pub mod Issued
pub mod Limited
pub mod Outcomes
pub mod Types
pub mod Uncaught
use mcp_authflow.Prelude.{ℕ, String, Bool, Option, List, ◌==◌}
use mcp_authflow.Prelude.Method.{Method}
use mcp_authflow.Json.{Members}

pub record ClientRegistrationRequest : Type 0 where
  pub client_name : Option String
  pub redirect_uris : List String
  pub grant_types : List String
  pub response_types : List String
  pub token_endpoint_auth_method : String
  pub scope : Option String
  pub extra : Members

abbrev pub is_public_client : ClientRegistrationRequest → Bool
is_public_client request = request.token_endpoint_auth_method == "none"

pub record RegisteredClient : Type 0 where
  pub client_id : String
  pub client_secret : Option String
  pub client_name : Option String
  pub redirect_uris : List String
  pub grant_types : List String
  pub response_types : List String
  pub token_endpoint_auth_method : String
  pub scope : Option String
  pub client_id_issued_at : ℕ
  pub client_secret_expires_at : ℕ

pub record ClientRegistry : Type 1 where
  pub Registry : Type 0
  pub Failure : Type 0
  pub create_client : ClientRegistrationRequest → Method Registry Failure RegisteredClient
  pub get_client : Registry → String → Option RegisteredClient
