-- ===== src/Storage/Postgres/Ledger.antt =====
-- What a caller of `PostgresTokenStorage` relies on: a ledger that holds, for each table, the last grant
-- stored under each digest until it is deleted or revoked, expired or not.
use mcp_authflow.Prelude.{ℕ, String, Bool, ◌&&◌, Option, none, some, List, ltb, ◌==◌, if◌then◌else◌}
use mcp_authflow.Prelude.Time.{seconds, int_time}
use mcp_authflow.Dict.{holds}
use mcp_authflow.Storage.{UserId, hash_token}
use mcp_authflow.Storage.Memory.{Table}
use mcp_authflow.Storage.Memory.Contents.{same_table}
use mcp_authflow.Storage.Memory.Ledger.{Call, store, load, delete, cleanup, revoke}

-- what was stored under a digest; the expiry is in microseconds
pub record Grant : Type 0 where
  pub client_id : String
  pub scopes : List String
  pub resource : Option String
  pub expires_at : ℕ
  pub user_id : Option UserId

-- what a caller reads of a loaded token: all but `created_at`
pub record TokenView : Type 0 where
  pub token : String
  pub client_id : String
  pub scopes : List String
  pub resource : Option String
  pub expires_at : ℕ
  pub user_id : Option UserId

abbrev pub Grants : Type 0
Grants = Table → String → Option Grant

-- `done` for a call whose answer is `None` or a count
pub data Reply : Type 0 where
  done : Reply
  found : Option TokenView → Reply

abbrev pub no_grants : Grants
no_grants _ _ = none

abbrev pub good : ℕ → Option Grant → Option Grant
good now none = none
good now (some grant) = if ltb grant.expires_at now then none else some grant

abbrev pub is_granted_to : String → Grant → Bool
is_granted_to client_id grant = grant.client_id == client_id

abbrev pub view : String → Option Grant → Option TokenView
view token none = none
view token (some grant) = some (record {
  token = token;
  client_id = grant.client_id;
  scopes = grant.scopes;
  resource = grant.resource;
  expires_at = int_time grant.expires_at;
  user_id = grant.user_id;
})

module _ (sha256_hex : String → String) where
  abbrev pub note : Call → Grants → Grants
  note (store table token client_id scopes expires_at resource user_id) grants other digest =
      if same_table table other && hash_token sha256_hex token == digest
      then some (record {
        client_id = client_id;
        scopes = scopes;
        resource = resource;
        expires_at = seconds expires_at;
        user_id = user_id;
      })
      else grants other digest
  note (delete table token) grants other digest =
      if same_table table other && hash_token sha256_hex token == digest
      then none
      else grants other digest
  note (revoke client_id) grants other digest =
      if holds (is_granted_to client_id) (grants other digest) then none else grants other digest
  note (load table token) grants other digest = grants other digest
  note (cleanup table) grants other digest = grants other digest

  abbrev pub reply : ℕ → Call → Grants → Reply
  reply now (load table token) grants =
      found (view token (good now (grants table (hash_token sha256_hex token))))
  reply now _ grants = done
