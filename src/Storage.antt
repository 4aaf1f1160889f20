-- ===== src/Storage.antt =====
-- mcp_authflow/storage/base.py and mcp_authflow/storage/exceptions.py: what the storage backends
-- share. SHA-256 is not interpreted: it is the parameter `sha256_hex`, the lower-case hexadecimal
-- digest of a text's UTF-8 bytes.
pub mod Memory
pub mod Scopes
pub mod Database
pub mod Postgres
pub mod Backends
pub mod Interface
use mcp_authflow.Prelude.{ℕ, String, Option, List}

-- `int | str`; identifiers are counters or texts, so the integers are natural numbers
pub data UserId : Type 0 where
  int : ℕ → UserId
  str : String → UserId

-- the classes of storage/exceptions.py below `StorageError`
pub data StorageError : Type 0 where
  storage_config_error schema_drift_error storage_not_initialized_error : StorageError

-- hashlib.sha256(token.encode()).hexdigest()
unfoldable pub hash_token : (String → String) → String → String
hash_token sha256_hex token = sha256_hex token

-- the dict that `load_token` and `load_refresh_token` return
pub record TokenData : Type 0 where
  pub token : String
  pub client_id : String
  pub scopes : List String
  pub resource : Option String
  pub expires_at : ℕ
  pub created_at : ℕ
  pub user_id : Option UserId
