-- ===== src/Storage/Memory.antt =====
-- mcp_authflow/storage/memory.py: `MemoryTokenStorage`. A method takes the clock reading `now`
-- that it makes, in microseconds; none of them gives up control to another, so each is one step.
pub mod Contents
pub mod Sharing
pub mod Laws
pub mod Ledger
pub mod Refinement
use mcp_authflow.Prelude.{
  ℕ, ◌+◌, String, Bool, true, false, Option, none, some, List, ltb, ◌==◌, if◌then◌else◌, length,
}
use mcp_authflow.Prelude.Time.{int_time}
use mcp_authflow.Prelude.Method.{ok, raise, Method, pure, gets, modify, ◌>>=◌, ◌>>◌}
use mcp_authflow.Dict
use mcp_authflow.Dict.{Dict}
use mcp_authflow.Storage.{
  UserId, StorageError, storage_not_initialized_error, hash_token, TokenData,
}

pub record MemoryTokenStorage : Type 0 where
  pub access_tokens : Dict TokenData
  pub refresh_tokens : Dict TokenData
  pub initialized : Bool

-- which of the two dicts a private method is handed
pub data Table : Type 0 where
  access refresh : Table

abbrev pub tokens : Table → MemoryTokenStorage → Dict TokenData
tokens access s = s.access_tokens
tokens refresh s = s.refresh_tokens

abbrev pub with_tokens : Table → Dict TokenData → MemoryTokenStorage → MemoryTokenStorage
with_tokens access d s = record s { access_tokens = d }
with_tokens refresh d s = record s { refresh_tokens = d }

abbrev pub StorageMethod : Type 0 → Type 0
StorageMethod A = Method MemoryTokenStorage StorageError A

-- __init__
unfoldable pub init : MemoryTokenStorage
init = record { access_tokens = Dict.empty; refresh_tokens = Dict.empty; initialized = false }

unfoldable pub initialize : StorageMethod (Unit {0})
initialize = modify (λ s. record s { initialized = true })

unfoldable pub close : StorageMethod (Unit {0})
close =
    modify
      (λ s. record { access_tokens = Dict.empty; refresh_tokens = Dict.empty; initialized = false })

unfoldable pub require_initialized : StorageMethod (Unit {0})
require_initialized s =
    if s.initialized then (ok tt, s) else (raise storage_not_initialized_error, s)

-- [key for key, data in store.items() if data["expires_at"] < now]
abbrev pub is_expired : ℕ → TokenData → Bool
is_expired now token_data = ltb token_data.expires_at (int_time now)

module _ (sha256_hex : String → String) where
  unfoldable pub store_to :
      Table
      → ℕ
      → String
      → String
      → List String
      → ℕ
      → Option String
      → Option UserId
      → StorageMethod (Unit {0})
  unfolding require_initialized
  store_to table now token client_id scopes expires_at resource user_id = do
    require_initialized
    modify λ s.
        with_tokens table
          (Dict.put (tokens table s) (hash_token sha256_hex token) (record {
            token = token;
            client_id = client_id;
            scopes = scopes;
            resource = resource;
            expires_at = expires_at;
            created_at = int_time now;
            user_id = user_id;
          }))
          s

  unfoldable pub delete_from : Table → String → StorageMethod (Unit {0})
  unfolding require_initialized
  delete_from table token = do
    require_initialized
    let digest = hash_token sha256_hex token
    modify λ s.
        if Dict.has (tokens table s) digest
        then with_tokens table (Dict.remove (tokens table s) digest) s
        else s

  -- what `_load_from` does with the record that it found
  unfoldable pub load_found :
      Table → ℕ → String → Option TokenData → StorageMethod (Option TokenData)
  unfolding delete_from
  load_found table now token none = pure none
  load_found table now token (some token_data) =
      if is_expired now token_data
      then (do delete_from table token; pure none)
      else pure (some token_data)

  unfoldable pub load_from : Table → ℕ → String → StorageMethod (Option TokenData)
  unfolding require_initialized load_found
  load_from table now token = do
    require_initialized
    token_data ← gets (λ s. Dict.get (tokens table s) (hash_token sha256_hex token))
    load_found table now token token_data

  unfoldable pub store_token :
      ℕ
      → String
      → String
      → List String
      → ℕ
      → Option String
      → Option UserId
      → StorageMethod (Unit {0})
  unfolding store_to
  store_token = store_to access

  unfoldable pub load_token : ℕ → String → StorageMethod (Option TokenData)
  unfolding load_from
  load_token = load_from access

  unfoldable pub delete_token : String → StorageMethod (Unit {0})
  unfolding delete_from
  delete_token = delete_from access

  unfoldable pub store_refresh_token :
      ℕ
      → String
      → String
      → List String
      → ℕ
      → Option String
      → Option UserId
      → StorageMethod (Unit {0})
  unfolding store_to
  store_refresh_token = store_to refresh

  unfoldable pub load_refresh_token : ℕ → String → StorageMethod (Option TokenData)
  unfolding load_from
  load_refresh_token = load_from refresh

  unfoldable pub delete_refresh_token : String → StorageMethod (Unit {0})
  unfolding delete_from
  delete_refresh_token = delete_from refresh

unfoldable pub cleanup_from : Table → ℕ → StorageMethod ℕ
unfolding require_initialized
cleanup_from table now = do
  require_initialized
  expired_keys ← gets (λ s. Dict.keys_where (is_expired now) (tokens table s))
  modify (λ s. with_tokens table (Dict.remove_all (tokens table s) expired_keys) s)
  pure (length expired_keys)

unfoldable pub cleanup_expired_tokens : ℕ → StorageMethod ℕ
unfolding cleanup_from
cleanup_expired_tokens = cleanup_from access

unfoldable pub cleanup_expired_refresh_tokens : ℕ → StorageMethod ℕ
unfolding cleanup_from
cleanup_expired_refresh_tokens = cleanup_from refresh

abbrev pub is_issued_to : String → TokenData → Bool
is_issued_to client_id token_data = token_data.client_id == client_id

unfoldable pub revoke_client_tokens : String → StorageMethod ℕ
unfolding require_initialized
revoke_client_tokens client_id = do
  require_initialized
  access_keys ← gets (λ s. Dict.keys_where (is_issued_to client_id) s.access_tokens)
  refresh_keys ← gets (λ s. Dict.keys_where (is_issued_to client_id) s.refresh_tokens)
  modify (λ s. record s { access_tokens = Dict.remove_all s.access_tokens access_keys })
  modify (λ s. record s { refresh_tokens = Dict.remove_all s.refresh_tokens refresh_keys })
  pure (length access_keys + length refresh_keys)

unfoldable pub get_token_count : StorageMethod ℕ
unfolding require_initialized
get_token_count = do require_initialized; gets (λ s. Dict.size s.access_tokens)

unfoldable pub get_refresh_token_count : StorageMethod ℕ
unfolding require_initialized
get_refresh_token_count = do require_initialized; gets (λ s. Dict.size s.refresh_tokens)
