-- ===== src/Storage/Memory/Contents.antt =====
-- What each method of `MemoryTokenStorage` leaves under each digest of each table.
use mcp_authflow.Prelude.{
  eq_iff, ℕ, String, ◌≡◌, Bool, true, false, ◌&&◌, Option, none, some, List, arith, ◌==◌,
  if◌then◌else◌,
}
use mcp_authflow.Prelude.Time.{int_time}
use mcp_authflow.Prelude.Method.{ok}
use mcp_authflow.Dict
use mcp_authflow.Dict.{Dict, dict_laws, holds, get-remove}
use mcp_authflow.Storage.{UserId, hash_token, TokenData}
use mcp_authflow.Storage.Memory.{
  MemoryTokenStorage, Table, access, refresh, tokens, is_expired, is_issued_to, store_to,
  delete_from, load_from, cleanup_from, revoke_client_tokens,
}

abbrev pub same_table : Table → Table → Bool
same_table access access = true
same_table refresh refresh = true
same_table _ _ = false

-- the record under a digest, expired or not
abbrev pub peek : MemoryTokenStorage → Table → String → Option TokenData
peek s table digest = Dict.get (tokens table s) digest

-- the record under a digest that is still good at `now`
abbrev pub live : ℕ → Option TokenData → Option TokenData
live now none = none
live now (some token_data) = if is_expired now token_data then none else some token_data

module _ (sha256_hex : String → String) (s : MemoryTokenStorage)
    (ready : s.initialized ≡ true) where
  pub peek-store_to :
      (table other : Table) (now : ℕ) (token client_id : String) (scopes : List String)
      (expires_at : ℕ) (resource : Option String) (user_id : Option UserId) (digest : String)
      → peek
          (store_to sha256_hex table now token client_id scopes expires_at resource user_id s).1
          other
          digest
        ≡ (if same_table table other && hash_token sha256_hex token == digest
            then some (record {
              token = token;
              client_id = client_id;
              scopes = scopes;
              resource = resource;
              expires_at = expires_at;
              created_at = int_time now;
              user_id = user_id;
            })
            else peek s other digest)
  unfolding store_to
  peek-store_to access access now token c sc e r u digest = rw ready (simp dict_laws)
  peek-store_to refresh refresh now token c sc e r u digest = rw ready (simp dict_laws)
  peek-store_to access refresh now token c sc e r u digest = rw ready
  peek-store_to refresh access now token c sc e r u digest = rw ready

  pub peek-delete_from :
      (table other : Table) (token digest : String)
      → peek (delete_from sha256_hex table token s).1 other digest ≡ (
          if same_table table other && hash_token sha256_hex token == digest
          then none
          else peek s other digest)
  unfolding delete_from
  peek-delete_from access access token digest =
      let h = hash_token sha256_hex token in
      ground (arith, get-remove s.access_tokens h digest, eq_iff h digest)
  peek-delete_from refresh refresh token digest =
      let h = hash_token sha256_hex token in
      ground (arith, get-remove s.refresh_tokens h digest, eq_iff h digest)
  peek-delete_from access refresh token digest = ground arith
  peek-delete_from refresh access token digest = ground arith

  -- A load answers with the record under the token's digest if it has not expired, and drops it
  -- if it has.
  pub load_from-live :
      (table : Table) (now : ℕ) (token : String)
      → (load_from sha256_hex table now token s).0
        ≡ ok (live now (peek s table (hash_token sha256_hex token)))
  unfolding load_from
  load_from-live table now token = ground arith

  pub peek-load_from :
      (table other : Table) (now : ℕ) (token digest : String)
      → peek (load_from sha256_hex table now token s).1 other digest ≡ (
          if same_table table other && hash_token sha256_hex token == digest
          then live now (peek s other digest)
          else peek s other digest)
  unfolding load_from
  peek-load_from access access now token digest =
      let h = hash_token sha256_hex token in
      ground (arith, get-remove s.access_tokens h digest, eq_iff h digest)
  peek-load_from refresh refresh now token digest =
      let h = hash_token sha256_hex token in
      ground (arith, get-remove s.refresh_tokens h digest, eq_iff h digest)
  peek-load_from access refresh now token digest = ground arith
  peek-load_from refresh access now token digest = ground arith

module _ (s : MemoryTokenStorage) (ready : s.initialized ≡ true) where
  pub peek-cleanup_from :
      (table other : Table) (now : ℕ) (digest : String)
      → peek (cleanup_from table now s).1 other digest
        ≡ (if same_table table other then live now (peek s other digest) else peek s other digest)
  unfolding cleanup_from
  peek-cleanup_from access access now digest = rw ready (simp dict_laws (ground arith))
  peek-cleanup_from refresh refresh now digest = rw ready (simp dict_laws (ground arith))
  peek-cleanup_from access refresh now digest = rw ready
  peek-cleanup_from refresh access now digest = rw ready

  pub peek-revoke_client_tokens :
      (client_id : String) (table : Table) (digest : String)
      → peek (revoke_client_tokens client_id s).1 table digest ≡ (
          if holds (is_issued_to client_id) (peek s table digest)
          then none
          else peek s table digest)
  unfolding revoke_client_tokens
  peek-revoke_client_tokens client_id access digest = rw ready (simp dict_laws)
  peek-revoke_client_tokens client_id refresh digest = rw ready (simp dict_laws)
