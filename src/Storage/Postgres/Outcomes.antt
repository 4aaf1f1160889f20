-- ===== src/Storage/Postgres/Outcomes.antt =====
-- The methods of `PostgresTokenStorage` on an open pool, as the statements that they send.
use mcp_authflow.Prelude.{
  ℕ, ◌≡◌, String, Bool, true, false, Option, none, some, List, leb, ltb, inl, inr, ◌⊎◌, ap, ◌∙◌,
}
use mcp_authflow.Prelude.Time.{seconds}
use mcp_authflow.Prelude.Method.{ok, raise, Method, ◌>>=◌}
use mcp_authflow.ClientAuth.Accept.{Result-cases}
use mcp_authflow.Storage.{UserId, hash_token}
use mcp_authflow.Storage.Database.{
  Values, Row, Database, driver_error, value_error, IsAtomic, Reads,
}
use mcp_authflow.Storage.Database.Status.{parse_status}
use mcp_authflow.Storage.Memory.{Table}
use mcp_authflow.Storage.Postgres.{
  PostgresTokenStorage, loaded_token, end_of_time, require_pool, statement, from_result, store_to,
  delete_from, load_found, load_from, cleanup_from, delete_client, revoke_client_tokens,
}
use mcp_authflow.Validation.{join_spaces}

-- what `_store_to` hands to the INSERT
abbrev pub values_of : String → List String → ℕ → Option String → Option UserId → Values
values_of client_id scopes expires_at resource user_id = record {
  client_id = client_id;
  scopes = join_spaces scopes;
  resource = resource;
  expires_at = seconds expires_at;
  user_id = user_id;
}

module _ (database : Database) where
  open database use {
    Db, Failure, insert_row, select_row, delete_row, delete_expired, has_refresh_table,
  }

  -- A statement fails and changes nothing, or answers.
  pub statement-cases :
      {A : Type 0} (m : Method Db Failure A) (s : PostgresTokenStorage Db)
      → IsAtomic database m
      → ((e : Failure) × (statement database m s ≡ (raise (driver_error e), s)))
        ⊎ ((a : A) × ((m s.db).0 ≡ ok a)
            × (statement database m s ≡ (ok a, record s { db = (m s.db).1 })))
  statement-cases m s atomic = elim (Result-cases (m s.db).0) [
    | inl (a, h) ↦ inr (a, h, rw h)
    | inr (e, h) ↦ inl (e, rw (h, atomic s.db e h))
  ]

  pub query-cases :
      {A : Type 0} (m : Method Db Failure A) (s : PostgresTokenStorage Db)
      → Reads database m
      → ((e : Failure) × (statement database m s ≡ (raise (driver_error e), s)))
        ⊎ ((a : A) × ((m s.db).0 ≡ ok a) × (statement database m s ≡ (ok a, s)))
  query-cases m s reads = elim (statement-cases m s (λ d e h. reads d)) [
    | inl failed ↦ inl failed
    | inr (a, h, e) ↦ inr (a, h, e ∙ ap (λ d. (ok a, record s { db = d })) (reads s.db))
  ]

  module _ (s : PostgresTokenStorage Db) (ready : s.has_pool ≡ true) where
    module _ (sha256_hex : String → String) (table : Table) where
      pub store_to-early :
          (at : ℕ) (token client_id : String) (scopes : List String) (expires_at : ℕ)
          (resource : Option String) (user_id : Option UserId)
          → leb end_of_time expires_at ≡ false
          → store_to database sha256_hex table at token client_id scopes expires_at resource user_id
              s
            ≡ statement database
                (insert_row at table
                  (hash_token sha256_hex token)
                  (values_of client_id scopes expires_at resource user_id))
                s
      unfolding store_to require_pool
      store_to-early at token c sc e r u early = rw (ready, early)

      pub store_to-late :
          (at : ℕ) (token client_id : String) (scopes : List String) (expires_at : ℕ)
          (resource : Option String) (user_id : Option UserId)
          → leb end_of_time expires_at ≡ true
          → store_to database sha256_hex table at token client_id scopes expires_at resource user_id
              s
            ≡ (raise value_error, s)
      unfolding store_to require_pool
      store_to-late at token c sc e r u late = rw (ready, late)

      pub delete_from-eq :
          (token : String)
          → delete_from database sha256_hex table token s
            ≡ statement database (delete_row table (hash_token sha256_hex token)) s
      unfolding delete_from require_pool
      delete_from-eq token = rw ready

      pub load_from-eq :
          (is_space : ℕ → Bool) (now : ℕ) (token : String)
          → load_from database sha256_hex is_space table now token s
            ≡ (statement database (select_row table (hash_token sha256_hex token))
                  >>= load_found database sha256_hex is_space table now token)
                s
      unfolding load_from require_pool
      load_from-eq is_space now token = rw ready

      pub load_found-expired :
          (is_space : ℕ → Bool) (now : ℕ) (token : String) (row : Row)
          → ltb row.expires_at now ≡ true
          → load_found database sha256_hex is_space table now token (some row) s
            ≡ (statement database (delete_row table (hash_token sha256_hex token))
                  >>= (λ _ t. (ok none, t)))
                s
      unfolding load_found delete_from require_pool
      load_found-expired is_space now token row expired = rw (expired, ready)

      pub load_found-good :
          (is_space : ℕ → Bool) (now : ℕ) (token : String) (row : Row)
          → ltb row.expires_at now ≡ false
          → load_found database sha256_hex is_space table now token (some row) s
            ≡ (ok (some (loaded_token is_space token row)), s)
      unfolding load_found
      load_found-good is_space now token row good = rw good

    module _ (is_space : ℕ → Bool) where
      pub cleanup_from-eq :
          (table : Table) (now : ℕ)
          → cleanup_from database is_space table now s
            ≡ (statement database (delete_expired table now)
                  >>= (λ result. from_result database (parse_status is_space result)))
                s
      unfolding cleanup_from require_pool
      cleanup_from-eq table now = rw ready

      pub revoke_client_tokens-eq :
          (client_id : String)
          → revoke_client_tokens database is_space client_id s
            ≡ (statement database has_refresh_table >>= delete_client database is_space client_id) s
      unfolding revoke_client_tokens require_pool
      revoke_client_tokens-eq client_id = rw ready
