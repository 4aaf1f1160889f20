-- ===== src/Storage/Postgres.antt =====
-- mcp_authflow/storage/postgres.py: `PostgresTokenStorage`. The database is a parameter, and so is
-- Python's table of white space. A method takes the reading `now` of the program's clock and the
-- reading `at` of the server's, in microseconds.
pub mod Outcomes
pub mod Ledger
pub mod Calls
pub mod Drift
pub mod Lifecycle
pub mod Counts
pub mod Sizes
pub mod Steps
pub mod Loads
pub mod Refinement
use mcp_authflow.Prelude.{
  ℕ, String, Bool, true, false, not, Option, none, some, List, [], ◌∷◌, ltb, leb, ◌==◌,
  if◌then◌else◌,
}
use mcp_authflow.Prelude.Time.{seconds, int_time}
use mcp_authflow.Prelude.Method.{Result, ok, raise, Method, pure, throw, gets, modify, ◌>>=◌, ◌>>◌}
use mcp_authflow.Text.{Text}
use mcp_authflow.Storage.{
  UserId, StorageError, storage_config_error, schema_drift_error, storage_not_initialized_error,
  hash_token,
}
use mcp_authflow.Storage.Database.{
  Values, Row, Database, PostgresError, storage_error, driver_error, value_error,
}
use mcp_authflow.Storage.Database.Schema.{ColumnRows, missing_columns}
use mcp_authflow.Storage.Database.Status.{parse_status}
use mcp_authflow.Storage.Memory.{Table, access, refresh}
use mcp_authflow.Storage.Scopes.{split_scopes}
use mcp_authflow.Validation.{join_spaces}

-- the dict that `load_token` and `load_refresh_token` return
pub record LoadedToken : Type 0 where
  pub token : String
  pub client_id : String
  pub scopes : List String
  pub resource : Option String
  pub expires_at : ℕ
  pub created_at : Option ℕ
  pub user_id : Option UserId

-- `_pool` is a pool or None; the database stands beside the object
pub record PostgresTokenStorage (Db : Type 0) : Type 0 where
  pub database_url : Option String
  pub has_pool : Bool
  pub db : Db

abbrev pub is_set : Option String → Bool
is_set none = false
is_set (some url) = not (url == "")

-- __init__: `database_url or os.environ.get("DATABASE_URL")`
unfoldable pub init : {Db : Type 0} → Option String → Option String → Db → PostgresTokenStorage Db
init database_url environ db = record {
  database_url = if is_set database_url then database_url else environ;
  has_pool = false;
  db = db;
}

-- the first second of the year 10000, from which `datetime.fromtimestamp` raises ValueError, or its
-- like OverflowError for a number that the platform's time does not hold
abbrev pub end_of_time : ℕ
end_of_time = 253_402_300_800

-- row["scopes"].split() if row["scopes"] else []
unfoldable pub row_scopes : (ℕ → Bool) → Option String → List String
row_scopes is_space none = []
row_scopes is_space (some scopes) = if scopes == "" then [] else split_scopes is_space scopes

abbrev pub whole_second : Option ℕ → Option ℕ
whole_second none = none
whole_second (some at) = some (int_time at)

unfoldable pub loaded_token : (ℕ → Bool) → String → Row → LoadedToken
unfolding row_scopes
loaded_token is_space token row = record {
  token = token;
  client_id = row.client_id;
  scopes = row_scopes is_space row.scopes;
  resource = row.resource;
  expires_at = int_time row.expires_at;
  created_at = whole_second row.created_at;
  user_id = row.user_id;
}

module _ (database : Database) where
  open database use {
    Db, Failure, create_pool, close_pool, columns, insert_row, select_row, delete_row,
    delete_expired, count_rows, has_refresh_table, delete_client_both, delete_client_access,
  }

  abbrev pub StorageMethod : Type 0 → Type 0
  StorageMethod A = Method (PostgresTokenStorage Db) (PostgresError Failure) A

  abbrev pub wrap : {A : Type 0} → Result Failure A → Result (PostgresError Failure) A
  wrap (ok a) = ok a
  wrap (raise e) = raise (driver_error e)

  -- one statement on a connection of the pool
  abbrev pub statement : {A : Type 0} → Method Db Failure A → StorageMethod A
  statement m s = let (r, d) = m s.db in (wrap r, record s { db = d })

  abbrev pub from_result : {A : Type 0} → Result (PostgresError Failure) A → StorageMethod A
  from_result r s = (r, s)

  unfoldable pub require_pool : StorageMethod (Unit {0})
  require_pool s =
      if s.has_pool then (ok tt, s) else (raise (storage_error storage_not_initialized_error), s)

  abbrev pub check_missing : List (String × List String) → StorageMethod (Unit {0})
  check_missing [] = pure tt
  check_missing (_ ∷ _) = throw (storage_error schema_drift_error)

  unfoldable pub verify_schema : StorageMethod (Unit {0})
  unfolding require_pool
  verify_schema = do require_pool; rows ← statement columns; check_missing (missing_columns rows)

  abbrev pub connect : String → StorageMethod (Unit {0})
  connect url = do statement (create_pool url); modify (λ s. record s { has_pool = true })

  unfoldable pub initialize : StorageMethod (Unit {0})
  unfolding verify_schema
  initialize s = elim s.database_url [
    | none ↦ (raise (storage_error storage_config_error), s)
    | some url ↦
        if url == ""
        then (raise (storage_error storage_config_error), s)
        else (do connect url; verify_schema) s
  ]

  unfoldable pub close : StorageMethod (Unit {0})
  close s =
      if s.has_pool
      then (do statement close_pool; modify (λ t. record t { has_pool = false })) s
      else (ok tt, s)

  -- datetime.fromtimestamp(expires_at, tz=UTC)
  abbrev pub from_timestamp : ℕ → StorageMethod ℕ
  from_timestamp expires_at =
      if leb end_of_time expires_at then throw value_error else pure (seconds expires_at)

  unfoldable pub get_token_count : StorageMethod ℕ
  unfolding require_pool
  get_token_count = do
    require_pool
    row ← statement (count_rows access)
    pure (elim row [ none ↦ 0 | some count ↦ count ])

  unfoldable pub get_refresh_token_count : StorageMethod ℕ
  unfolding require_pool
  get_refresh_token_count = do
    require_pool
    row ← statement (count_rows refresh)
    pure (elim row [ none ↦ 0 | some count ↦ count ])

  module _ (is_space : ℕ → Bool) where
    unfoldable pub cleanup_from : Table → ℕ → StorageMethod ℕ
    unfolding require_pool
    cleanup_from table now = do
      require_pool
      result ← statement (delete_expired table now)
      from_result (parse_status is_space result)

    unfoldable pub cleanup_expired_tokens : ℕ → StorageMethod ℕ
    unfolding cleanup_from
    cleanup_expired_tokens = cleanup_from access

    unfoldable pub cleanup_expired_refresh_tokens : ℕ → StorageMethod ℕ
    unfolding cleanup_from
    cleanup_expired_refresh_tokens = cleanup_from refresh

    -- the deletion where there is a table of refresh tokens, and the one where there is none
    unfoldable pub delete_client : String → Bool → StorageMethod ℕ
    delete_client client_id true = do
      row ← statement (delete_client_both client_id)
      pure (elim row [ none ↦ 0 | some count ↦ count ])
    delete_client client_id false = do
      result ← statement (delete_client_access client_id)
      from_result (parse_status is_space result)

    unfoldable pub revoke_client_tokens : String → StorageMethod ℕ
    unfolding require_pool delete_client
    revoke_client_tokens client_id = do
      require_pool
      refreshable ← statement has_refresh_table
      delete_client client_id refreshable

  module _ (sha256_hex : String → String) where
    unfoldable pub store_to :
        Table
        → ℕ
        → String
        → String
        → List String
        → ℕ
        → Option String
        → Option UserId
        → StorageMethod (Unit {0})
    unfolding require_pool
    store_to table at token client_id scopes expires_at resource user_id = do
      require_pool
      expires_datetime ← from_timestamp expires_at
      statement (
          insert_row at table (hash_token sha256_hex token) (record {
            client_id = client_id;
            scopes = join_spaces scopes;
            resource = resource;
            expires_at = expires_datetime;
            user_id = user_id;
          }))

    unfoldable pub delete_from : Table → String → StorageMethod (Unit {0})
    unfolding require_pool
    delete_from table token = do
      require_pool
      statement (delete_row table (hash_token sha256_hex token))

    module _ (is_space : ℕ → Bool) where
      -- what `_load_from` does with the row that it found
      unfoldable pub load_found :
          Table → ℕ → String → Option Row → StorageMethod (Option LoadedToken)
      unfolding delete_from
      load_found table now token none = pure none
      load_found table now token (some row) =
          if ltb row.expires_at now
          then (do delete_from table token; pure none)
          else pure (some (loaded_token is_space token row))

      unfoldable pub load_from : Table → ℕ → String → StorageMethod (Option LoadedToken)
      unfolding require_pool load_found
      load_from table now token = do
        require_pool
        row ← statement (select_row table (hash_token sha256_hex token))
        load_found table now token row

      unfoldable pub load_token : ℕ → String → StorageMethod (Option LoadedToken)
      unfolding load_from
      load_token = load_from access

      unfoldable pub load_refresh_token : ℕ → String → StorageMethod (Option LoadedToken)
      unfolding load_from
      load_refresh_token = load_from refresh

    abbrev pub Store : Type 0
    Store =
        ℕ
        → String
        → String
        → List String
        → ℕ
        → Option String
        → Option UserId
        → StorageMethod (Unit {0})

    unfoldable pub store_token : Store
    unfolding store_to
    store_token = store_to access

    unfoldable pub store_refresh_token : Store
    unfolding store_to
    store_refresh_token = store_to refresh

    unfoldable pub delete_token : String → StorageMethod (Unit {0})
    unfolding delete_from
    delete_token = delete_from access

    unfoldable pub delete_refresh_token : String → StorageMethod (Unit {0})
    unfolding delete_from
    delete_refresh_token = delete_from refresh
