-- ===== src/Storage/Postgres/Lifecycle.antt =====
-- `initialize` and `close` of `PostgresTokenStorage`, and what the methods do without a pool.
use mcp_authflow.Prelude.{
  ℕ, ◌≡◌, refl, String, Bool, true, false, Option, none, some, ◌==◌, if◌then◌else◌, arith,
  Bool-cases, inl, inr, ◌∙◌,
}
use mcp_authflow.Prelude.Method.{Result, ok, raise, bind-ok, bind-raise, modify, ◌>>◌}
use mcp_authflow.Storage.{storage_config_error, schema_drift_error, storage_not_initialized_error}
use mcp_authflow.Storage.Database.{Database, SqlLaws, PostgresError, storage_error, driver_error}
use mcp_authflow.Storage.Database.Schema.{ColumnRows}
use mcp_authflow.Storage.Memory.Ledger.{Call, store, load, delete, cleanup, revoke}
use mcp_authflow.Storage.Postgres.{
  PostgresTokenStorage, is_set, StorageMethod, statement, require_pool, verify_schema, connect,
  initialize, close, store_to, delete_from, load_from, cleanup_from, revoke_client_tokens,
}
use mcp_authflow.Storage.Postgres.Calls.{perform}
use mcp_authflow.Storage.Postgres.Drift.{
  opened, up_to_date, verify_schema-up_to_date, verify_schema-raises,
}
use mcp_authflow.Storage.Postgres.Outcomes.{query-cases}

module _ (database : Database) (sha256_hex : String → String) (is_space : ℕ → Bool) where
  open database use {Db, Failure, create_pool, close_pool, columns}

  -- Without a pool, every call raises that the storage is not initialised, and sends nothing.
  pub perform-closed :
      (now at : ℕ) (call : Call) (s : PostgresTokenStorage Db)
      → s.has_pool ≡ false
      → perform database sha256_hex is_space now at call s
        ≡ (raise (storage_error storage_not_initialized_error), s)
  unfolding perform store_to delete_from load_from cleanup_from revoke_client_tokens require_pool
  perform-closed now at (store table token c sc e r u) s h = rw h
  perform-closed now at (load table token) s h = rw h
  perform-closed now at (delete table token) s h = rw h
  perform-closed now at (cleanup table) s h = rw h
  perform-closed now at (revoke client_id) s h = rw h

module _ (database : Database) where
  open database use {Db, Failure, create_pool, close_pool, columns}

  -- how `initialize` ends
  pub data Started (s : PostgresTokenStorage Db)
      (after : Result (PostgresError Failure) (Unit {0}) × PostgresTokenStorage Db) : Type 0 where
    no_url :
        is_set s.database_url ≡ false
        → after ≡ (raise (storage_error storage_config_error), s)
        → Started s after
    not_connected : (e : Failure) → after ≡ (raise (driver_error e), s) → Started s after
    not_verified :
        (e : Failure)
        → after ≡ (raise (driver_error e), record s { has_pool = true })
        → Started s after
    verified :
        (rows : ColumnRows)
        → (columns s.db).0 ≡ ok rows
        → after ≡ (
          if up_to_date rows then ok tt else raise (storage_error schema_drift_error),
          record s { has_pool = true },
        )
        → Started s after

  set_pool : Unit {0} → StorageMethod database (Unit {0})
  set_pool _ = modify (λ s. record s { has_pool = true })

  -- a connection that is made leaves the database as it was, and the pool set
  connect-opened :
      (url : String) (s : PostgresTokenStorage Db)
      → statement database (create_pool url) s ≡ (ok tt, s)
      → connect database url s ≡ (ok tt, opened database s)
  unfolding set_pool
  connect-opened url s h = bind-ok (statement database (create_pool url)) set_pool h

  module _ (laws : SqlLaws database) where
    initialize-with :
        (url : String) (s : PostgresTokenStorage Db)
        → Started s ((connect database url >> verify_schema database) s)
    unfolding set_pool
    initialize-with url s =
        let pool = statement database (create_pool url) in
        let verify : Unit {0} → StorageMethod database (Unit {0}) = λ _. verify_schema database in
        elim (query-cases database (create_pool url) s (laws.pool-Reads url)) [
          | inl (e, h) ↦
              not_connected e
                (bind-raise (connect database url) verify (bind-raise pool set_pool h))
          | inr (x, k, h) ↦
              elim (query-cases database columns (opened database s) laws.columns-Reads) [
                | inl (e, h') ↦ not_verified e (
                    bind-ok (connect database url) verify (connect-opened url s h)
                    ∙ verify_schema-raises database s e h')
                | inr (rows, k', h') ↦ verified rows k' (
                    bind-ok (connect database url) verify (connect-opened url s h)
                    ∙ verify_schema-up_to_date database s rows h')
              ]
        ]

    -- `initialize` raises that the configuration lacks a URL, or the error of the driver, and leaves the
    -- object as it was; or else it sets the pool, and then raises what the driver raises to the
    -- reading of the catalogue, or the drift of the schema exactly where a table that is there lacks
    -- a required column.
    pub initialize-Started : (s : PostgresTokenStorage Db) → Started s (initialize database s)
    unfolding initialize
    initialize-Started s = go s.database_url s.has_pool s.db
      where
        go :
            (url : Option String) (pool : Bool) (d : Db)
            → let t : PostgresTokenStorage Db = record {
              database_url = url;
              has_pool = pool;
              db = d;
            } in
              Started t (initialize database t)
        go none pool d = no_url refl refl
        go (some url) pool d =
            let t : PostgresTokenStorage Db = record {
              database_url = some url;
              has_pool = pool;
              db = d;
            } in
            elim (Bool-cases (url == "")) [
              | inl empty ↦ no_url (rw empty) (rw empty)
              | inr filled ↦ rw filled (initialize-with url t)
            ]

-- a `close` that returned leaves no pool
close-closed :
    (database : Database) (s : PostgresTokenStorage database.Db)
    → (close database s).0 ≡ ok tt
    → (close database s).1.has_pool ≡ false
unfolding close
close-closed database s h = ground (arith, h)

-- After a `close` that returned, on any storage, every call raises that the storage is not
-- initialised, and sends nothing.
pub perform-close :
    (database : Database) (sha256_hex : String → String) (is_space : ℕ → Bool) (now at : ℕ)
    (call : Call) (s : PostgresTokenStorage database.Db)
    → (close database s).0 ≡ ok tt
    → perform database sha256_hex is_space now at call (close database s).1
      ≡ (raise (storage_error storage_not_initialized_error), (close database s).1)
unfolding close
perform-close database sha256_hex is_space now at call s h =
    perform-closed database sha256_hex is_space now at call (close database s).1
      (close-closed database s h)
