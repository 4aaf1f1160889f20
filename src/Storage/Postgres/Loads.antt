-- ===== src/Storage/Postgres/Loads.antt =====
-- The loads of `PostgresTokenStorage`, against the ledger of Ledger.
use mcp_authflow.Prelude.{
  eq_iff, ℕ, ◌≤◌, ◌≡◌, String, Bool, true, ◌&&◌, Option, none, some, ltb, ◌==◌, if◌then◌else◌,
  arith, Bool-cases, inl, inr, le_refl, ap, sym, ◌∙◌,
}
use mcp_authflow.Prelude.Method.{Result, ok, bind-ok, bind-raise, pure, ◌>>=◌}
use mcp_authflow.Storage.{hash_token}
use mcp_authflow.Storage.Database.{Row, Database, SqlLaws, PostgresError, driver_error}
use mcp_authflow.Storage.Database.Status.{KnowsAscii}
use mcp_authflow.Storage.Memory.{Table, access, refresh}
use mcp_authflow.Storage.Memory.Contents.{same_table}
use mcp_authflow.Storage.Memory.Ledger.{load}
use mcp_authflow.Storage.Postgres.{
  PostgresTokenStorage, LoadedToken, loaded_token, statement, StorageMethod, load_found,
}
use mcp_authflow.Storage.Postgres.Outcomes.{
  statement-cases, query-cases, load_from-eq, load_found-expired, load_found-good,
}
use mcp_authflow.Storage.Postgres.Ledger.{Grant, Grants, Reply, found, good, view}
use mcp_authflow.Storage.Postgres.Calls.{seen, by_driver, granted, perform}
use mcp_authflow.Storage.Postgres.Steps.{Agrees, Step, failed, answered}

module _ (database : Database) (laws : SqlLaws database) (sha256_hex : String → String)
    (is_space : ℕ → Bool) (ascii : KnowsAscii is_space) where
  open database use {
    Db, Failure, insert_row, select_row, delete_row, delete_expired, has_refresh_table,
    delete_client_both, delete_client_access, rows, size,
  }

  same-rows :
      (d : Db) (table other : Table) (key digest : String)
      → (same_table table other && key == digest) ≡ true
      → rows d table key ≡ rows d other digest
  same-rows d access access key digest h = ap (rows d access) ((eq_iff key digest).0 h)
  same-rows d refresh refresh key digest h = ap (rows d refresh) ((eq_iff key digest).0 h)
  same-rows d access refresh key digest h = ground arith
  same-rows d refresh access key digest h = ground arith

  module _ (now : ℕ) (s : PostgresTokenStorage Db) (grants : Grants) (ready : s.has_pool ≡ true)
      (agrees : Agrees database sha256_hex is_space now s.db grants) where
    -- what the ledger holds of a row
    held :
        (table : Table) (token : String) (row : Option Row)
        → rows s.db table (hash_token sha256_hex token) ≡ row
        → good now (granted is_space row) ≡ good now (grants table (hash_token sha256_hex token))
    held table token row h =
        ap (λ o. good now (granted is_space o)) (sym h)
        ∙ agrees table (hash_token sha256_hex token) now (le_refl now)

    -- dropping an expired row
    agrees-dropped :
        (table other : Table) (token digest : String) (row : Row) (later : ℕ) (after : Option Row)
        → rows s.db table (hash_token sha256_hex token) ≡ some row
        → ltb row.expires_at now ≡ true
        → now ≤ later
        → after ≡ (
            if same_table table other && hash_token sha256_hex token == digest
            then none
            else rows s.db other digest)
        → good later (granted is_space after) ≡ good later (grants other digest)
    agrees-dropped table other token digest row later after h expired l e = ground (
      arith,
      agrees other digest later l,
      same-rows s.db table other (hash_token sha256_hex token) digest,
    )

    -- what a load does with the row that it found
    perform-found :
        (table : Table) (token : String) (row : Option Row)
        → rows s.db table (hash_token sha256_hex token) ≡ row
        → Step database sha256_hex is_space now (load table token) grants s (
            (load_found database sha256_hex is_space table now token row
                >>= (λ token_data. pure (found (seen token_data))))
              s)
    unfolding load_found loaded_token
    perform-found table token none h =
        answered s.db (ap (λ g. (ok (found (view token g)), s)) (held table token none h))
          (λ other digest later l. agrees other digest later l)
    perform-found table token (some row) h =
        let key = hash_token sha256_hex token in
        let loading = load_found database sha256_hex is_space table now token (some row) in
        let answer : Option LoadedToken → StorageMethod database Reply =
          λ token_data. pure (found (seen token_data)) in
        let dropped : Unit {0} → StorageMethod database (Option LoadedToken) =
          λ _ t. (ok none, t) in
        let deletion = statement database (delete_row table key) in
        let answered_by : PostgresTokenStorage Db
            → Option Grant
            → Result (PostgresError Failure) Reply × PostgresTokenStorage Db =
          λ t g. (ok (found (view token g)), t) in
        elim (Bool-cases (ltb row.expires_at now)) [
          | inr fresh ↦
              let g : good now (granted is_space (some row)) ≡ granted is_space (some row) =
                rw fresh in
              answered s.db
                (bind-ok loading answer
                    (load_found-good database s ready sha256_hex table is_space now token row fresh)
                  ∙ ap (answered_by s) (sym g ∙ held table token (some row) h))
                (λ other digest later l. agrees other digest later l)
          | inl expired ↦
              let g : good now (granted is_space (some row)) ≡ none = rw expired in
              elim (statement-cases database (delete_row table key) s
                (laws.delete-IsAtomic table key)) [
                  | inl (e, f) ↦ failed (driver_error e) (by_driver e (load table token)) (
                      bind-raise loading answer (
                        load_found-expired database s ready sha256_hex table is_space now token row
                          expired
                        ∙ bind-raise deletion dropped f))
                  | inr (x, k, f) ↦
                      answered (delete_row table key s.db).1
                        (bind-ok loading answer (
                            load_found-expired database s ready sha256_hex table is_space now token
                              row expired
                            ∙ bind-ok deletion dropped f)
                          ∙ ap (answered_by (record s { db = (delete_row table key s.db).1 }))
                              (sym g ∙ held table token (some row) h))
                        (λ other digest later l.
                          agrees-dropped table other token digest row later
                            (rows (delete_row table key s.db).1 other digest) h expired l
                            (laws.delete_row_lem table key s.db k other digest))
                ]
        ]

    pub perform-load :
        (at : ℕ) (table : Table) (token : String)
        → Step database sha256_hex is_space now
            (load table token)
            grants
            s
            (perform database sha256_hex is_space now at (load table token) s)
    unfolding perform
    perform-load at table token =
        let key = hash_token sha256_hex token in
        let query = statement database (select_row table key) in
        let read = load_found database sha256_hex is_space table now token in
        elim (query-cases database (select_row table key) s (laws.select-Reads table key)) [
          | inl (e, h) ↦ failed (driver_error e) (by_driver e (load table token)) (
              rw (
                load_from-eq database s ready sha256_hex table is_space now token
                ∙ bind-raise query read h))
          | inr (row, k, h) ↦
              rw
                (load_from-eq database s ready sha256_hex table is_space now token
                  ∙ bind-ok query read h)
                (perform-found table token row (sym (laws.select_row_lem table key s.db row k)))
        ]
