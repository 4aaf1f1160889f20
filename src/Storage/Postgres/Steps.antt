-- ===== src/Storage/Postgres/Steps.antt =====
-- One call of `PostgresTokenStorage`, against the ledger of Ledger.
use mcp_authflow.Text.Split.{split}
use mcp_authflow.Prelude.{
  eq_iff, ℕ, ◌≤◌, ◌≡◌, String, Bool, true, Option, some, List, all, leb, ◌==◌, arith, Bool-cases,
  inl, inr, ap, sym, ◌∙◌,
}
use mcp_authflow.Prelude.Method.{Result, ok, raise, bind-ok, bind-raise, pure}
use mcp_authflow.Storage.{UserId, hash_token}
use mcp_authflow.Storage.Database.{Database, SqlLaws, PostgresError, driver_error, value_error}
use mcp_authflow.Storage.Database.Status.{KnowsAscii}
use mcp_authflow.Storage.Scopes.{split_scopes, is_scope, split_scopes-join_spaces}
use mcp_authflow.Storage.Memory.{Table}
use mcp_authflow.Storage.Memory.Ledger.{Call, store, delete, cleanup, revoke}
use mcp_authflow.Storage.Postgres.{
  PostgresTokenStorage, row_scopes, end_of_time, StorageMethod, cleanup_from, revoke_client_tokens,
}
use mcp_authflow.Storage.Postgres.Outcomes.{
  values_of, statement-cases, store_to-early, store_to-late, delete_from-eq,
}
use mcp_authflow.Storage.Postgres.Ledger.{Grants, Reply, done, good, note, reply}
use mcp_authflow.Storage.Postgres.Calls.{Excused, by_driver, late_expiry, granted, perform}
use mcp_authflow.Storage.Postgres.Counts.{
  unchanged, removed, revoke_client_tokens-Removal, cleanup_from-Removal,
}
use mcp_authflow.Validation.{join_spaces}

-- What a store joins is split again by a load.
row_scopes-join :
    (is_space : ℕ → Bool) (scopes : List String)
    → is_space 32 ≡ true
    → all (is_scope is_space) scopes ≡ true
    → row_scopes is_space (some (join_spaces scopes)) ≡ scopes
unfolding row_scopes split_scopes split
row_scopes-join is_space scopes blank words = elim (Bool-cases (join_spaces scopes == "")) [
  | inl empty ↦ rw empty (
      ap (split_scopes is_space) (sym ((eq_iff (join_spaces scopes) "").0 empty))
      ∙ split_scopes-join_spaces is_space scopes blank words)
  | inr h ↦ rw h (split_scopes-join_spaces is_space scopes blank words)
]

module _ (database : Database) (sha256_hex : String → String) (is_space : ℕ → Bool) where
  open database use {Db, Failure, rows}

  abbrev pub Agrees : ℕ → Db → Grants → Type 0
  Agrees now d grants =
      (table : Table) (digest : String) (later : ℕ)
      → now ≤ later
      → good later (granted is_space (rows d table digest)) ≡ good later (grants table digest)

  pub data Step (now : ℕ) (call : Call) (grants : Grants) (s : PostgresTokenStorage Db)
      (after : Result (PostgresError Failure) Reply × PostgresTokenStorage Db) : Type 0 where
    failed :
        (e : PostgresError Failure)
        → Excused e call
        → after ≡ (raise e, s)
        → Step now call grants s after
    answered :
        (d : Db)
        → after ≡ (ok (reply sha256_hex now call grants), record s { db = d })
        → Agrees now d (note sha256_hex call grants)
        → Step now call grants s after

module _ (database : Database) (laws : SqlLaws database) (sha256_hex : String → String)
    (is_space : ℕ → Bool) (ascii : KnowsAscii is_space) where
  open database use {
    Db, Failure, insert_row, select_row, delete_row, delete_expired, has_refresh_table,
    delete_client_both, delete_client_access, rows, size,
  }

  module _ (now : ℕ) (s : PostgresTokenStorage Db) (grants : Grants) (ready : s.has_pool ≡ true)
      (agrees : Agrees database sha256_hex is_space now s.db grants) where
    pub perform-delete :
        (at : ℕ) (table : Table) (token : String)
        → Step database sha256_hex is_space now
            (delete table token)
            grants
            s
            (perform database sha256_hex is_space now at (delete table token) s)
    unfolding perform
    perform-delete at table token =
        let key = hash_token sha256_hex token in
        elim (statement-cases database (delete_row table key) s (laws.delete-IsAtomic table key)) [
          | inl (e, h) ↦
              failed (driver_error e) (by_driver e (delete table token))
                (rw (delete_from-eq database s ready sha256_hex table token ∙ h))
          | inr (x, k, h) ↦
              answered (delete_row table key s.db).1
                (rw (delete_from-eq database s ready sha256_hex table token ∙ h))
                (λ other digest later l. ground (
                  arith,
                  agrees other digest later l,
                  laws.delete_row_lem table key s.db k other digest,
                ))
        ]

    pub perform-store :
        (at : ℕ) (table : Table) (token client_id : String) (scopes : List String) (expires_at : ℕ)
        (resource : Option String) (user_id : Option UserId)
        → all (is_scope is_space) scopes ≡ true
        → let call = store table token client_id scopes expires_at resource user_id in
          Step database sha256_hex is_space now call grants s
            (perform database sha256_hex is_space now at call s)
    unfolding perform row_scopes
    perform-store at table token c sc e r u words =
        let key = hash_token sha256_hex token in
        let values = values_of c sc e r u in
        elim (Bool-cases (leb end_of_time e)) [
          | inl late ↦
              failed value_error (late_expiry table token c sc e r u (ground (arith, late)))
                (rw (store_to-late database s ready sha256_hex table at token c sc e r u late))
          | inr early ↦
              elim (statement-cases database (insert_row at table key values) s
                (laws.insert-IsAtomic at table key values)) [
                  | inl (x, h) ↦
                      failed (driver_error x) (by_driver x (store table token c sc e r u)) (
                        rw (
                          store_to-early database s ready sha256_hex table at token c sc e r u early
                          ∙ h))
                  | inr (x, k, h) ↦
                      answered (insert_row at table key values s.db).1
                        (rw (
                          store_to-early database s ready sha256_hex table at token c sc e r u early
                          ∙ h))
                        (λ other digest later l. ground (
                          arith,
                          row_scopes-join is_space sc ascii.blank words,
                          agrees other digest later l,
                          laws.insert_row_lem at table key values s.db k other digest,
                        ))
                ]
        ]

    abbrev finish : ℕ → StorageMethod database Reply
    finish _ = pure done

    pub perform-cleanup :
        (at : ℕ) (table : Table)
        → Step database sha256_hex is_space now
            (cleanup table)
            grants
            s
            (perform database sha256_hex is_space now at (cleanup table) s)
    unfolding perform
    perform-cleanup at table =
        let run = cleanup_from database is_space table now in
        elim (cleanup_from-Removal database laws is_space ascii s ready table now) [
          | unchanged e h ↦
              failed (driver_error e) (by_driver e (cleanup table)) (bind-raise run finish h)
          | removed n d h gone sum ↦ answered d (bind-ok run finish h) (λ other digest later l.
              ground (arith, agrees other digest later l, gone other digest))
        ]

    pub perform-revoke :
        (at : ℕ) (client_id : String)
        → Step database sha256_hex is_space now
            (revoke client_id)
            grants
            s
            (perform database sha256_hex is_space now at (revoke client_id) s)
    unfolding perform
    perform-revoke at client_id =
        let run = revoke_client_tokens database is_space client_id in
        elim (revoke_client_tokens-Removal database laws is_space ascii s ready client_id) [
          | unchanged e h ↦
              failed (driver_error e) (by_driver e (revoke client_id)) (bind-raise run finish h)
          | removed n d h gone sum ↦ answered d (bind-ok run finish h) (λ table digest later l.
              ground (arith, agrees table digest later l, gone table digest))
        ]
