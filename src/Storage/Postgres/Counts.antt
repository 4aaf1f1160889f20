-- ===== src/Storage/Postgres/Counts.antt =====
-- The counts that methods of `PostgresTokenStorage` return.
use mcp_authflow.Prelude.{
  ℕ, ◌+◌, ◌≡◌, refl, String, Bool, true, false, Option, none, some, if◌then◌else◌, inl, inr, ap,
  ◌∙◌, arith,
}
use mcp_authflow.Prelude.Method.{Result, ok, raise, bind-ok, bind-raise, pure}
use mcp_authflow.Storage.Database.{
  Row, Database, SqlLaws, PostgresError, driver_error, row_expired, row_of_client, unless,
}
use mcp_authflow.Storage.Database.Status.{KnowsAscii, parse_status, parse_status_lem}
use mcp_authflow.Storage.Memory.{Table, access, refresh}
use mcp_authflow.Storage.Memory.Contents.{same_table}
use mcp_authflow.Storage.Postgres.{
  PostgresTokenStorage, StorageMethod, statement, from_result, cleanup_from, delete_client,
  revoke_client_tokens,
}
use mcp_authflow.Storage.Postgres.Outcomes.{
  statement-cases, query-cases, cleanup_from-eq, revoke_client_tokens-eq,
}
use mcp_authflow.Text.{Text}

module _ (database : Database) where
  open database use {Db, Failure, rows, size}

  -- how many rows a database has in the two tables
  abbrev pub both_sizes : Db → ℕ
  both_sizes d = size d access + size d refresh

  -- The driver raised and nothing changed, or the call returned the number of the rows that went, and
  -- these are the rows of each table that `test` picks.
  pub data Removal (test : Table → Row → Bool) (s : PostgresTokenStorage Db)
      (after : Result (PostgresError Failure) ℕ × PostgresTokenStorage Db) : Type 0 where
    unchanged : (e : Failure) → after ≡ (raise (driver_error e), s) → Removal test s after
    removed :
        (n : ℕ) (d : Db)
        → after ≡ (ok n, record s { db = d })
        → ((table : Table) (k : String) → rows d table k ≡ unless (test table) (rows s.db table k))
        → both_sizes d + n ≡ both_sizes s.db
        → Removal test s after

abbrev pub expired_in : Table → ℕ → Table → Row → Bool
expired_in table now other row = if same_table table other then row_expired now row else false

module _ (database : Database) (laws : SqlLaws database) (is_space : ℕ → Bool)
    (ascii : KnowsAscii is_space) (s : PostgresTokenStorage database.Db)
    (ready : s.has_pool ≡ true) where
  open database use {
    Db, Failure, delete_expired, has_refresh_table, delete_client_both, delete_client_access, rows,
    size,
  }

  parsed : Text → StorageMethod database ℕ
  parsed result = from_result database (parse_status is_space result)

  revoke-both :
      (client_id : String)
      → Removal database
          (λ table. row_of_client client_id)
          s
          (delete_client database is_space client_id true s)
  unfolding delete_client
  revoke-both client_id =
      let deletion = statement database (delete_client_both client_id) in
      let counted : Option ℕ → StorageMethod database ℕ =
        λ row. pure (elim row [ none ↦ 0 | some count ↦ count ]) in
      elim (statement-cases database (delete_client_both client_id) s
        (laws.both-IsAtomic client_id)) [
          | inl (e, h) ↦ unchanged e (bind-raise deletion counted h)
          | inr (n, k, h) ↦
              let (gone, (m, is_m, sum)) = laws.delete_client_both_lem client_id s.db n k in
              let after = (delete_client_both client_id s.db).1 in
              removed m after
                (bind-ok deletion counted (h ∙ ap (λ o. (ok o, record s { db = after })) is_m)) gone
                sum
        ]

  -- a table of refresh tokens that is not there has no rows before or after
  revoke-access :
      (client_id : String)
      → ((digest : String) → rows s.db refresh digest ≡ none)
      → Removal database
          (λ table. row_of_client client_id)
          s
          (delete_client database is_space client_id false s)
  unfolding delete_client parsed
  revoke-access client_id vacant =
      let deletion = statement database (delete_client_access client_id) in
      elim (statement-cases database (delete_client_access client_id) s
        (laws.access-IsAtomic client_id)) [
          | inl (e, h) ↦ unchanged e (bind-raise deletion parsed h)
          | inr (status, k, h) ↦
              let (gone, same, (n, says, sum)) =
                laws.delete_client_access_lem client_id s.db status k in
              let after = (delete_client_access client_id s.db).1 in
              removed n after
                (bind-ok deletion parsed h
                  ∙ ap (λ r. (r, record s { db = after }))
                      (parse_status_lem is_space ascii status n says))
                (gone_from gone) (omega (arith, same, sum))
        ]
    where
      gone_from :
          {after : Db}
          → ((k : String)
              → (rows after access k ≡ unless (row_of_client client_id) (rows s.db access k))
                × (rows after refresh k ≡ rows s.db refresh k))
          → (table : Table) (k : String)
          → rows after table k ≡ unless (row_of_client client_id) (rows s.db table k)
      gone_from gone access k = (gone k).0
      gone_from gone refresh k = (gone k).1 ∙ rw (vacant k)

  -- On an open pool, a revocation removes exactly the client's rows from both tables and returns how
  -- many there were, whether or not there is a table of refresh tokens; where the driver raises,
  -- nothing has changed.
  pub revoke_client_tokens-Removal :
      (client_id : String)
      → Removal database
          (λ table. row_of_client client_id)
          s
          (revoke_client_tokens database is_space client_id s)
  revoke_client_tokens-Removal client_id =
      let query = statement database has_refresh_table in
      let rest = delete_client database is_space client_id in
      elim (query-cases database has_refresh_table s laws.refresh-Reads) [
        | inl (e, h) ↦
            unchanged e (
              revoke_client_tokens-eq database s ready is_space client_id ∙ bind-raise query rest h)
        | inr (true, k, h) ↦
            rw (revoke_client_tokens-eq database s ready is_space client_id ∙ bind-ok query rest h)
              (revoke-both client_id)
        | inr (false, k, h) ↦
            rw (revoke_client_tokens-eq database s ready is_space client_id ∙ bind-ok query rest h)
              (revoke-access client_id (laws.has_refresh_table_lem s.db k).1)
      ]

  removed_sum :
      (table : Table) (n : ℕ) (after : Db)
      → size after table + n ≡ size s.db table
      → ((other : Table) → same_table table other ≡ false → size after other ≡ size s.db other)
      → both_sizes database after + n ≡ both_sizes database s.db
  removed_sum access n after sum same = omega (arith, sum, same refresh refl)
  removed_sum refresh n after sum same = omega (arith, sum, same access refl)

  -- On an open pool, a clean-up of a table removes exactly the rows of it that have expired and returns
  -- how many there were; where the driver raises, nothing has changed.
  pub cleanup_from-Removal :
      (table : Table) (now : ℕ)
      → Removal database (expired_in table now) s (cleanup_from database is_space table now s)
  unfolding parsed
  cleanup_from-Removal table now =
      let deletion = statement database (delete_expired table now) in
      elim (statement-cases database (delete_expired table now) s
        (laws.expired-IsAtomic table now)) [
          | inl (e, h) ↦
              unchanged e
                (cleanup_from-eq database s ready is_space table now ∙ bind-raise deletion parsed h)
          | inr (status, k, h) ↦
              let ((n, says, sum), same) = laws.delete_expired_status table now s.db status k in
              let after = (delete_expired table now s.db).1 in
              removed n after
                (cleanup_from-eq database s ready is_space table now
                  ∙ bind-ok deletion parsed h
                  ∙ ap (λ r. (r, record s { db = after }))
                      (parse_status_lem is_space ascii status n says))
                (λ other key.
                  laws.delete_expired_lem table now s.db status k other key ∙ ground arith)
                (removed_sum table n after sum same)
        ]
