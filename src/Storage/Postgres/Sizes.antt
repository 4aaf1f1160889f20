-- ===== src/Storage/Postgres/Sizes.antt =====
-- `get_token_count` and `get_refresh_token_count` of `PostgresTokenStorage`, round a revocation.
use mcp_authflow.Prelude.{
  ℕ, ◌+◌, ◌≡◌, String, Bool, true, Option, none, some, inl, inr, ap, sym, ◌∙◌, arith,
}
use mcp_authflow.Prelude.Method.{Result, ok, raise, bind-ok, bind-raise, pure, ◌>>=◌}
use mcp_authflow.Storage.Database.{Database, SqlLaws, driver_error}
use mcp_authflow.Storage.Database.Status.{KnowsAscii}
use mcp_authflow.Storage.Memory.{Table, access, refresh}
use mcp_authflow.Storage.Postgres.{
  PostgresTokenStorage, StorageMethod, statement, require_pool, revoke_client_tokens,
  get_token_count, get_refresh_token_count,
}
use mcp_authflow.Storage.Postgres.Counts.{unchanged, removed, revoke_client_tokens-Removal}
use mcp_authflow.Storage.Postgres.Outcomes.{query-cases}

-- the count of a call that returned
abbrev value : {E : Type 0} → Result E ℕ → ℕ
value (ok n) = n
value (raise e) = 0

not_both : {E : Type 0} (e : E) (n : ℕ) → ◌≡◌ {A = Result E ℕ} (raise e) (ok n) → ⊥
not_both e n h = ground (arith, h)

module _ (database : Database) (laws : SqlLaws database) where
  open database use {Db, Failure, count_rows, size}

  abbrev count_of : Option ℕ → ℕ
  count_of row = elim row [ none ↦ 0 | some count ↦ count ]

  counted : Option ℕ → StorageMethod database ℕ
  counted row = pure (count_of row)

  count_rows-size :
      (table : Table) (s : PostgresTokenStorage Db) (count : ℕ)
      → ((statement database (count_rows table) >>= counted) s).0 ≡ ok count
      → count ≡ size s.db table
  unfolding counted
  count_rows-size table s count h =
      elim (query-cases database (count_rows table) s (laws.count-Reads table)) [
        | inl (e, f) ↦ absurd (
            not_both (driver_error e) count (
              sym (ap (λ p. p.0) (bind-raise (statement database (count_rows table)) counted f))
              ∙ h))
        | inr (n, k, f) ↦
            sym (
              ap value (
                sym (ap (λ p. p.0) (bind-ok (statement database (count_rows table)) counted f))
                ∙ h))
            ∙ ap count_of (laws.count_rows_lem table s.db n k)
      ]

  module _ (s : PostgresTokenStorage Db) (ready : s.has_pool ≡ true) (count : ℕ) where
    get_token_count-size : (get_token_count database s).0 ≡ ok count → count ≡ size s.db access
    unfolding get_token_count require_pool counted
    get_token_count-size h = count_rows-size access s count (sym (ap (λ p. p.0) opened) ∙ h)
      where
        opened : get_token_count database s ≡ (statement database (count_rows access) >>= counted) s
        opened = rw ready

    get_refresh_token_count-size :
        (get_refresh_token_count database s).0 ≡ ok count → count ≡ size s.db refresh
    unfolding get_refresh_token_count require_pool counted
    get_refresh_token_count-size h =
        count_rows-size refresh s count (sym (ap (λ p. p.0) opened) ∙ h)
      where
        opened :
            get_refresh_token_count database s
            ≡ (statement database (count_rows refresh) >>= counted) s
        opened = rw ready

  module _ (s : PostgresTokenStorage Db) (ready : s.has_pool ≡ true) where
    -- On an open pool: where a revocation and the counts of both tables before it and after it all return,
    -- the tables have as many tokens less as the revocation answers.
    pub get_token_count-revoke_client_tokens :
        (is_space : ℕ → Bool) (ascii : KnowsAscii is_space) (client_id : String)
        (n tokens refresh_tokens tokens' refresh_tokens' : ℕ)
        → (get_token_count database s).0 ≡ ok tokens
        → (get_refresh_token_count database s).0 ≡ ok refresh_tokens
        → let (result, after) = revoke_client_tokens database is_space client_id s in
          result ≡ ok n
          → (get_token_count database after).0 ≡ ok tokens'
          → (get_refresh_token_count database after).0 ≡ ok refresh_tokens'
          → tokens' + refresh_tokens' + n ≡ tokens + refresh_tokens
    get_token_count-revoke_client_tokens is_space ascii c n a r a' r' ha hr hn ha' hr' =
        elim (revoke_client_tokens-Removal database laws is_space ascii s ready c) [
          | unchanged e h ↦ absurd (not_both (driver_error e) n (sym (ap (λ p. p.0) h) ∙ hn))
          | removed m d h gone sum ↦
              let after : PostgresTokenStorage Db = record s { db = d } in
              omega (
                arith,
                sum,
                ap value (sym (ap (λ p. p.0) h) ∙ hn),
                get_token_count-size s ready a ha,
                get_refresh_token_count-size s ready r hr,
                get_token_count-size after ready a'
                    (sym (ap (λ p. (get_token_count database p.1).0) h) ∙ ha'),
                get_refresh_token_count-size after ready r'
                    (sym (ap (λ p. (get_refresh_token_count database p.1).0) h) ∙ hr'),
              )
        ]
