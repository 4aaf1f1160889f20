-- ===== src/Storage/Interface/Loads.antt =====
-- Clients of mcp_authflow/storage/base.py's `TokenStorage`: the same calls to the two backends.
use mcp_authflow.Prelude.{
  ℕ, ◌≡◌, refl, String, Bool, true, Option, none, List, [], ◌∷◌, map, all, ap, ◌∙◌,
}
use mcp_authflow.Storage.Backends.{LoadsAgreeUntilRaise, untimed, answers-LoadsAgreeUntilRaise}
use mcp_authflow.Storage.Database.{Database, SqlLaws}
use mcp_authflow.Storage.Database.Status.{KnowsAscii}
use mcp_authflow.Storage.Memory
use mcp_authflow.Storage.Memory.{MemoryTokenStorage, Table, access, refresh}
use mcp_authflow.Storage.Memory.Ledger
use mcp_authflow.Storage.Memory.Ledger.{Call, store, load, delete, cleanup, revoke, Answer}
use mcp_authflow.Storage.Memory.Refinement as MemoryCalls
use mcp_authflow.Storage.Postgres
use mcp_authflow.Storage.Postgres.{PostgresTokenStorage, LoadedToken}
use mcp_authflow.Storage.Postgres.Calls
use mcp_authflow.Storage.Postgres.Calls.{TimedCall, Ascending, seen, has_words}
use mcp_authflow.Storage.Postgres.Ledger.{Reply, done, found}
use mcp_authflow.Storage.Interface.{
  TokenStorage, memory_storage, postgres_storage, run_call, run_calls,
}

run_call-memory :
    (sha256_hex : String → String) (now at : ℕ) (call : Call) (s : MemoryTokenStorage)
    → run_call (memory_storage sha256_hex) Ledger.done Ledger.found now at call s
      ≡ MemoryCalls.perform sha256_hex now call s
unfolding run_call MemoryCalls.perform Memory.store_token Memory.store_refresh_token
    Memory.load_token Memory.load_refresh_token Memory.delete_token Memory.delete_refresh_token
    Memory.cleanup_expired_tokens Memory.cleanup_expired_refresh_tokens
run_call-memory sha256_hex now at (store access token c sc e r u) s = refl
run_call-memory sha256_hex now at (store refresh token c sc e r u) s = refl
run_call-memory sha256_hex now at (load access token) s = refl
run_call-memory sha256_hex now at (load refresh token) s = refl
run_call-memory sha256_hex now at (delete access token) s = refl
run_call-memory sha256_hex now at (delete refresh token) s = refl
run_call-memory sha256_hex now at (cleanup access) s = refl
run_call-memory sha256_hex now at (cleanup refresh) s = refl
run_call-memory sha256_hex now at (revoke client_id) s = refl

run_calls-memory :
    (sha256_hex : String → String) (calls : List TimedCall) (s : MemoryTokenStorage)
    → run_calls (memory_storage sha256_hex) Ledger.done Ledger.found calls s
      ≡ MemoryCalls.answers sha256_hex (map untimed calls) s
unfolding run_calls MemoryCalls.answers
run_calls-memory sha256_hex [] s = refl
run_calls-memory sha256_hex ((now, at, call) ∷ calls) s =
    ap (λ p. p.0 ∷ run_calls (memory_storage sha256_hex) Ledger.done Ledger.found calls p.1)
      (run_call-memory sha256_hex now at call s)
    ∙ ap (◌∷◌ (MemoryCalls.perform sha256_hex now call s).0)
        (run_calls-memory sha256_hex calls (MemoryCalls.perform sha256_hex now call s).1)

module _ (database : Database) (sha256_hex : String → String) (is_space : ℕ → Bool) where
  abbrev pub postgres : TokenStorage
  postgres = postgres_storage database sha256_hex is_space

  abbrev pub found_seen : Option LoadedToken → Reply
  found_seen token_data = found (seen token_data)

  run_call-postgres :
      (now at : ℕ) (call : Call) (s : PostgresTokenStorage database.Db)
      → run_call postgres done found_seen now at call s
        ≡ Calls.perform database sha256_hex is_space now at call s
  unfolding run_call Calls.perform Postgres.store_token Postgres.store_refresh_token
      Postgres.load_token Postgres.load_refresh_token Postgres.delete_token
      Postgres.delete_refresh_token Postgres.cleanup_expired_tokens
      Postgres.cleanup_expired_refresh_tokens
  run_call-postgres now at (store access token c sc e r u) s = refl
  run_call-postgres now at (store refresh token c sc e r u) s = refl
  run_call-postgres now at (load access token) s = refl
  run_call-postgres now at (load refresh token) s = refl
  run_call-postgres now at (delete access token) s = refl
  run_call-postgres now at (delete refresh token) s = refl
  run_call-postgres now at (cleanup access) s = refl
  run_call-postgres now at (cleanup refresh) s = refl
  run_call-postgres now at (revoke client_id) s = refl

  run_calls-postgres :
      (calls : List TimedCall) (s : PostgresTokenStorage database.Db)
      → run_calls postgres done found_seen calls s
        ≡ Calls.answers database sha256_hex is_space calls s
  unfolding run_calls Calls.answers
  run_calls-postgres [] s = refl
  run_calls-postgres ((now, at, call) ∷ calls) s =
      ap (λ p. p.0 ∷ run_calls postgres done found_seen calls p.1) (run_call-postgres now at call s)
      ∙ ap (◌∷◌ (Calls.perform database sha256_hex is_space now at call s).0)
          (run_calls-postgres calls (Calls.perform database sha256_hex is_space now at call s).1)

  -- Given the same calls of the public methods that store, load, delete, clean up and revoke under a
  -- clock that never falls, with scopes that are words, a memory storage that was just initialised and
  -- a PostgreSQL storage on an open pool with empty tables, over a database that keeps the laws, agree
  -- in what their loads find until the first call that PostgreSQL raises: each load finds nothing in
  -- both, or in both a record with the same client, scopes, resource, expiry and user under the same
  -- digest, or is made in the second of the token's expiry, where the memory may still find the record
  -- and PostgreSQL not. `created_at` and the counts that clean-ups and revocations answer are not
  -- compared, since the backends differ in them, and the two count methods are not among the calls.
  -- PostgreSQL raises what the driver raises, and at a store whose expiry no datetime holds.
  pub run_calls-LoadsAgreeUntilRaise :
      (laws : SqlLaws database) (ascii : KnowsAscii is_space) (calls : List TimedCall)
      (s : PostgresTokenStorage database.Db)
      → s.has_pool ≡ true
      → ((table : Table) (digest : String) → database.rows s.db table digest ≡ none)
      → Ascending 0 calls
      → all (λ (now, at, call). has_words is_space call) calls ≡ true
      → LoadsAgreeUntilRaise sha256_hex calls
          (run_calls
            (memory_storage sha256_hex)
            Ledger.done
            Ledger.found
            calls
            ((memory_storage sha256_hex).initialize Memory.init).1)
          (run_calls postgres done found_seen calls s)
  run_calls-LoadsAgreeUntilRaise laws ascii calls s ready empty a words =
      rw (run_calls-memory sha256_hex calls MemoryCalls.fresh, run_calls-postgres calls s)
        (answers-LoadsAgreeUntilRaise database laws sha256_hex is_space ascii calls s ready empty a
          words)
