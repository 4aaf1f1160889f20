-- ===== src/Storage/Postgres/Refinement.antt =====
-- Sequences of calls of `PostgresTokenStorage`, against the ledger of Ledger.
use mcp_authflow.Prelude.{ℕ, ◌≡◌, refl, String, Bool, true, List, [], ◌∷◌, all, arith}
use mcp_authflow.Prelude.Method.{Result}
use mcp_authflow.Storage.Database.{Database, SqlLaws, PostgresError}
use mcp_authflow.Storage.Database.Status.{KnowsAscii}
use mcp_authflow.Storage.Memory.Ledger.{Call, store, load, delete, cleanup, revoke}
use mcp_authflow.Storage.Postgres.{PostgresTokenStorage}
use mcp_authflow.Storage.Postgres.Ledger.{Grants, Reply, note}
use mcp_authflow.Storage.Postgres.Calls.{
  TimedCall, Ascending, granted, has_words, perform, answers, Explained,
}
use mcp_authflow.Storage.Postgres.Loads.{perform-load}
use mcp_authflow.Storage.Postgres.Steps.{
  Agrees, Step, failed, answered, perform-store, perform-delete, perform-cleanup, perform-revoke,
}

module _ (database : Database) (laws : SqlLaws database) (sha256_hex : String → String)
    (is_space : ℕ → Bool) (ascii : KnowsAscii is_space) where
  open database use {Db, Failure}

  module _ (now : ℕ) (s : PostgresTokenStorage Db) (grants : Grants) (ready : s.has_pool ≡ true)
      (agrees : Agrees database sha256_hex is_space now s.db grants) where
    abbrev StepOf : Call → Result (PostgresError Failure) Reply × PostgresTokenStorage Db → Type 0
    StepOf call after = Step database sha256_hex is_space now call grants s after

    perform-Step :
        (at : ℕ) (call : Call)
        → has_words is_space call ≡ true
        → StepOf call (perform database sha256_hex is_space now at call s)
    perform-Step at (store table token c sc e r u) h =
        perform-store database laws sha256_hex is_space ascii now s grants ready agrees at table
          token c sc e r u h
    perform-Step at (load table token) h =
        perform-load database laws sha256_hex is_space ascii now s grants ready agrees at table
          token
    perform-Step at (delete table token) h =
        perform-delete database laws sha256_hex is_space ascii now s grants ready agrees at table
          token
    perform-Step at (cleanup table) h =
        perform-cleanup database laws sha256_hex is_space ascii now s grants ready agrees at table
    perform-Step at (revoke client_id) h =
        perform-revoke database laws sha256_hex is_space ascii now s grants ready agrees at
          client_id

  answers-Explained :
      (calls : List TimedCall) (now : ℕ) (s : PostgresTokenStorage Db) (grants : Grants)
      → s.has_pool ≡ true
      → Agrees database sha256_hex is_space now s.db grants
      → Ascending now calls
      → all (λ (at, at', call). has_words is_space call) calls ≡ true
      → Explained sha256_hex grants calls (answers database sha256_hex is_space calls s)
  unfolding answers Explained
  answers-Explained [] now s grants ready a h words = refl
  answers-Explained ((later, at, call) ∷ calls) now s grants ready a (l, h) words =
      let a' : Agrees database sha256_hex is_space later s.db grants =
        λ table digest last k. a table digest last (omega arith) in
      elim (perform-Step later s grants ready a' at call (ground arith)) [
        | failed e excuse same ↦
            rw same (excuse, answers-Explained calls later s grants ready a' h (ground arith))
        | answered d same a'' ↦ rw same (
          refl,
          answers-Explained calls later (record s { db = d }) (note sha256_hex call grants) ready
              a'' h (ground arith),
        )
      ]

-- From an open pool on a database that keeps the laws, whatever the tables hold, under a clock that
-- never falls, and with scopes that are words, every sequence of stores, loads, deletions,
-- clean-ups and revocations of both kinds of token is explained by the ledger of what the tables held:
-- a call that the driver fails, and a store whose expiry no datetime holds, raises and changes
-- nothing; every other call returns, and a load answers as the ledger does.
pub answers-grants :
    (database : Database) (laws : SqlLaws database) (sha256_hex : String → String)
    (is_space : ℕ → Bool) (ascii : KnowsAscii is_space) (calls : List TimedCall)
    (s : PostgresTokenStorage database.Db)
    → s.has_pool ≡ true
    → Ascending 0 calls
    → all (λ (now, at, call). has_words is_space call) calls ≡ true
    → Explained sha256_hex
        (λ table digest. granted is_space (database.rows s.db table digest))
        calls
        (answers database sha256_hex is_space calls s)
answers-grants database laws sha256_hex is_space ascii calls s ready a words =
    answers-Explained database laws sha256_hex is_space ascii calls 0 s
      (λ table digest. granted is_space (database.rows s.db table digest)) ready
      (λ table digest later l. refl) a words
