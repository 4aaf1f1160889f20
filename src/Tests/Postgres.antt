-- ===== src/Tests/Postgres.antt =====
-- `PostgresTokenStorage` at work on the tables of Tables. The digest of these tests is the text itself,
-- and a space is what ASCII has up to 32.
use mcp_authflow.Prelude.{
  ◌+◌, ℕ, ◌≡◌, refl, String, Bool, true, none, some, List, [], ◌∷◌, leb, arith,
}
use mcp_authflow.Prelude.Method.{ok, raise}
use mcp_authflow.Dict
use mcp_authflow.Dict.{get-empty}
use mcp_authflow.Text.Split.{split}
use mcp_authflow.Validation.{join_spaces}
use mcp_authflow.Storage.{hash_token, schema_drift_error, storage_not_initialized_error}
use mcp_authflow.Responses.{digits, decimal}
use mcp_authflow.Storage.Backends.{LoadsAgreeUntilRaise}
use mcp_authflow.Storage.Interface.{memory_storage, run_calls}
use mcp_authflow.Storage.Interface.Loads
use mcp_authflow.Storage.Interface.Loads.{postgres, found_seen}
use mcp_authflow.Storage.Memory
use mcp_authflow.Storage.Memory.Ledger
use mcp_authflow.Storage.Database.{Database, storage_error, driver_error, row_of_client}
use mcp_authflow.Storage.Database.Schema.{columns_of, table_missing, missing_from, missing_columns}
use mcp_authflow.Storage.Database.Status.{KnowsAscii, parse_int, read_last, parse_status}
use mcp_authflow.Storage.Memory.{Table, access, refresh}
use mcp_authflow.Storage.Memory.Ledger.{store, load, cleanup, revoke}
use mcp_authflow.Storage.Postgres
use mcp_authflow.Storage.Postgres.{PostgresTokenStorage}
use mcp_authflow.Storage.Postgres.Calls.{TimedCall, Ascending, Explained, granted, perform, answers}
use mcp_authflow.Storage.Postgres.Counts
use mcp_authflow.Storage.Postgres.Sizes
use mcp_authflow.Storage.Postgres.Counts.{Removal, expired_in}
use mcp_authflow.Storage.Postgres.Ledger.{TokenView, done, found}
use mcp_authflow.Storage.Postgres.Lifecycle
use mcp_authflow.Storage.Postgres.Lifecycle.{Started}
use mcp_authflow.Storage.Postgres.Refinement
use mcp_authflow.Storage.Scopes.{split_scopes}
use mcp_authflow.Tests.Tables.{Tables, tables, tables_laws}

program : Unit {0}
unfolding Dict.empty Dict.get Dict.put Dict.remove Dict.keys_where Dict.remove_all Dict.size
    hash_token digits decimal split split_scopes join_spaces columns_of table_missing missing_from
    missing_columns parse_int read_last parse_status Postgres.init Postgres.row_scopes
    Postgres.loaded_token Postgres.require_pool Postgres.verify_schema Postgres.initialize
    Postgres.close Postgres.store_to Postgres.delete_from Postgres.load_found Postgres.load_from
    Postgres.cleanup_from Postgres.delete_client Postgres.revoke_client_tokens
    Postgres.get_token_count Postgres.get_refresh_token_count perform answers
program = tt

abbrev digest : String → String
digest token = token

abbrev is_space : ℕ → Bool
is_space c = leb c 32

ascii : KnowsAscii is_space
ascii = record { blank = refl; printable = λ c h k. ground (arith, h) }

abbrev no_rows : Tables
no_rows = record { access_rows = Dict.empty; refresh_rows = Dict.empty }

abbrev fresh : PostgresTokenStorage Tables
fresh = (Postgres.initialize tables (Postgres.init (some "postgresql://db") none no_rows)).1

abbrev calls : List TimedCall
calls =
    (1_000_000, 1, store access "t1" "app" ("read" ∷ "write" ∷ []) 10 none none)
    ∷ (9_999_999, 2, load access "t1")
    ∷ (10_000_001, 3, load access "t1")
    ∷ (11_000_000, 4, cleanup access)
    ∷ (12_000_000, 5, store access "t2" "" ("read" ∷ []) 20 none none)
    ∷ (13_000_000, 6, revoke "app")
    ∷ []

abbrev t1 : TokenView
t1 = record {
  token = "t1";
  client_id = "app";
  scopes = "read" ∷ "write" ∷ [];
  resource = none;
  expires_at = 10;
  user_id = none;
}

-- within the microsecond of its expiry the token is there, and not after
calls_run :
    answers tables digest is_space calls fresh
    ≡ ok done
      ∷ ok (found (some t1))
      ∷ ok (found none)
      ∷ ok done
      ∷ raise (driver_error tt)
      ∷ ok done
      ∷ []
unfolding program
calls_run = refl

fresh-ready : fresh.has_pool ≡ true
unfolding program
fresh-ready = refl

fresh-empty : (table : Table) (key : String) → tables.rows fresh.db table key ≡ none
unfolding program
fresh-empty access key = get-empty key
fresh-empty refresh key = get-empty key

rising : Ascending 0 calls
rising =
    (omega arith, (omega arith, (omega arith, (omega arith, (omega arith, (omega arith, tt))))))

answers-grants_example :
    Explained digest
      (λ table key. granted is_space (tables.rows fresh.db table key))
      calls
      (answers tables digest is_space calls fresh)
answers-grants_example =
    Refinement.answers-grants tables tables_laws digest is_space ascii calls fresh fresh-ready
      rising refl

run_calls-LoadsAgreeUntilRaise_example :
    LoadsAgreeUntilRaise digest calls
      (run_calls
        (memory_storage digest)
        Ledger.done
        Ledger.found
        calls
        ((memory_storage digest).initialize Memory.init).1)
      (run_calls
        (postgres tables digest is_space)
        done
        (found_seen tables digest is_space)
        calls
        fresh)
run_calls-LoadsAgreeUntilRaise_example =
    Loads.run_calls-LoadsAgreeUntilRaise tables digest is_space tables_laws ascii calls fresh
      fresh-ready fresh-empty rising refl

-- In the second of the expiry a clean-up removes the row and keeps the record.
last_second :
    ((Memory.cleanup_from access 10_500_000
        (Memory.store_to digest access 1 "t1" "app" [] 10 none none
          (Memory.initialize Memory.init).1).1).0
      ≡ ok 0)
    × ((Postgres.cleanup_from tables is_space access 10_500_000
          (Postgres.store_to tables digest access 1 "t1" "app" [] 10 none none fresh).1).0
        ≡ ok 1)
unfolding program Memory.init Memory.initialize Memory.store_to Memory.cleanup_from
last_second = (refl, refl)

created :
    (Postgres.load_from tables digest is_space access 5_000_000 "t1"
      (Postgres.store_to tables digest access 2_000_000 "t1" "app"
        ("read" ∷ [])
        10
        none
        none
        fresh).1).0
    ≡ ok (
        some (record {
          token = "t1";
          client_id = "app";
          scopes = "read" ∷ [];
          resource = none;
          expires_at = 10;
          created_at = some 2;
          user_id = none;
        }))
unfolding program
created = refl

-- an access token and a refresh token of the client, and one of another
abbrev stocked : PostgresTokenStorage Tables
stocked =
    let one =
      (Postgres.store_to tables digest access 1 "t1" "app" ("read" ∷ []) 10 none none fresh).1 in
    let two =
      (Postgres.store_to tables digest refresh 2 "r1" "app" ("read" ∷ []) 20 none none one).1 in
    (Postgres.store_to tables digest access 3 "t2" "web" ("read" ∷ []) 30 none none two).1

stocked-ready : stocked.has_pool ≡ true
unfolding program
stocked-ready = refl

revoked : (Postgres.revoke_client_tokens tables is_space "app" stocked).0 ≡ ok 2
unfolding program
revoked = refl

revoke_client_tokens-Removal_example :
    Removal tables
      (λ table. row_of_client "app")
      stocked
      (Postgres.revoke_client_tokens tables is_space "app" stocked)
revoke_client_tokens-Removal_example =
    Counts.revoke_client_tokens-Removal tables tables_laws is_space ascii stocked stocked-ready
      "app"

cleanup_from-Removal_example :
    Removal tables
      (expired_in access 15_000_000)
      stocked
      (Postgres.cleanup_from tables is_space access 15_000_000 stocked)
cleanup_from-Removal_example =
    Counts.cleanup_from-Removal tables tables_laws is_space ascii stocked stocked-ready access
      15_000_000

initialize-Started_example :
    Started tables
      (Postgres.init (some "postgresql://db") none no_rows)
      (Postgres.initialize tables (Postgres.init (some "postgresql://db") none no_rows))
initialize-Started_example =
    Lifecycle.initialize-Started tables tables_laws
      (Postgres.init (some "postgresql://db") none no_rows)

-- the database before `user_id` was added to its access tokens
abbrev old_tables : Database
old_tables = record tables {
  columns = λ d. (ok (("mcp_access_tokens", "token") ∷ ("mcp_access_tokens", "client_id") ∷ []), d);
}

-- the drift is raised, and the pool stays: the storage then works
drifted :
    let after =
      Postgres.initialize old_tables (Postgres.init (some "postgresql://db") none no_rows) in
    (after.0 ≡ raise (storage_error schema_drift_error))
    × ((Postgres.load_from old_tables digest is_space access 1 "t1" after.1).0 ≡ ok none)
unfolding program
drifted = (refl, refl)

get_token_count-revoke_client_tokens_example : 1 + 0 + 2 ≡ 2 + 1
unfolding program
get_token_count-revoke_client_tokens_example =
    Sizes.get_token_count-revoke_client_tokens tables tables_laws stocked stocked-ready is_space
      ascii "app" 2 2 1 1 0 refl refl refl refl refl

-- a closed storage takes no calls
closed :
    perform tables digest is_space 5 6 (load access "t1") (Postgres.close tables stocked).1
    ≡ (raise (storage_error storage_not_initialized_error), (Postgres.close tables stocked).1)
unfolding program
closed = refl

-- A load that reads an expired row, and deletes it after another caller stored the token anew, deletes
-- the new row.
overtaken :
    let read = tables.select_row access (digest "t1") stocked.db in
    let renewed =
      (Postgres.store_to tables digest access 4 "t1" "app" ("read" ∷ []) 60 none none stocked).1 in
    (read.0 ≡ ok (tables.rows stocked.db access "t1"))
    × ((Postgres.load_from tables digest is_space access 15_000_000 "t1"
          (Postgres.load_found tables digest is_space access 15_000_000 "t1"
            (tables.rows stocked.db access "t1")
            renewed).1).0
        ≡ ok none)
unfolding program
overtaken = (refl, refl)
