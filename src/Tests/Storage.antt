-- ===== src/Tests/Storage.antt =====
-- `MemoryTokenStorage` at work. The digest of these tests is the text itself.
use mcp_authflow.Prelude.{
  ℕ, ◌+◌, ◌≡◌, refl, String, true, none, some, List, [], ◌∷◌, map, arith, if◌then◌else◌,
}
use mcp_authflow.Prelude.Method.{ok}
use mcp_authflow.Dict
use mcp_authflow.Dict.{holds}
use mcp_authflow.Storage.{hash_token, TokenData}
use mcp_authflow.Storage.Memory.{
  MemoryTokenStorage, Table, access, refresh, init, initialize, close, store_to, load_from,
  delete_from, cleanup_from, revoke_client_tokens, get_token_count, get_refresh_token_count,
  is_issued_to,
}
use mcp_authflow.Storage.Memory.Contents.{same_table, peek, live}
use mcp_authflow.Storage.Memory.Sharing
use mcp_authflow.Storage.Memory.Sharing.{SharedTable, loaded_scopes, change_loaded}
use mcp_authflow.Storage.Memory.Laws
use mcp_authflow.Storage.Memory.Laws.{stored}
use mcp_authflow.Storage.Memory.Ledger.{
  Call, store, load, cleanup, revoke, found, done, blank, ledger_answers,
}
use mcp_authflow.Storage.Memory.Refinement.{perform, answers, fresh, answers-ledger}

program : Unit {0}
unfolding Dict.empty Dict.get Dict.put Dict.remove Dict.keys_where Dict.remove_all Dict.size
    hash_token init initialize close store_to load_from delete_from cleanup_from
    revoke_client_tokens get_token_count get_refresh_token_count perform answers ledger_answers
program = tt

abbrev digest : String → String
digest token = token

abbrev t1 : TokenData
t1 = stored 1_000_000 "t1" "app" ("read" ∷ []) 10 none none

abbrev one_token : MemoryTokenStorage
one_token = (store_to digest access 1_000_000 "t1" "app" ("read" ∷ []) 10 none none fresh).1

-- a token is good to the end of the second of its expiry, and is dropped by the load after it
expiry :
    ((load_from digest access 10_999_999 "t1" one_token).0 ≡ ok (some t1))
    × ((load_from digest access 11_000_000 "t1" one_token).0 ≡ ok none)
    × ((get_token_count (load_from digest access 11_000_000 "t1" one_token).1).0 ≡ ok 0)
unfolding program
expiry = (refl, refl, refl)

abbrev calls : List (ℕ × Call)
calls =
    (1_000_000, store access "t1" "app" ("read" ∷ []) 10 none none)
    ∷ (2_000_000, load access "t1")
    ∷ (3_000_000, load refresh "t1")
    ∷ (11_000_000, cleanup access)
    ∷ (11_000_001, load access "t1")
    ∷ (12_000_000, revoke "app")
    ∷ []

calls_run :
    answers digest calls fresh
    ≡ ok done ∷ ok (found (some t1)) ∷ ok (found none) ∷ ok done ∷ ok (found none) ∷ ok done ∷ []
unfolding program
calls_run = refl

answers-ledger_example : answers digest calls fresh ≡ map ok (ledger_answers digest calls blank)
answers-ledger_example = answers-ledger digest calls (omega arith)

fresh_ready : fresh.initialized ≡ true
unfolding program
fresh_ready = refl

load_from-store_to_example :
    (load_from digest access 2_000_000 "t1"
      (store_to digest access 1_000_000 "t1" "app" ("read" ∷ []) 10 none none fresh).1).0
    ≡ ok (some t1)
unfolding hash_token
load_from-store_to_example =
    Laws.load_from-store_to fresh fresh_ready digest access access 1_000_000 2_000_000 "t1" "app"
      ("read" ∷ []) 10 none none "t1"

one_token_ready : one_token.initialized ≡ true
unfolding program
one_token_ready = refl

revoke_client_tokens_exact_example :
    (n : ℕ) × ((revoke_client_tokens "app" one_token).0 ≡ ok n)
    × (Dict.size (revoke_client_tokens "app" one_token).1.access_tokens
          + Dict.size (revoke_client_tokens "app" one_token).1.refresh_tokens
          + n
        ≡ Dict.size one_token.access_tokens + Dict.size one_token.refresh_tokens)
    × ((table : Table) (key : String)
        → peek (revoke_client_tokens "app" one_token).1 table key ≡ (
            if holds (is_issued_to "app") (peek one_token table key)
            then none
            else peek one_token table key))
revoke_client_tokens_exact_example = Laws.revoke_client_tokens_exact one_token one_token_ready "app"

cleanup_from_exact_example :
    (n : ℕ) × ((cleanup_from access 11_000_000 one_token).0 ≡ ok n)
    × (Dict.size (cleanup_from access 11_000_000 one_token).1.access_tokens + n
        ≡ Dict.size one_token.access_tokens)
    × ((other : Table) (key : String)
        → peek (cleanup_from access 11_000_000 one_token).1 other key ≡ (
            if same_table access other
            then live 11_000_000 (peek one_token other key)
            else peek one_token other key))
cleanup_from_exact_example = Laws.cleanup_from_exact one_token one_token_ready access 11_000_000

close-Refuses_example :
    Laws.Refuses digest 5 (load access "t1") init
    × Laws.Refuses digest 5 (load access "t1") (close one_token).1
    × (answers digest ((6, load access "t1") ∷ []) (initialize (close one_token).1).1
        ≡ map ok (ledger_answers digest ((6, load access "t1") ∷ []) blank))
close-Refuses_example =
    Laws.close-Refuses digest one_token 5 (load access "t1") ((6, load access "t1") ∷ [])
      (omega arith, tt)

-- a dict without records, and the caller's list at address 0
abbrev unshared : SharedTable
unshared = record {
  tokens = Dict.empty;
  initialized = true;
  heap = record { next = 1; lists = λ p. "read" ∷ [] };
}

loaded_scopes-Shared_example :
    let table =
      Sharing.stored digest unshared refl 1 "t1" "app" 0 10 none none
        ((0, "admin" ∷ []) ∷ [])
        refl in
    (loaded_scopes digest 2_000_000 "t1" table ≡ ok (some ("read" ∷ [])))
    × (loaded_scopes digest 3_000_000 "t1"
          (change_loaded digest 2_000_000 "t1" ("admin" ∷ []) table)
        ≡ ok (some ("admin" ∷ [])))
loaded_scopes-Shared_example =
    Sharing.loaded_scopes-Shared digest unshared refl 1 "t1" "app" 0 10 none none
      ((0, "admin" ∷ []) ∷ []) refl 2_000_000 3_000_000 ("admin" ∷ []) refl refl
