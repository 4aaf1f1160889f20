-- ===== src/Storage/Postgres/Calls.antt =====
-- The calls of `PostgresTokenStorage` as sequences, and how a ledger explains their answers.
use mcp_authflow.Prelude.{ℕ, ◌≤◌, ◌≡◌, String, Bool, true, Option, none, some, List, [], ◌∷◌, all}
use mcp_authflow.Prelude.Method.{Result, ok, raise, pure, ◌>>=◌, ◌>>◌}
use mcp_authflow.Storage.{UserId}
use mcp_authflow.Storage.Database.{Row, Database, PostgresError, driver_error, value_error}
use mcp_authflow.Storage.Scopes.{is_scope}
use mcp_authflow.Storage.Memory.{Table}
use mcp_authflow.Storage.Memory.Ledger.{Call, store, load, delete, cleanup, revoke}
use mcp_authflow.Storage.Postgres.{
  PostgresTokenStorage, LoadedToken, row_scopes, end_of_time, StorageMethod, store_to, delete_from,
  load_from, cleanup_from, revoke_client_tokens,
}
use mcp_authflow.Storage.Postgres.Ledger.{Grant, TokenView, Grants, Reply, done, found, note, reply}

-- the call, with the readings of the program's clock and of the server's
abbrev pub TimedCall : Type 0
TimedCall = ℕ × ℕ × Call

-- the readings of the program's clock never fall
abbrev pub Ascending : ℕ → List TimedCall → Type 0
Ascending now [] = Unit
Ascending now ((later, at, call) ∷ calls) = (now ≤ later) × Ascending later calls

abbrev pub seen : Option LoadedToken → Option TokenView
seen none = none
seen (some t) = some (record {
  token = t.token;
  client_id = t.client_id;
  scopes = t.scopes;
  resource = t.resource;
  expires_at = t.expires_at;
  user_id = t.user_id;
})

-- what raises: the driver, and a store whose expiry no datetime holds
pub data Excused {Failure : Type 0} : PostgresError Failure → Call → Type 0 where
  by_driver : (e : Failure) (call : Call) → Excused (driver_error e) call
  late_expiry :
      (table : Table) (token client_id : String) (scopes : List String) (expires_at : ℕ)
      (resource : Option String) (user_id : Option UserId)
      → end_of_time ≤ expires_at
      → Excused value_error (store table token client_id scopes expires_at resource user_id)

module _ (is_space : ℕ → Bool) where
  abbrev pub granted : Option Row → Option Grant
  granted none = none
  granted (some row) = some (record {
    client_id = row.client_id;
    scopes = row_scopes is_space row.scopes;
    resource = row.resource;
    expires_at = row.expires_at;
    user_id = row.user_id;
  })

  -- each scope of a store is a word
  abbrev pub has_words : Call → Bool
  has_words (store table token client_id scopes expires_at resource user_id) =
      all (is_scope is_space) scopes
  has_words _ = true

module _ (database : Database) (sha256_hex : String → String) (is_space : ℕ → Bool) where
  open database use {Db, Failure}

  -- the call as a method of the storage
  unfoldable pub perform : ℕ → ℕ → Call → StorageMethod database Reply
  perform now at (store table token client_id scopes expires_at resource user_id) = do
    store_to database sha256_hex table at token client_id scopes expires_at resource user_id
    pure done
  perform now at (load table token) = do
    token_data ← load_from database sha256_hex is_space table now token
    pure (found (seen token_data))
  perform now at (delete table token) = do delete_from database sha256_hex table token; pure done
  perform now at (cleanup table) = do cleanup_from database is_space table now; pure done
  perform now at (revoke client_id) = do revoke_client_tokens database is_space client_id; pure done

  unfoldable pub answers :
      List TimedCall → PostgresTokenStorage Db → List (Result (PostgresError Failure) Reply)
  unfolding perform
  answers [] s = []
  answers ((now, at, call) ∷ calls) s =
      let (result, s') = perform now at call s in result ∷ answers calls s'

-- Each call raised what is excused, and the ledger stays, or answered as the ledger does.
unfoldable pub Explained :
    {Failure : Type 0}
    → (String → String)
    → Grants
    → List TimedCall
    → List (Result (PostgresError Failure) Reply)
    → Type 0
Explained sha256_hex grants [] results = results ≡ []
Explained sha256_hex grants (call ∷ calls) [] = ⊥
Explained sha256_hex grants ((now, at, call) ∷ calls) (ok answer ∷ results) =
    (answer ≡ reply sha256_hex now call grants)
    × Explained sha256_hex (note sha256_hex call grants) calls results
Explained sha256_hex grants ((now, at, call) ∷ calls) (raise e ∷ results) =
    Excused e call × Explained sha256_hex grants calls results
