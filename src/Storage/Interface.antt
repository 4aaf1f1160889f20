-- ===== src/Storage/Interface.antt =====
-- mcp_authflow/storage/base.py: `TokenStorage`, the methods that each backend has, and the two backends
-- behind it. A method takes the readings of the program's clock and of the database's that it
-- may make.
pub mod Loads
use mcp_authflow.Prelude.{
  ℕ, ◌≡◌, refl, String, Bool, true, Option, none, some, List, [], ◌∷◌, map, all, ap, ap₂, ◌∙◌, sym,
}
use mcp_authflow.Prelude.Method.{Result, ok, raise, Method, pure, ◌>>=◌, ◌>>◌}
use mcp_authflow.Storage.{UserId, StorageError, TokenData}
use mcp_authflow.Storage.Backends.{LoadsAgreeUntilRaise, untimed, answers-LoadsAgreeUntilRaise}
use mcp_authflow.Storage.Database.{Database, SqlLaws, PostgresError}
use mcp_authflow.Storage.Database.Status.{KnowsAscii}
use mcp_authflow.Storage.Memory
use mcp_authflow.Storage.Memory.{MemoryTokenStorage, Table, access, refresh}
use mcp_authflow.Storage.Memory.Ledger
use mcp_authflow.Storage.Memory.Ledger.{Call, store, load, delete, cleanup, revoke, Answer}
use mcp_authflow.Storage.Memory.Refinement as MemoryCalls
use mcp_authflow.Storage.Postgres
use mcp_authflow.Storage.Postgres.{PostgresTokenStorage, LoadedToken}
use mcp_authflow.Storage.Postgres.Calls
use mcp_authflow.Storage.Postgres.Calls.{TimedCall, Ascending, seen, has_words}
use mcp_authflow.Storage.Postgres.Ledger.{Reply, done, found}

abbrev pub StoreMethod : Type 0 → Type 0 → Type 0
StoreMethod State Error =
    ℕ
    → ℕ
    → String
    → String
    → List String
    → ℕ
    → Option String
    → Option UserId
    → Method State Error (Unit {0})

pub record TokenStorage : Type 1 where
  pub State : Type 0
  pub Error : Type 0
  pub Loaded : Type 0
  pub initialize : Method State Error (Unit {0})
  pub close : Method State Error (Unit {0})
  pub store_token : StoreMethod State Error
  pub load_token : ℕ → String → Method State Error (Option Loaded)
  pub delete_token : String → Method State Error (Unit {0})
  pub cleanup_expired_tokens : ℕ → Method State Error ℕ
  pub get_token_count : Method State Error ℕ
  pub store_refresh_token : StoreMethod State Error
  pub load_refresh_token : ℕ → String → Method State Error (Option Loaded)
  pub delete_refresh_token : String → Method State Error (Unit {0})
  pub revoke_client_tokens : String → Method State Error ℕ
  pub cleanup_expired_refresh_tokens : ℕ → Method State Error ℕ
  pub get_refresh_token_count : Method State Error ℕ

abbrev pub memory_storage : (String → String) → TokenStorage
memory_storage sha256_hex = record {
  State = MemoryTokenStorage;
  Error = StorageError;
  Loaded = TokenData;
  initialize = Memory.initialize;
  close = Memory.close;
  store_token = λ now at. Memory.store_token sha256_hex now;
  load_token = Memory.load_token sha256_hex;
  delete_token = Memory.delete_token sha256_hex;
  cleanup_expired_tokens = Memory.cleanup_expired_tokens;
  get_token_count = Memory.get_token_count;
  store_refresh_token = λ now at. Memory.store_refresh_token sha256_hex now;
  load_refresh_token = Memory.load_refresh_token sha256_hex;
  delete_refresh_token = Memory.delete_refresh_token sha256_hex;
  revoke_client_tokens = Memory.revoke_client_tokens;
  cleanup_expired_refresh_tokens = Memory.cleanup_expired_refresh_tokens;
  get_refresh_token_count = Memory.get_refresh_token_count;
}

abbrev pub postgres_storage : Database → (String → String) → (ℕ → Bool) → TokenStorage
postgres_storage database sha256_hex is_space = record {
  State = PostgresTokenStorage database.Db;
  Error = PostgresError database.Failure;
  Loaded = LoadedToken;
  initialize = Postgres.initialize database;
  close = Postgres.close database;
  store_token = λ now. Postgres.store_token database sha256_hex;
  load_token = Postgres.load_token database sha256_hex is_space;
  delete_token = Postgres.delete_token database sha256_hex;
  cleanup_expired_tokens = Postgres.cleanup_expired_tokens database is_space;
  get_token_count = Postgres.get_token_count database;
  store_refresh_token = λ now. Postgres.store_refresh_token database sha256_hex;
  load_refresh_token = Postgres.load_refresh_token database sha256_hex is_space;
  delete_refresh_token = Postgres.delete_refresh_token database sha256_hex;
  revoke_client_tokens = Postgres.revoke_client_tokens database is_space;
  cleanup_expired_refresh_tokens = Postgres.cleanup_expired_refresh_tokens database is_space;
  get_refresh_token_count = Postgres.get_refresh_token_count database;
}

module _ (storage : TokenStorage) {A : Type 0} (nothing : A)
    (loaded : Option storage.Loaded → A) where
  open storage use {
    State, Error, Loaded, store_token, load_token, delete_token, cleanup_expired_tokens,
    store_refresh_token, load_refresh_token, delete_refresh_token, revoke_client_tokens,
    cleanup_expired_refresh_tokens,
  }

  -- A call of the public methods: `nothing` stands for `None` and for a count,
  -- which is left out: the backends count differently.
  unfoldable pub run_call : ℕ → ℕ → Call → Method State Error A
  run_call now at (store access token c scopes e r u) = do
    store_token now at token c scopes e r u
    pure nothing
  run_call now at (store refresh token c scopes e r u) = do
    store_refresh_token now at token c scopes e r u
    pure nothing
  run_call now at (load access token) = do
    token_data ← load_token now token
    pure (loaded token_data)
  run_call now at (load refresh token) = do
    token_data ← load_refresh_token now token
    pure (loaded token_data)
  run_call now at (delete access token) = do delete_token token; pure nothing
  run_call now at (delete refresh token) = do delete_refresh_token token; pure nothing
  run_call now at (cleanup access) = do cleanup_expired_tokens now; pure nothing
  run_call now at (cleanup refresh) = do cleanup_expired_refresh_tokens now; pure nothing
  run_call now at (revoke client_id) = do revoke_client_tokens client_id; pure nothing

  unfoldable pub run_calls : List TimedCall → State → List (Result Error A)
  unfolding run_call
  run_calls [] s = []
  run_calls ((now, at, call) ∷ calls) s =
      let (result, s') = run_call now at call s in result ∷ run_calls calls s'
