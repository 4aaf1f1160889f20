-- ===== src/Storage/Memory/Laws.antt =====
-- What single methods of `MemoryTokenStorage` do, on every branch.
use mcp_authflow.Prelude.{
  ℕ, ◌+◌, String, ◌≡◌, refl, true, false, ◌&&◌, Option, none, some, List, map, arith, ◌==◌,
  if◌then◌else◌, length,
}
use mcp_authflow.Prelude.Time.{int_time}
use mcp_authflow.Prelude.Method.{ok, raise}
use mcp_authflow.Dict
use mcp_authflow.Dict.{holds, size-remove_where, size-put}
use mcp_authflow.Storage.{UserId, storage_not_initialized_error, hash_token, TokenData}
use mcp_authflow.Storage.Memory.{
  MemoryTokenStorage, Table, access, refresh, tokens, init, initialize, close, is_issued_to,
  is_expired, store_to, load_from, delete_from, cleanup_from, revoke_client_tokens, get_token_count,
  get_refresh_token_count,
}
use mcp_authflow.Storage.Memory.Contents.{
  same_table, peek, live, peek-store_to, load_from-live, peek-revoke_client_tokens,
  peek-cleanup_from,
}
use mcp_authflow.Storage.Memory.Ledger.{
  Call, store, load, delete, cleanup, revoke, blank, ledger_answers,
}
use mcp_authflow.Storage.Memory.Refinement.{Ascending, perform, answers, fresh, answers-ledger}

-- the record that a store writes
abbrev pub stored :
    ℕ → String → String → List String → ℕ → Option String → Option UserId → TokenData
stored now token client_id scopes expires_at resource user_id = record {
  token = token;
  client_id = client_id;
  scopes = scopes;
  resource = resource;
  expires_at = expires_at;
  created_at = int_time now;
  user_id = user_id;
}

module _ (s : MemoryTokenStorage) (ready : s.initialized ≡ true) where
  -- On an initialised storage, a load after a store of a token with the same digest in the same
  -- table answers with exactly what was stored, until the second of its expiry has passed; a load
  -- of any other digest, or from the other table, answers as it would have without the store.
  pub load_from-store_to :
      (sha256_hex : String → String) (table other : Table) (at now : ℕ) (token client_id : String)
      (scopes : List String) (expires_at : ℕ) (resource : Option String) (user_id : Option UserId)
      (wanted : String)
      → (load_from sha256_hex other now wanted
          (store_to sha256_hex table at token client_id scopes expires_at resource user_id s).1).0
        ≡ (if same_table table other && hash_token sha256_hex token == hash_token sha256_hex wanted
            then ok (live now (some (stored at token client_id scopes expires_at resource user_id)))
            else (load_from sha256_hex other now wanted s).0)
  load_from-store_to sha256_hex table other at now token c sc e r u wanted = ground (
    arith,
    load_from-live sha256_hex s ready other now wanted,
    load_from-live sha256_hex (store_to sha256_hex table at token c sc e r u s).1
        (store_to-initialized table) other now wanted,
    peek-store_to sha256_hex s ready table other at token c sc e r u (hash_token sha256_hex wanted),
  )
    where
      store_to-initialized :
          (table : Table) → (store_to sha256_hex table at token c sc e r u s).1.initialized ≡ true
      store_to-initialized access = unfold store_to in ground arith
      store_to-initialized refresh = unfold store_to in ground arith

  -- Revoking a client on an initialised storage removes its tokens from both tables, keeps every
  -- other record of either, and answers with the number of entries removed.
  pub revoke_client_tokens_exact :
      (client_id : String)
      → let after = (revoke_client_tokens client_id s).1 in
        (n : ℕ) × ((revoke_client_tokens client_id s).0 ≡ ok n)
        × (Dict.size after.access_tokens + Dict.size after.refresh_tokens + n
            ≡ Dict.size s.access_tokens + Dict.size s.refresh_tokens)
        × ((table : Table) (digest : String)
            → peek after table digest ≡ (
                if holds (is_issued_to client_id) (peek s table digest)
                then none
                else peek s table digest))
  unfolding revoke_client_tokens
  revoke_client_tokens_exact client_id = (
    length (Dict.keys_where (is_issued_to client_id) s.access_tokens)
        + length (Dict.keys_where (is_issued_to client_id) s.refresh_tokens),
    ground arith,
    ground (
      arith,
      size-remove_where s.access_tokens (is_issued_to client_id),
      size-remove_where s.refresh_tokens (is_issued_to client_id),
    ),
    peek-revoke_client_tokens s ready client_id,
  )

  -- A clean-up of an initialised storage removes exactly the expired records of its table, leaves
  -- the other table alone, and answers with the number of entries removed.
  pub cleanup_from_exact :
      (table : Table) (now : ℕ)
      → let after = (cleanup_from table now s).1 in
        (n : ℕ) × ((cleanup_from table now s).0 ≡ ok n)
        × (Dict.size (tokens table after) + n ≡ Dict.size (tokens table s))
        × ((other : Table) (digest : String)
            → peek after other digest ≡ (
                if same_table table other
                then live now (peek s other digest)
                else peek s other digest))
  unfolding cleanup_from
  cleanup_from_exact access now = (
    length (Dict.keys_where (is_expired now) s.access_tokens),
    ground arith,
    ground (arith, size-remove_where s.access_tokens (is_expired now)),
    λ other digest. peek-cleanup_from s ready access other now digest,
  )
  cleanup_from_exact refresh now = (
    length (Dict.keys_where (is_expired now) s.refresh_tokens),
    ground arith,
    ground (arith, size-remove_where s.refresh_tokens (is_expired now)),
    λ other digest. peek-cleanup_from s ready refresh other now digest,
  )

-- every call, and both counts, raise and change nothing
abbrev pub Refuses : (String → String) → ℕ → Call → MemoryTokenStorage → Type 0
Refuses sha256_hex now call s =
    (perform sha256_hex now call s ≡ (raise storage_not_initialized_error, s))
    × (get_token_count s ≡ (raise storage_not_initialized_error, s))
    × (get_refresh_token_count s ≡ (raise storage_not_initialized_error, s))

uninitialized-Refuses :
    (sha256_hex : String → String) (s : MemoryTokenStorage) (now : ℕ) (call : Call)
    → s.initialized ≡ false
    → Refuses sha256_hex now call s
unfolding perform store_to load_from delete_from cleanup_from revoke_client_tokens get_token_count
    get_refresh_token_count
uninitialized-Refuses sha256_hex s now (store table token c sc e r u) h = ground arith
uninitialized-Refuses sha256_hex s now (load table token) h = ground arith
uninitialized-Refuses sha256_hex s now (delete table token) h = ground arith
uninitialized-Refuses sha256_hex s now (cleanup table) h = ground arith
uninitialized-Refuses sha256_hex s now (revoke client_id) h = ground arith

init_closed : init.initialized ≡ false
unfolding init
init_closed = refl

close_closed : (s : MemoryTokenStorage) → (close s).1.initialized ≡ false
unfolding close
close_closed s = refl

close_resets : (s : MemoryTokenStorage) → (initialize (close s).1).1 ≡ fresh
unfolding close init initialize
close_resets s = refl

-- On a storage that was just made, and on one that was just closed, whatever it held, every store,
-- load, deletion, clean-up and revocation, in either table, and both counts raise
-- StorageNotInitializedError and change nothing. When the closed storage is initialised again it has
-- forgotten every token: under a clock that never falls, each later sequence of calls is answered
-- from a ledger that starts blank.
pub close-Refuses :
    (sha256_hex : String → String) (s : MemoryTokenStorage) (now : ℕ) (call : Call)
    (calls : List (ℕ × Call))
    → Ascending 0 calls
    → Refuses sha256_hex now call init
      × Refuses sha256_hex now call (close s).1
      × (answers sha256_hex calls (initialize (close s).1).1
          ≡ map ok (ledger_answers sha256_hex calls blank))
close-Refuses sha256_hex s now call calls a = (
  uninitialized-Refuses sha256_hex init now call init_closed,
  uninitialized-Refuses sha256_hex (close s).1 now call (close_closed s),
  rw (close_resets s) (answers-ledger sha256_hex calls a),
)
