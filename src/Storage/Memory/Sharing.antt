-- ===== src/Storage/Memory/Sharing.antt =====
-- mcp_authflow/storage/memory.py: the lists of scopes as objects. `_store_to` puts a copy of the caller's
-- list in the record, and `_load_from` hands out a copy of the record with the list itself. This is
-- one of the two dicts, beside a heap of lists; whoever holds the address of a list can write to it.
use mcp_authflow.Prelude.{
  ℕ, ◌+◌, ◌≡◌, refl, String, Bool, true, false, Option, none, some, List, [], ◌∷◌, arith, ltb, leb,
  if◌then◌else◌, all, eqb, ap, ◌∙◌, ==_refl,
}
use mcp_authflow.Prelude.Time.{int_time}
use mcp_authflow.Prelude.Method.{Result, ok, raise, Method, pure, gets, modify, ◌>>=◌, ◌>>◌}
use mcp_authflow.Dict
use mcp_authflow.Dict.{Dict, get-put}
use mcp_authflow.Storage.{UserId, StorageError, storage_not_initialized_error, hash_token}

-- what is at each address below `next`
pub record Heap : Type 0 where
  pub next : ℕ
  pub lists : ℕ → List String

abbrev pub alloc : List String → Heap → Heap
alloc xs h = record { next = h.next + 1; lists = λ p. if eqb p h.next then xs else h.lists p }

abbrev pub write : ℕ → List String → Heap → Heap
write p xs h = record h { lists = λ q. if eqb q p then xs else h.lists q }

-- the caller's changes, one after the other
abbrev pub write_all : List (ℕ × List String) → Heap → Heap
write_all [] h = h
write_all ((p, xs) ∷ writes) h = write_all writes (write p xs h)

-- a record of the dict, with the address of its list
pub record SharedToken : Type 0 where
  pub token : String
  pub client_id : String
  pub scopes : ℕ
  pub resource : Option String
  pub expires_at : ℕ
  pub created_at : ℕ
  pub user_id : Option UserId

pub record SharedTable : Type 0 where
  pub tokens : Dict SharedToken
  pub initialized : Bool
  pub heap : Heap

abbrev pub with_heap : (Heap → Heap) → SharedTable → SharedTable
with_heap f t = record t { heap = f t.heap }

abbrev pub SharedMethod : Type 0 → Type 0
SharedMethod A = Method SharedTable StorageError A

unfoldable pub require_table : SharedMethod (Unit {0})
require_table t = if t.initialized then (ok tt, t) else (raise storage_not_initialized_error, t)

module _ (sha256_hex : String → String) where
  -- `scopes` is the address of the caller's list
  unfoldable pub store_shared :
      ℕ → String → String → ℕ → ℕ → Option String → Option UserId → SharedMethod (Unit {0})
  unfolding require_table
  store_shared now token client_id scopes expires_at resource user_id = do
    require_table
    modify λ t. record {
      tokens = Dict.put t.tokens (hash_token sha256_hex token) (record {
        token = token;
        client_id = client_id;
        scopes = t.heap.next;
        resource = resource;
        expires_at = expires_at;
        created_at = int_time now;
        user_id = user_id;
      });
      initialized = t.initialized;
      heap = alloc (t.heap.lists scopes) t.heap;
    }

  unfoldable pub delete_shared : String → SharedMethod (Unit {0})
  unfolding require_table
  delete_shared token = do
    require_table
    let digest = hash_token sha256_hex token
    modify λ t.
        if Dict.has t.tokens digest then record t { tokens = Dict.remove t.tokens digest } else t

  unfoldable pub load_shared_found :
      ℕ → String → Option SharedToken → SharedMethod (Option SharedToken)
  unfolding delete_shared
  load_shared_found now token none = pure none
  load_shared_found now token (some token_data) =
      if ltb token_data.expires_at (int_time now)
      then (do delete_shared token; pure none)
      else pure (some token_data)

  unfoldable pub load_shared : ℕ → String → SharedMethod (Option SharedToken)
  unfolding require_table load_shared_found
  load_shared now token = do
    require_table
    token_data ← gets (λ t. Dict.get t.tokens (hash_token sha256_hex token))
    load_shared_found now token token_data

-- changes of older lists leave the newest as it is
lists-write_all :
    (p : ℕ) (writes : List (ℕ × List String)) (h : Heap)
    → all (λ w. ltb w.0 p) writes ≡ true
    → (write_all writes h).lists p ≡ h.lists p
lists-write_all p [] h older = refl
lists-write_all p ((q, xs) ∷ writes) h older =
    ground (arith, lists-write_all p writes (write q xs h))

-- a load that finds a record that is still good changes nothing
load_shared-found :
    (sha256_hex : String → String) (now : ℕ) (token : String) (u : SharedTable) (d : SharedToken)
    → u.initialized ≡ true
    → Dict.get u.tokens (hash_token sha256_hex token) ≡ some d
    → ltb d.expires_at (int_time now) ≡ false
    → load_shared sha256_hex now token u ≡ (ok (some d), u)
unfolding load_shared load_shared_found require_table
load_shared-found sha256_hex now token u d ready found good = rw (ready, found, good)

abbrev pub Loaded : Type 0
Loaded = Result StorageError (Option SharedToken) × SharedTable

-- the scopes that a load reads, at the address in its record
abbrev pub scopes_of : Loaded → Result StorageError (Option (List String))
scopes_of (raise e, u) = raise e
scopes_of (ok none, u) = ok none
scopes_of (ok (some token_data), u) = ok (some (u.heap.lists token_data.scopes))

-- what the caller does with the list of the record that a load found
abbrev pub changed : List String → Loaded → SharedTable
changed xs (raise e, u) = u
changed xs (ok none, u) = u
changed xs (ok (some token_data), u) = with_heap (write token_data.scopes xs) u

module _ (sha256_hex : String → String) where
  abbrev pub loaded_scopes : ℕ → String → SharedTable → Result StorageError (Option (List String))
  loaded_scopes now token u = scopes_of (load_shared sha256_hex now token u)

  abbrev pub change_loaded : ℕ → String → List String → SharedTable → SharedTable
  change_loaded now token xs u = changed xs (load_shared sha256_hex now token u)

module _ (sha256_hex : String → String) (t : SharedTable) (ready : t.initialized ≡ true) where
  module _ (at : ℕ) (token client_id : String) (scopes expires_at : ℕ) (resource : Option String)
      (user_id : Option UserId) (writes : List (ℕ × List String))
      (older : all (λ w. ltb w.0 t.heap.next) writes ≡ true) where
    abbrev pub stored : SharedTable
    stored =
        with_heap (write_all writes)
          (store_shared sha256_hex at token client_id scopes expires_at resource user_id t).1

    written : SharedToken
    written = record {
      token = token;
      client_id = client_id;
      scopes = t.heap.next;
      resource = resource;
      expires_at = expires_at;
      created_at = int_time at;
      user_id = user_id;
    }

    stored-eq : stored ≡ record {
      tokens = Dict.put t.tokens (hash_token sha256_hex token) written;
      initialized = t.initialized;
      heap = write_all writes (alloc (t.heap.lists scopes) t.heap);
    }
    unfolding store_shared require_table written
    stored-eq = rw ready

    stored-ready : stored.initialized ≡ true
    stored-ready = ap (λ u. u.initialized) stored-eq ∙ ready

    get-stored : Dict.get stored.tokens (hash_token sha256_hex token) ≡ some written
    get-stored =
        ap (λ u. Dict.get u.tokens (hash_token sha256_hex token)) stored-eq
        ∙ get-put t.tokens (hash_token sha256_hex token) (hash_token sha256_hex token) written
        ∙ rw (==_refl (hash_token sha256_hex token))

    lists-stored : stored.heap.lists t.heap.next ≡ t.heap.lists scopes
    lists-stored =
        ap (λ u. u.heap.lists t.heap.next) stored-eq
        ∙ lists-write_all t.heap.next writes (alloc (t.heap.lists scopes) t.heap) older
        ∙ ground arith

    load-stored :
        (now : ℕ) (f : Heap → Heap)
        → leb (int_time now) expires_at ≡ true
        → load_shared sha256_hex now token (with_heap f stored)
          ≡ (ok (some written), with_heap f stored)
    unfolding written
    load-stored now f h =
        load_shared-found sha256_hex now token (with_heap f stored) written stored-ready get-stored
          (ground (arith, h))

    -- A caller that changes the list that it stored, or any list older than the store, changes nothing
    -- that a load reads before the token has expired; one that changes the list of a record that a
    -- load returned changes what every later load reads.
    pub loaded_scopes-Shared :
        (now later : ℕ) (xs : List String)
        → leb (int_time now) expires_at ≡ true
        → leb (int_time later) expires_at ≡ true
        → (loaded_scopes sha256_hex now token stored ≡ ok (some (t.heap.lists scopes)))
          × (loaded_scopes sha256_hex later token (change_loaded sha256_hex now token xs stored)
              ≡ ok (some xs))
    unfolding written
    loaded_scopes-Shared now later xs h k = (
      ap scopes_of (load-stored now (λ g. g) h) ∙ ap (λ ys. ok (some ys)) lists-stored,
      ap (λ p. loaded_scopes sha256_hex later token (changed xs p)) (load-stored now (λ g. g) h)
          ∙ ap scopes_of (load-stored later (write t.heap.next xs) k)
          ∙ ground arith,
    )
