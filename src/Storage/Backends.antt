-- ===== src/Storage/Backends.antt =====
-- The two backends side by side: mcp_authflow/storage/memory.py, which compares an expiry with the whole
-- second of the clock, and mcp_authflow/storage/postgres.py, which compares it with the microsecond.
use mcp_authflow.Prelude.{
  ℕ, ◌≡◌, refl, String, Bool, true, false, ◌&&◌, Option, none, some, List, [], ◌∷◌, map, all, ltb,
  ◌==◌, if◌then◌else◌, arith, Bool-cases, inl, inr, eq_iff,
}
use mcp_authflow.Prelude.Time.{seconds, int_time}
use mcp_authflow.Prelude.Method.{Result, ok, raise}
use mcp_authflow.Dict.{holds}
use mcp_authflow.Storage.{StorageError, hash_token, TokenData}
use mcp_authflow.Storage.Database.{Database, SqlLaws, PostgresError}
use mcp_authflow.Storage.Database.Status.{KnowsAscii}
use mcp_authflow.Storage.Memory.{Table, is_issued_to}
use mcp_authflow.Storage.Memory.Contents.{same_table, live}
use mcp_authflow.Storage.Memory.Ledger
use mcp_authflow.Storage.Memory.Ledger.{
  Call, store, load, delete, cleanup, revoke, Answer, ledger_answers,
}
use mcp_authflow.Storage.Memory.Refinement as MemoryCalls
use mcp_authflow.Storage.Postgres.{PostgresTokenStorage}
use mcp_authflow.Storage.Postgres.Ledger.{
  Grant, Grants, Reply, done, found, good, is_granted_to, view, note, reply,
}
use mcp_authflow.Storage.Postgres.Calls.{
  TimedCall, Ascending, Excused, granted, has_words, answers, Explained,
}
use mcp_authflow.Storage.Postgres.Refinement.{answers-grants}

abbrev pub grant_of : TokenData → Grant
grant_of d = record {
  client_id = d.client_id;
  scopes = d.scopes;
  resource = d.resource;
  expires_at = seconds d.expires_at;
  user_id = d.user_id;
}

-- the call at the reading of the program's clock alone
abbrev pub untimed : TimedCall → ℕ × Call
untimed (now, at, call) = (now, call)

module _ (sha256_hex : String → String) where
  -- How what two loads find at a clock reading relates: the same record but for `created_at`, except
  -- that in the second of the expiry the memory may still find what PostgreSQL does not. What other
  -- calls answer is not compared.
  pub data LoadsAgree (now : ℕ) : Answer → Reply → Type 0 where
    not_compared : LoadsAgree now Ledger.done done
    neither_found : LoadsAgree now (Ledger.found none) (found none)
    both_found :
        (token : String) (d : TokenData)
        → hash_token sha256_hex d.token ≡ hash_token sha256_hex token
        → LoadsAgree now (Ledger.found (some d)) (
            found (
              some (record {
                token = token;
                client_id = d.client_id;
                scopes = d.scopes;
                resource = d.resource;
                expires_at = d.expires_at;
                user_id = d.user_id;
              })))
    in_last_second :
        (d : TokenData)
        → d.expires_at ≡ int_time now
        → LoadsAgree now (Ledger.found (some d)) (found none)

  -- one entry of the two ledgers
  pub data Entry (digest : String) : Option TokenData → Option Grant → Type 0 where
    vacant : Entry digest none none
    entry :
        (d : TokenData)
        → hash_token sha256_hex d.token ≡ digest
        → Entry digest (some d) (some (grant_of d))

  abbrev pub SameLedger : Ledger.Ledger → Grants → Type 0
  SameLedger ledger grants =
      (table : Table) (digest : String) → Entry digest (ledger table digest) (grants table digest)

  Entry-revoke :
      (client_id digest : String) {o : Option TokenData} {g : Option Grant}
      → Entry digest o g
      → Entry digest
          (if holds (is_issued_to client_id) o then none else o)
          (if holds (is_granted_to client_id) g then none else g)
  Entry-revoke client_id digest vacant = vacant
  Entry-revoke client_id digest (entry d h) = elim (Bool-cases (d.client_id == client_id)) [
    | inl mine ↦ rw mine vacant
    | inr other ↦ rw other (entry d h)
  ]

  -- a test that both ledgers make of the table and the digest
  Entry-if :
      (test : Bool) {digest : String} {o o' : Option TokenData} {g g' : Option Grant}
      → (test ≡ true → Entry digest o g)
      → Entry digest o' g'
      → Entry digest (if test then o else o') (if test then g else g')
  Entry-if true h k = h refl
  Entry-if false h k = k

  note-SameLedger :
      (now : ℕ) (call : Call) (ledger : Ledger.Ledger) (grants : Grants)
      → SameLedger ledger grants
      → SameLedger (Ledger.note sha256_hex now call ledger) (note sha256_hex call grants)
  note-SameLedger now (load other token) ledger grants same table digest = same table digest
  note-SameLedger now (cleanup other) ledger grants same table digest = same table digest
  note-SameLedger now (revoke client_id) ledger grants same table digest =
      Entry-revoke client_id digest (same table digest)
  note-SameLedger now (delete other token) ledger grants same table digest =
      Entry-if (same_table other table && hash_token sha256_hex token == digest) (λ _. vacant)
        (same table digest)
  note-SameLedger now (store other token c sc e r u) ledger grants same table digest =
      let d : TokenData = record {
        token = token;
        client_id = c;
        scopes = sc;
        resource = r;
        expires_at = e;
        created_at = int_time now;
        user_id = u;
      } in
      Entry-if (same_table other table && hash_token sha256_hex token == digest)
        (λ h. entry d (ground (arith, h, eq_iff (hash_token sha256_hex token) digest)))
        (same table digest)

  int_time-seconds : (e : ℕ) → int_time (seconds e) ≡ e
  int_time-seconds e = omega arith

  LoadsAgree-load :
      (now : ℕ) (token : String) {o : Option TokenData} {g : Option Grant}
      → Entry (hash_token sha256_hex token) o g
      → LoadsAgree now (Ledger.found (live now o)) (found (view token (good now g)))
  LoadsAgree-load now token vacant = neither_found
  LoadsAgree-load now token (entry d h) = elim (Bool-cases (ltb d.expires_at (int_time now))) [
    | inl past ↦
        let gone : ltb (seconds d.expires_at) now ≡ true = ground (arith, past) in
        rw (past, gone) neither_found
    | inr held ↦ elim (Bool-cases (ltb (seconds d.expires_at) now)) [
      | inl gone ↦ rw (held, gone) (in_last_second d (ground (arith, held, gone)))
      | inr fresh ↦ rw (held, fresh, int_time-seconds d.expires_at) (both_found token d h)
    ]
  ]

  LoadsAgree-reply :
      (now : ℕ) (call : Call) (ledger : Ledger.Ledger) (grants : Grants)
      → SameLedger ledger grants
      → LoadsAgree now (Ledger.answer sha256_hex now call ledger) (reply sha256_hex now call grants)
  LoadsAgree-reply now (load table token) ledger grants same =
      LoadsAgree-load now token (same table (hash_token sha256_hex token))
  LoadsAgree-reply now (store other token c sc e r u) ledger grants same = not_compared
  LoadsAgree-reply now (delete other token) ledger grants same = not_compared
  LoadsAgree-reply now (cleanup other) ledger grants same = not_compared
  LoadsAgree-reply now (revoke client_id) ledger grants same = not_compared

-- The loads agree call by call, up to the first call that PostgreSQL raised, with an excuse.
unfoldable pub LoadsAgreeUntilRaise :
    {Failure : Type 0}
    → (String → String)
    → List TimedCall
    → List (Result StorageError Answer)
    → List (Result (PostgresError Failure) Reply)
    → Type 0
LoadsAgreeUntilRaise sha256_hex ((now, at, call) ∷ calls) (ok a ∷ memory) (ok b ∷ postgres) =
    LoadsAgree sha256_hex now a b × LoadsAgreeUntilRaise sha256_hex calls memory postgres
LoadsAgreeUntilRaise sha256_hex ((now, at, call) ∷ calls) (ok a ∷ memory) (raise e ∷ postgres) =
    Excused e call
LoadsAgreeUntilRaise sha256_hex [] memory postgres = (memory ≡ []) × (postgres ≡ [])
LoadsAgreeUntilRaise sha256_hex _ _ _ = ⊥

module _ {Failure : Type 0} (sha256_hex : String → String) where
  ledgers-LoadsAgreeUntilRaise :
      (calls : List TimedCall) (ledger : Ledger.Ledger) (grants : Grants)
      (results : List (Result (PostgresError Failure) Reply))
      → SameLedger sha256_hex ledger grants
      → Explained sha256_hex grants calls results
      → LoadsAgreeUntilRaise sha256_hex calls
          (map ok (ledger_answers sha256_hex (map untimed calls) ledger))
          results
  unfolding LoadsAgreeUntilRaise Explained ledger_answers
  ledgers-LoadsAgreeUntilRaise [] ledger grants results same h = (refl, h)
  ledgers-LoadsAgreeUntilRaise ((now, at, call) ∷ calls) ledger grants [] same h = elim h [ ]
  ledgers-LoadsAgreeUntilRaise ((now, at, call) ∷ calls) ledger grants (raise e ∷ results) same
        (x, h) =
      x
  ledgers-LoadsAgreeUntilRaise ((now, at, call) ∷ calls) ledger grants (ok b ∷ results) same
        (e, h) =
      (
        rw e (LoadsAgree-reply sha256_hex now call ledger grants same),
        ledgers-LoadsAgreeUntilRaise calls (Ledger.note sha256_hex now call ledger)
            (note sha256_hex call grants) results
            (note-SameLedger sha256_hex now call ledger grants same) h,
      )

untimed-Ascending :
    (calls : List TimedCall) (now : ℕ)
    → Ascending now calls
    → MemoryCalls.Ascending now (map untimed calls)
untimed-Ascending [] now a = tt
untimed-Ascending ((later, at, call) ∷ calls) now (l, a) = (l, untimed-Ascending calls later a)

-- Given the same calls under a clock that never falls, with scopes that are words, a memory storage
-- that was just initialised and a PostgreSQL storage on an open pool with empty tables agree in
-- their loads until the first call that PostgreSQL raises: the same loads find the same records, up to `created_at` and the text of a token with the same digest, except that
-- in the second of a token's expiry the memory may still find it where PostgreSQL does not.
pub answers-LoadsAgreeUntilRaise :
    (database : Database) (laws : SqlLaws database) (sha256_hex : String → String)
    (is_space : ℕ → Bool) (ascii : KnowsAscii is_space) (calls : List TimedCall)
    (s : PostgresTokenStorage database.Db)
    → s.has_pool ≡ true
    → ((table : Table) (digest : String) → database.rows s.db table digest ≡ none)
    → Ascending 0 calls
    → all (λ (now, at, call). has_words is_space call) calls ≡ true
    → LoadsAgreeUntilRaise sha256_hex calls
        (MemoryCalls.answers sha256_hex (map untimed calls) MemoryCalls.fresh)
        (answers database sha256_hex is_space calls s)
answers-LoadsAgreeUntilRaise database laws sha256_hex is_space ascii calls s ready empty a words =
    rw (MemoryCalls.answers-ledger sha256_hex (map untimed calls) (untimed-Ascending calls 0 a)) (
      ledgers-LoadsAgreeUntilRaise sha256_hex calls Ledger.blank
        (λ table digest. granted is_space (database.rows s.db table digest))
        (answers database sha256_hex is_space calls s)
        (λ table digest. rw (empty table digest) vacant)
        (answers-grants database laws sha256_hex is_space ascii calls s ready a words))
