-- ===== src/Storage/Memory/Refinement.antt =====
-- Sequences of calls of `MemoryTokenStorage`, against the ledger of Ledger.
use mcp_authflow.Prelude.{
  ℕ, ◌≤◌, String, ◌≡◌, refl, Bool, true, Option, none, some, List, [], ◌∷◌, arith, map, ap₂,
  le_refl, if◌then◌else◌,
}
use mcp_authflow.Prelude.Method.{Result, ok, pure, ◌>>=◌, ◌>>◌, state-then_pure}
use mcp_authflow.Dict.{holds, get-empty}
use mcp_authflow.Storage.{StorageError, hash_token, TokenData}
use mcp_authflow.Storage.Memory.{
  MemoryTokenStorage, Table, access, refresh, StorageMethod, init, initialize, is_issued_to,
  store_to, delete_from, load_from, cleanup_from, revoke_client_tokens,
}
use mcp_authflow.Storage.Memory.Contents.{
  peek, live, peek-store_to, peek-delete_from, load_from-live, peek-load_from, peek-cleanup_from,
  peek-revoke_client_tokens,
}
use mcp_authflow.Storage.Memory.Ledger.{
  Ledger, Call, store, load, delete, cleanup, revoke, Answer, done, found, blank, note, answer,
  ledger_answers,
}

-- the readings of the clock never fall
abbrev pub Ascending : ℕ → List (ℕ × Call) → Type 0
Ascending now [] = Unit
Ascending now ((later, call) ∷ calls) = (now ≤ later) × Ascending later calls

pub record Tracks (now : ℕ) (s : MemoryTokenStorage) (ledger : Ledger) : Type 0 where
  pub ready : s.initialized ≡ true
  pub agrees :
      (table : Table) (digest : String) (later : ℕ)
      → now ≤ later
      → live later (peek s table digest) ≡ live later (ledger table digest)

live-live :
    (now later : ℕ) (o : Option TokenData) → now ≤ later → live later (live now o) ≡ live later o
live-live now later none h = refl
live-live now later (some d) h = ground arith

abbrev unless : (TokenData → Bool) → Option TokenData → Option TokenData
unless test o = if holds test o then none else o

live-unless :
    (now : ℕ) (test : TokenData → Bool) (o : Option TokenData)
    → live now (unless test o) ≡ unless test (live now o)
live-unless now test none = refl
live-unless now test (some d) = ground arith

module _ (sha256_hex : String → String) where
  -- the call as a method of the storage
  unfoldable pub perform : ℕ → Call → StorageMethod Answer
  perform now (store table token client_id scopes expires_at resource user_id) = do
    store_to sha256_hex table now token client_id scopes expires_at resource user_id
    pure done
  perform now (load table token) = do
    token_data ← load_from sha256_hex table now token
    pure (found token_data)
  perform now (delete table token) = do delete_from sha256_hex table token; pure done
  perform now (cleanup table) = do cleanup_from table now; pure done
  perform now (revoke client_id) = do revoke_client_tokens client_id; pure done

  unfoldable pub answers : List (ℕ × Call) → MemoryTokenStorage → List (Result StorageError Answer)
  answers [] s = []
  answers ((now, call) ∷ calls) s =
      let (result, s') = perform now call s in result ∷ answers calls s'

  module _ {now : ℕ} {s : MemoryTokenStorage} {ledger : Ledger} (t : Tracks now s ledger) where
    perform-answer : (call : Call) → (perform now call s).0 ≡ ok (answer sha256_hex now call ledger)
    unfolding perform
    perform-answer (load table token) = ground (
      arith,
      t.agrees table (hash_token sha256_hex token) now,
      load_from-live sha256_hex s t.ready table now token,
    )
    perform-answer (store access token c sc e r u) = unfold store_to in ground arith
    perform-answer (store refresh token c sc e r u) = unfold store_to in ground arith
    perform-answer (delete table token) = unfold delete_from in ground arith
    perform-answer (cleanup table) = unfold cleanup_from in ground arith
    perform-answer (revoke client_id) = unfold revoke_client_tokens in ground arith

    perform-initialized : (call : Call) → (perform now call s).1.initialized ≡ true
    unfolding perform store_to delete_from load_from cleanup_from revoke_client_tokens
    perform-initialized (load access token) = ground arith
    perform-initialized (load refresh token) = ground arith
    perform-initialized (store access token c sc e r u) = ground arith
    perform-initialized (store refresh token c sc e r u) = ground arith
    perform-initialized (delete access token) = ground arith
    perform-initialized (delete refresh token) = ground arith
    perform-initialized (cleanup access) = ground arith
    perform-initialized (cleanup refresh) = ground arith
    perform-initialized (revoke client_id) = ground arith

    perform-agrees :
        (call : Call) (table : Table) (digest : String) (later : ℕ)
        → now ≤ later
        → live later (peek (perform now call s).1 table digest)
          ≡ live later (note sha256_hex now call ledger table digest)
    unfolding perform
    perform-agrees (load other token) table digest later h = ground (
      arith,
      state-then_pure (load_from sha256_hex other now token) found s,
      peek-load_from sha256_hex s t.ready other table now token digest,
      live-live now later (peek s table digest) h,
      t.agrees table digest later h,
    )
    perform-agrees (store other token c sc e r u) table digest later h = ground (
      arith,
      state-then_pure (store_to sha256_hex other now token c sc e r u) (λ _. done) s,
      peek-store_to sha256_hex s t.ready other table now token c sc e r u digest,
      t.agrees table digest later h,
    )
    perform-agrees (delete other token) table digest later h = ground (
      arith,
      state-then_pure (delete_from sha256_hex other token) (λ _. done) s,
      peek-delete_from sha256_hex s t.ready other table token digest,
      t.agrees table digest later h,
    )
    perform-agrees (cleanup other) table digest later h = ground (
      arith,
      state-then_pure (cleanup_from other now) (λ _. done) s,
      peek-cleanup_from s t.ready other table now digest,
      live-live now later (peek s table digest) h,
      t.agrees table digest later h,
    )
    perform-agrees (revoke client_id) table digest later h = ground (
      arith,
      state-then_pure (revoke_client_tokens client_id) (λ _. done) s,
      peek-revoke_client_tokens s t.ready client_id table digest,
      live-unless later (is_issued_to client_id) (peek s table digest),
      live-unless later (is_issued_to client_id) (ledger table digest),
      t.agrees table digest later h,
    )

    perform-Tracks :
        (call : Call) (later : ℕ)
        → now ≤ later
        → Tracks later (perform now call s).1 (note sha256_hex now call ledger)
    perform-Tracks call later h = record {
      ready = perform-initialized call;
      agrees = λ table digest last k. perform-agrees call table digest last (omega arith);
    }

  Tracks-later :
      {now : ℕ} (later : ℕ) {s : MemoryTokenStorage} {ledger : Ledger}
      → now ≤ later
      → Tracks now s ledger
      → Tracks later s ledger
  Tracks-later later h t = record {
    ready = t.ready;
    agrees = λ table digest last k. t.agrees table digest last (omega arith);
  }

  answers-eq :
      (calls : List (ℕ × Call)) {now : ℕ} {s : MemoryTokenStorage} {ledger : Ledger}
      → Tracks now s ledger
      → Ascending now calls
      → answers calls s ≡ map ok (ledger_answers sha256_hex calls ledger)
  unfolding answers ledger_answers
  answers-eq [] t a = refl
  answers-eq ((later, call) ∷ calls) t (h, a) =
      let t' = Tracks-later later h t in
      ap₂ ◌∷◌ (perform-answer t' call)
        (answers-eq calls (perform-Tracks t' call later (le_refl later)) a)

abbrev pub fresh : MemoryTokenStorage
fresh = (initialize init).1

fresh-Tracks : Tracks 0 fresh blank
unfolding init initialize
fresh-Tracks = record {
  ready = refl;
  agrees = λ table digest later h. blank_agrees table digest later;
}
  where
    blank_agrees :
        (table : Table) (digest : String) (later : ℕ) → live later (peek fresh table digest) ≡ none
    blank_agrees access digest later = rw get-empty
    blank_agrees refresh digest later = rw get-empty

-- From a storage that has just been initialised, under a clock that never falls, every sequence of
-- stores, loads, deletions, clean-ups and revocations of both kinds of token returns with no
-- exception, and each load answers as the ledger does, which never drops a record that expired.
pub answers-ledger :
    (sha256_hex : String → String) (calls : List (ℕ × Call))
    → Ascending 0 calls
    → answers sha256_hex calls fresh ≡ map ok (ledger_answers sha256_hex calls blank)
answers-ledger sha256_hex calls a = answers-eq sha256_hex calls fresh-Tracks a
