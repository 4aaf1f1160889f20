-- ===== src/Storage/Memory/Ledger.antt =====
-- A ledger of tokens, with no clean-up: for each table, the last record stored under each digest
-- until it is deleted or revoked. Whether a record has expired is asked when it is read.
use mcp_authflow.Prelude.{ℕ, String, ◌&&◌, Option, none, some, List, [], ◌∷◌, ◌==◌, if◌then◌else◌}
use mcp_authflow.Prelude.Time.{int_time}
use mcp_authflow.Dict.{holds}
use mcp_authflow.Storage.{UserId, hash_token, TokenData}
use mcp_authflow.Storage.Memory.{Table, is_issued_to}
use mcp_authflow.Storage.Memory.Contents.{same_table, live}

abbrev pub Ledger : Type 0
Ledger = Table → String → Option TokenData

pub data Call : Type 0 where
  store : Table → String → String → List String → ℕ → Option String → Option UserId → Call
  load : Table → String → Call
  delete : Table → String → Call
  cleanup : Table → Call
  revoke : String → Call

-- `done` for a call whose answer is `None` or a count of removed entries
pub data Answer : Type 0 where
  done : Answer
  found : Option TokenData → Answer

abbrev pub blank : Ledger
blank _ _ = none

module _ (sha256_hex : String → String) where
  abbrev pub note : ℕ → Call → Ledger → Ledger
  note now (store table token client_id scopes expires_at resource user_id) ledger other digest =
      if same_table table other && hash_token sha256_hex token == digest
      then some (record {
        token = token;
        client_id = client_id;
        scopes = scopes;
        resource = resource;
        expires_at = expires_at;
        created_at = int_time now;
        user_id = user_id;
      })
      else ledger other digest
  note now (load table token) ledger other digest = ledger other digest
  note now (delete table token) ledger other digest =
      if same_table table other && hash_token sha256_hex token == digest
      then none
      else ledger other digest
  note now (cleanup table) ledger other digest = ledger other digest
  note now (revoke client_id) ledger other digest =
      if holds (is_issued_to client_id) (ledger other digest) then none else ledger other digest

  abbrev pub answer : ℕ → Call → Ledger → Answer
  answer now (load table token) ledger =
      found (live now (ledger table (hash_token sha256_hex token)))
  answer now _ ledger = done

  unfoldable pub ledger_answers : List (ℕ × Call) → Ledger → List Answer
  ledger_answers [] ledger = []
  ledger_answers ((now, call) ∷ calls) ledger =
      answer now call ledger ∷ ledger_answers calls (note now call ledger)
