-- ===== src/Storage/Database.antt =====
-- The PostgreSQL database that mcp_authflow/storage/postgres.py sends its statements to through
-- asyncpg: a record of operations, one for each statement of the code, with what PostgreSQL documents
-- of them as laws.
pub mod Status
pub mod Schema
use mcp_authflow.Prelude.{
  ℕ, ◌+◌, ◌≡◌, String, Bool, true, false, ◌&&◌, Option, none, some, List, ◌++◌, ltb, ◌==◌,
  if◌then◌else◌,
}
use mcp_authflow.Prelude.Method.{Result, ok, raise, Method}
use mcp_authflow.Text.{Text, codes}
use mcp_authflow.Dict.{holds}
use mcp_authflow.Responses.{decimal}
use mcp_authflow.Storage.{UserId, StorageError}
use mcp_authflow.Storage.Memory.{Table, access, refresh}
use mcp_authflow.Storage.Memory.Contents.{same_table}

-- what an INSERT names; instants in microseconds
pub record Values : Type 0 where
  pub client_id : String
  pub scopes : String
  pub resource : Option String
  pub expires_at : ℕ
  pub user_id : Option UserId

-- what a SELECT gives
pub record Row : Type 0 where
  pub client_id : String
  pub scopes : Option String
  pub resource : Option String
  pub expires_at : ℕ
  pub created_at : Option ℕ
  pub user_id : Option UserId

-- `Failure` is what the driver raises, asyncpg.PostgresError or OSError; that a connection is lost when
-- the server has already run the statement is left out. `insert_row` takes the
-- reading of the server's clock, `rows` and `size` say what is in a table.
pub record Database : Type 1 where
  pub Db : Type 0
  pub Failure : Type 0
  pub create_pool : String → Method Db Failure (Unit {0})
  pub close_pool : Method Db Failure (Unit {0})
  pub columns : Method Db Failure (List (String × String))
  pub insert_row : ℕ → Table → String → Values → Method Db Failure (Unit {0})
  pub select_row : Table → String → Method Db Failure (Option Row)
  pub delete_row : Table → String → Method Db Failure (Unit {0})
  pub delete_expired : Table → ℕ → Method Db Failure Text
  pub count_rows : Table → Method Db Failure (Option ℕ)
  pub has_refresh_table : Method Db Failure Bool
  pub delete_client_both : String → Method Db Failure (Option ℕ)
  pub delete_client_access : String → Method Db Failure Text
  pub rows : Db → Table → String → Option Row
  pub size : Db → Table → ℕ

-- What a method of the storage raises: its own errors, the driver's, and ValueError or IndexError of a
-- conversion.
pub data PostgresError (Failure : Type 0) : Type 0 where
  storage_error : StorageError → PostgresError Failure
  driver_error : Failure → PostgresError Failure
  value_error index_error : PostgresError Failure

-- expires_at < $1
abbrev pub row_expired : ℕ → Row → Bool
row_expired now row = ltb row.expires_at now

-- client_id = $1
abbrev pub row_of_client : String → Row → Bool
row_of_client client_id row = row.client_id == client_id

abbrev pub created : ℕ → Option Row → Option ℕ
created at none = some at
created at (some row) = row.created_at

-- ON CONFLICT (token) DO UPDATE: `created_at`, which has a default of now(), stays as it was
abbrev pub written : ℕ → Values → Option Row → Row
written at values before = record {
  client_id = values.client_id;
  scopes = some values.scopes;
  resource = values.resource;
  expires_at = values.expires_at;
  created_at = created at before;
  user_id = values.user_id;
}

abbrev pub unless : (Row → Bool) → Option Row → Option Row
unless test row = if holds test row then none else row

-- "DELETE n", where n is the number of rows that went
abbrev pub IsStatus : Text → ℕ → Type 0
IsStatus status n = status ≡ codes "DELETE " ++ decimal n

module _ (database : Database) where
  open database use {
    Db, Failure, create_pool, columns, insert_row, select_row, delete_row, delete_expired,
    count_rows, has_refresh_table, delete_client_both, delete_client_access, rows, size,
  }

  -- a statement that fails changes nothing
  abbrev pub IsAtomic : {A : Type 0} → Method Db Failure A → Type 0
  IsAtomic statement = (d : Db) (e : Failure) → (statement d).0 ≡ raise e → (statement d).1 ≡ d

  -- a statement that only reads
  abbrev pub Reads : {A : Type 0} → Method Db Failure A → Type 0
  Reads statement = (d : Db) → (statement d).1 ≡ d

  pub record SqlLaws : Type 0 where
    pub insert-IsAtomic :
        (at : ℕ) (table : Table) (key : String) (values : Values)
        → IsAtomic (insert_row at table key values)
    pub delete-IsAtomic : (table : Table) (key : String) → IsAtomic (delete_row table key)
    pub expired-IsAtomic : (table : Table) (now : ℕ) → IsAtomic (delete_expired table now)
    pub both-IsAtomic : (client_id : String) → IsAtomic (delete_client_both client_id)
    pub access-IsAtomic : (client_id : String) → IsAtomic (delete_client_access client_id)
    pub select-Reads : (table : Table) (key : String) → Reads (select_row table key)
    pub count-Reads : (table : Table) → Reads (count_rows table)
    pub refresh-Reads : Reads has_refresh_table
    pub columns-Reads : Reads columns
    pub pool-Reads : (url : String) → Reads (create_pool url)
    pub insert_row_lem :
        (at : ℕ) (table : Table) (key : String) (values : Values) (d : Db)
        → (insert_row at table key values d).0 ≡ ok tt
        → (other : Table) (k : String)
        → rows (insert_row at table key values d).1 other k ≡ (
            if same_table table other && key == k
            then some (written at values (rows d table key))
            else rows d other k)
    pub select_row_lem :
        (table : Table) (key : String) (d : Db) (row : Option Row)
        → (select_row table key d).0 ≡ ok row
        → row ≡ rows d table key
    pub delete_row_lem :
        (table : Table) (key : String) (d : Db)
        → (delete_row table key d).0 ≡ ok tt
        → (other : Table) (k : String)
        → rows (delete_row table key d).1 other k
          ≡ (if same_table table other && key == k then none else rows d other k)
    pub delete_expired_lem :
        (table : Table) (now : ℕ) (d : Db) (status : Text)
        → (delete_expired table now d).0 ≡ ok status
        → (other : Table) (k : String)
        → rows (delete_expired table now d).1 other k ≡ (
            if same_table table other
            then unless (row_expired now) (rows d other k)
            else rows d other k)
    pub delete_expired_status :
        (table : Table) (now : ℕ) (d : Db) (status : Text)
        → (delete_expired table now d).0 ≡ ok status
        → let after = (delete_expired table now d).1 in
          ((n : ℕ) × IsStatus status n × (size after table + n ≡ size d table))
          × ((other : Table) → same_table table other ≡ false → size after other ≡ size d other)
    pub count_rows_lem :
        (table : Table) (d : Db) (n : Option ℕ)
        → (count_rows table d).0 ≡ ok n
        → n ≡ some (size d table)
    -- a table that does not exist has no rows
    pub has_refresh_table_lem :
        (d : Db)
        → (has_refresh_table d).0 ≡ ok false
        → (size d refresh ≡ 0) × ((k : String) → rows d refresh k ≡ none)
    pub delete_client_both_lem :
        (client_id : String) (d : Db) (n : Option ℕ)
        → (delete_client_both client_id d).0 ≡ ok n
        → let after = (delete_client_both client_id d).1 in
          ((table : Table) (k : String)
            → rows after table k ≡ unless (row_of_client client_id) (rows d table k))
          × ((m : ℕ) × (n ≡ some m)
              × (size after access + size after refresh + m ≡ size d access + size d refresh))
    pub delete_client_access_lem :
        (client_id : String) (d : Db) (status : Text)
        → (delete_client_access client_id d).0 ≡ ok status
        → let after = (delete_client_access client_id d).1 in
          ((k : String)
            → (rows after access k ≡ unless (row_of_client client_id) (rows d access k))
              × (rows after refresh k ≡ rows d refresh k))
          × (size after refresh ≡ size d refresh)
          × ((n : ℕ) × IsStatus status n × (size after access + n ≡ size d access))
