-- ===== src/Storage/Postgres/Drift.antt =====
-- `_verify_schema` against the rows of the catalogue read as a relation.
use mcp_authflow.Prelude.{
  ◌≡◌, refl, String, Bool, true, false, not, ◌&&◌, ◌||◌, List, [], ◌∷◌, ◌++◌, all, ◌==◌,
  if◌then◌else◌, arith, contains, ap, ap₂, ◌∙◌,
}
use mcp_authflow.Prelude.Method.{ok, raise, bind-ok, bind-raise}
use mcp_authflow.Storage.{schema_drift_error}
use mcp_authflow.Storage.Database.{Database, storage_error, driver_error}
use mcp_authflow.Storage.Database.Schema.{
  ColumnRows, required_columns, columns_of, absent, name_absent, lacking, table_missing,
  missing_from, missing_columns,
}
use mcp_authflow.Storage.Postgres.{
  PostgresTokenStorage, statement, require_pool, check_missing, verify_schema,
}

-- the table has a row in the catalogue
abbrev pub has_table : ColumnRows → String → Bool
has_table [] table = false
has_table ((name, column) ∷ rows) table = (name == table) || has_table rows table

-- the table has the column
abbrev pub has_column : ColumnRows → String → String → Bool
has_column [] table wanted = false
has_column ((name, column) ∷ rows) table wanted =
    ((name == table) && (column == wanted)) || has_column rows table wanted

-- no table, or one with all of the columns
abbrev pub complete : ColumnRows → String × List String → Bool
complete rows (table, required) = not (has_table rows table) || all (has_column rows table) required

-- each table of `_REQUIRED_COLUMNS` is complete
abbrev pub up_to_date : ColumnRows → Bool
up_to_date rows = all (complete rows) required_columns

abbrev is_nil {ℓ} : {A : Type ℓ} → List A → Bool
is_nil [] = true
is_nil (x ∷ xs) = false

nil-columns_of :
    (table : String) (rows : ColumnRows)
    → is_nil (columns_of table rows) ≡ not (has_table rows table)
unfolding columns_of
nil-columns_of table [] = refl
nil-columns_of table ((name, column) ∷ rows) = ground (arith, nil-columns_of table rows)

contains-columns_of :
    (table wanted : String) (rows : ColumnRows)
    → contains (columns_of table rows) wanted ≡ has_column rows table wanted
unfolding columns_of
contains-columns_of table wanted [] = refl
contains-columns_of table wanted ((name, column) ∷ rows) =
    ground (arith, contains-columns_of table wanted rows)

nil-absent :
    (table : String) (rows : ColumnRows) (required : List String)
    → is_nil (absent required (columns_of table rows)) ≡ all (has_column rows table) required
nil-absent table rows [] = refl
nil-absent table rows (wanted ∷ required) =
    ground (arith, contains-columns_of table wanted rows, nil-absent table rows required)

nil-lacking :
    (table : String) (required columns : List String)
    → is_nil (lacking table required columns) ≡ (is_nil columns || is_nil (absent required columns))
nil-lacking table required [] = refl
nil-lacking table required (column ∷ columns) = nil-name_absent (absent required (column ∷ columns))
  where
    nil-name_absent : (names : List String) → is_nil (name_absent table names) ≡ is_nil names
    nil-name_absent [] = refl
    nil-name_absent (name ∷ names) = refl

nil-table_missing :
    (rows : ColumnRows) (table : String) (required : List String)
    → is_nil (table_missing rows table required) ≡ complete rows (table, required)
unfolding table_missing
nil-table_missing rows table required =
    nil-lacking table required (columns_of table rows)
    ∙ ap₂ ◌||◌ (nil-columns_of table rows) (nil-absent table rows required)

nil-append {ℓ} : {A : Type ℓ} (xs ys : List A) → is_nil (xs ++ ys) ≡ (is_nil xs && is_nil ys)
nil-append [] ys = refl
nil-append (x ∷ xs) ys = refl

nil-missing_from :
    (tables : List (String × List String)) (rows : ColumnRows)
    → is_nil (missing_from tables rows) ≡ all (complete rows) tables
unfolding missing_from
nil-missing_from [] rows = refl
nil-missing_from ((table, required) ∷ tables) rows = ground (
  arith,
  nil-append (table_missing rows table required) (missing_from tables rows),
  nil-table_missing rows table required,
  nil-missing_from tables rows,
)

nil-missing_columns : (rows : ColumnRows) → is_nil (missing_columns rows) ≡ up_to_date rows
unfolding missing_columns
nil-missing_columns rows = nil-missing_from required_columns rows

module _ (database : Database) where
  open database use {Db, Failure, create_pool, columns}

  check_missing-nil :
      (missing : List (String × List String)) (s : PostgresTokenStorage Db)
      → check_missing database missing s
        ≡ (if is_nil missing then ok tt else raise (storage_error schema_drift_error), s)
  check_missing-nil [] s = refl
  check_missing-nil (_ ∷ _) s = refl

  -- the object once its pool is set
  abbrev pub opened : PostgresTokenStorage Db → PostgresTokenStorage Db
  opened s = record s { has_pool = true }

  -- The catalogue is read on the open pool, and the check passes where it is up to date.
  pub verify_schema-up_to_date :
      (s : PostgresTokenStorage Db) (rows : ColumnRows)
      → statement database columns (opened s) ≡ (ok rows, opened s)
      → verify_schema database (opened s)
        ≡ (if up_to_date rows then ok tt else raise (storage_error schema_drift_error), opened s)
  unfolding verify_schema require_pool
  verify_schema-up_to_date s rows h =
      bind-ok (statement database columns) (λ found. check_missing database (missing_columns found))
        h
      ∙ check_missing-nil (missing_columns rows) (opened s)
      ∙ ap (λ b. (if b then ok tt else raise (storage_error schema_drift_error), opened s))
          (nil-missing_columns rows)

  -- Where the catalogue cannot be read, the error of the driver is raised.
  pub verify_schema-raises :
      (s : PostgresTokenStorage Db) (e : Failure)
      → statement database columns (opened s) ≡ (raise (driver_error e), opened s)
      → verify_schema database (opened s) ≡ (raise (driver_error e), opened s)
  unfolding verify_schema require_pool
  verify_schema-raises s e h =
      bind-raise (statement database columns)
        (λ found. check_missing database (missing_columns found)) h
