-- ===== src/Storage/Database/Schema.antt =====
-- mcp_authflow/storage/postgres.py: `_REQUIRED_COLUMNS` and the comparison in `_verify_schema`.
use mcp_authflow.Prelude.{String, not, List, [], ◌∷◌, ◌++◌, ◌==◌, if◌then◌else◌, contains, select}

-- (table_name, column_name)
abbrev pub ColumnRows : Type 0
ColumnRows = List (String × String)

-- the columns of a table in the order of `sorted`
abbrev pub token_columns : List String
token_columns =
    "client_id" ∷ "created_at" ∷ "expires_at" ∷ "resource" ∷ "scopes" ∷ "token" ∷ "user_id" ∷ []

abbrev pub required_columns : List (String × List String)
required_columns = ("mcp_access_tokens", token_columns) ∷ ("mcp_refresh_tokens", token_columns) ∷ []

-- present.get(table): the columns of a table, none where it is not there
unfoldable pub columns_of : String → ColumnRows → List String
columns_of table [] = []
columns_of table ((name, column) ∷ rest) =
    let others = columns_of table rest in if name == table then column ∷ others else others

-- sorted(required - columns)
abbrev pub absent : List String → List String → List String
absent required columns = select (λ column. not (contains columns column)) required

-- if absent: missing[table] = absent
abbrev pub name_absent : String → List String → List (String × List String)
name_absent table [] = []
name_absent table (name ∷ names) = (table, name ∷ names) ∷ []

-- a table with no columns is not there, and is passed over
abbrev pub lacking : String → List String → List String → List (String × List String)
lacking table required [] = []
lacking table required (column ∷ columns) = name_absent table (absent required (column ∷ columns))

unfoldable pub table_missing : ColumnRows → String → List String → List (String × List String)
unfolding columns_of
table_missing rows table required = lacking table required (columns_of table rows)

unfoldable pub missing_from : List (String × List String) → ColumnRows → List (String × List String)
unfolding table_missing
missing_from [] rows = []
missing_from ((table, required) ∷ tables) rows =
    table_missing rows table required ++ missing_from tables rows

-- `missing` of `_verify_schema`
unfoldable pub missing_columns : ColumnRows → List (String × List String)
unfolding missing_from
missing_columns rows = missing_from required_columns rows
