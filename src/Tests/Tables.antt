-- ===== src/Tests/Tables.antt =====
-- A database of two tables in memory, which refuses an empty client, and the laws that it keeps.
use mcp_authflow.Prelude.{
  ℕ, ◌+◌, ◌≡◌, refl, String, Bool, true, false, ◌&&◌, none, some, ◌++◌, length, ◌==◌, if◌then◌else◌,
  arith, map, ap, sym,
}
use mcp_authflow.Prelude.Method.{Result, ok, raise, Method}
use mcp_authflow.Dict
use mcp_authflow.Dict.{
  Dict, dict_laws, holds, get-remove, get-put, get-remove_where, get-empty, size-remove_where,
}
use mcp_authflow.Text.{Text, codes}
use mcp_authflow.Responses.{decimal}
use mcp_authflow.Storage.Database.{
  Values, Row, Database, SqlLaws, row_expired, row_of_client, written, unless,
}
use mcp_authflow.Storage.Database.Schema.{ColumnRows, token_columns}
use mcp_authflow.Storage.Memory.{Table, access, refresh}
use mcp_authflow.Storage.Memory.Contents.{same_table}

pub record Tables : Type 0 where
  pub access_rows : Dict Row
  pub refresh_rows : Dict Row

abbrev pub rows_of : Tables → Table → Dict Row
rows_of d access = d.access_rows
rows_of d refresh = d.refresh_rows

abbrev pub with_rows : Tables → Table → Dict Row → Tables
with_rows d access rows = record d { access_rows = rows }
with_rows d refresh rows = record d { refresh_rows = rows }

abbrev pub DbMethod : Type 0 → Type 0
DbMethod A = Method Tables (Unit {0}) A

abbrev pub insert : ℕ → Table → String → Values → DbMethod (Unit {0})
insert at table key values d = if values.client_id == "" then (raise tt, d) else (
  ok tt,
  with_rows d table
      (Dict.put (rows_of d table) key (written at values (Dict.get (rows_of d table) key))),
)

abbrev pub status : ℕ → Text
status n = codes "DELETE " ++ decimal n

-- DELETE FROM table WHERE test
abbrev pub delete_where : Table → (Row → Bool) → Tables → ℕ × Tables
delete_where table test d =
    let keys = Dict.keys_where test (rows_of d table) in
    (length keys, with_rows d table (Dict.remove_all (rows_of d table) keys))

abbrev pub catalogue : ColumnRows
catalogue =
    map (λ column. ("mcp_access_tokens", column)) token_columns
    ++ map (λ column. ("mcp_refresh_tokens", column)) token_columns

abbrev pub tables : Database
tables = record {
  Db = Tables;
  Failure = Unit {0};
  create_pool = λ url d. (ok tt, d);
  close_pool = λ d. (ok tt, d);
  columns = λ d. (ok catalogue, d);
  insert_row = insert;
  select_row = λ table key d. (ok (Dict.get (rows_of d table) key), d);
  delete_row = λ table key d. (ok tt, with_rows d table (Dict.remove (rows_of d table) key));
  delete_expired = λ table now d.
      let (n, after) = delete_where table (row_expired now) d in (ok (status n), after);
  count_rows = λ table d. (ok (some (Dict.size (rows_of d table))), d);
  has_refresh_table = λ d. (ok true, d);
  delete_client_both = λ client_id d.
      let (n, between) = delete_where access (row_of_client client_id) d in
      let (m, after) = delete_where refresh (row_of_client client_id) between in
      (ok (some (n + m)), after);
  delete_client_access = λ client_id d.
      let (n, after) = delete_where access (row_of_client client_id) d in (ok (status n), after);
  rows = λ d table key. Dict.get (rows_of d table) key;
  size = λ d table. Dict.size (rows_of d table);
}

get-delete_where :
    (table other : Table) (test : Row → Bool) (d : Tables) (key : String)
    → Dict.get (rows_of (delete_where table test d).1 other) key ≡ (
        if same_table table other
        then unless test (Dict.get (rows_of d other) key)
        else Dict.get (rows_of d other) key)
get-delete_where access access test d key = get-remove_where d.access_rows test key
get-delete_where refresh refresh test d key = get-remove_where d.refresh_rows test key
get-delete_where access refresh test d key = refl
get-delete_where refresh access test d key = refl

size-delete_where :
    (table : Table) (test : Row → Bool) (d : Tables)
    → Dict.size (rows_of (delete_where table test d).1 table) + (delete_where table test d).0
      ≡ Dict.size (rows_of d table)
size-delete_where access test d = size-remove_where d.access_rows test
size-delete_where refresh test d = size-remove_where d.refresh_rows test

get-delete_row :
    (table other : Table) (key k : String) (d : Tables)
    → Dict.get (rows_of (with_rows d table (Dict.remove (rows_of d table) key)) other) k
      ≡ (if same_table table other && key == k then none else Dict.get (rows_of d other) k)
get-delete_row access access key k d = get-remove d.access_rows key k
get-delete_row refresh refresh key k d = get-remove d.refresh_rows key k
get-delete_row access refresh key k d = refl
get-delete_row refresh access key k d = refl

get-insert :
    (table other : Table) (key k : String) (row : Row) (d : Tables)
    → Dict.get (rows_of (with_rows d table (Dict.put (rows_of d table) key row)) other) k
      ≡ (if same_table table other && key == k then some row else Dict.get (rows_of d other) k)
get-insert access access key k row d = get-put d.access_rows key k row
get-insert refresh refresh key k row d = get-put d.refresh_rows key k row
get-insert access refresh key k row d = refl
get-insert refresh access key k row d = refl

size-other :
    (table other : Table) (test : Row → Bool) (d : Tables)
    → same_table table other ≡ false
    → Dict.size (rows_of (delete_where table test d).1 other) ≡ Dict.size (rows_of d other)
size-other access access test d h = ground (arith, h)
size-other refresh refresh test d h = ground (arith, h)
size-other access refresh test d h = refl
size-other refresh access test d h = refl

insert_row_law :
    (at : ℕ) (table : Table) (key : String) (values : Values) (d : Tables)
    → (insert at table key values d).0 ≡ ok tt
    → (other : Table) (k : String)
    → Dict.get (rows_of (insert at table key values d).1 other) k ≡ (
        if same_table table other && key == k
        then some (written at values (Dict.get (rows_of d table) key))
        else Dict.get (rows_of d other) k)
insert_row_law at table key values d h other k =
    ground (
      arith,
      h,
      get-insert table other key k (written at values (Dict.get (rows_of d table) key)) d,
    )

insert_atomic :
    (at : ℕ) (table : Table) (key : String) (values : Values) (d : Tables) (e : Unit {0})
    → (insert at table key values d).0 ≡ raise e
    → (insert at table key values d).1 ≡ d
insert_atomic at table key values d e h = ground (arith, h)

some-ok : {A : Type 0} {x y : A} → ◌≡◌ {A = Result (Unit {0}) A} (ok x) (ok y) → x ≡ y
some-ok {A} {x} h = ap payload h
  where
    payload : Result (Unit {0}) A → A
    payload (ok a) = a
    payload (raise e) = x

no_false : true ≡ false → ⊥
no_false h = ground (arith, h)

both_gone :
    (client_id : String) (d : Tables) (table : Table) (k : String)
    → Dict.get (rows_of (tables.delete_client_both client_id d).1 table) k
      ≡ unless (row_of_client client_id) (Dict.get (rows_of d table) k)
both_gone client_id d access k = get-remove_where d.access_rows (row_of_client client_id) k
both_gone client_id d refresh k = get-remove_where d.refresh_rows (row_of_client client_id) k

both_counted :
    (client_id : String) (d : Tables)
    → let after = (tables.delete_client_both client_id d).1 in
      Dict.size after.access_rows
        + Dict.size after.refresh_rows
        + (length (Dict.keys_where (row_of_client client_id) d.access_rows)
            + length (Dict.keys_where (row_of_client client_id) d.refresh_rows))
      ≡ Dict.size d.access_rows + Dict.size d.refresh_rows
both_counted client_id d = omega (
  arith,
  size-remove_where d.access_rows (row_of_client client_id),
  size-remove_where d.refresh_rows (row_of_client client_id),
)

pub tables_laws : SqlLaws tables
tables_laws = record {
  insert-IsAtomic = insert_atomic;
  delete-IsAtomic = λ table key d e h. ground (arith, h);
  expired-IsAtomic = λ table now d e h. ground (arith, h);
  both-IsAtomic = λ client_id d e h. ground (arith, h);
  access-IsAtomic = λ client_id d e h. ground (arith, h);
  select-Reads = λ table key d. refl;
  count-Reads = λ table d. refl;
  refresh-Reads = λ d. refl;
  columns-Reads = λ d. refl;
  pool-Reads = λ url d. refl;
  insert_row_lem = insert_row_law;
  select_row_lem = λ table key d row h. sym (some-ok h);
  delete_row_lem = λ table key d h other k. get-delete_row table other key k d;
  delete_expired_lem =
      λ table now d s h other k. get-delete_where table other (row_expired now) d k;
  delete_expired_status = λ table now d s h. (
    (_, sym (some-ok h), size-delete_where table (row_expired now) d),
    λ other k. size-other table other (row_expired now) d k,
  );
  count_rows_lem = λ table d n h. sym (some-ok h);
  has_refresh_table_lem = λ d h. absurd (no_false (some-ok h));
  delete_client_both_lem =
      λ client_id d n h. (both_gone client_id d, (_, sym (some-ok h), both_counted client_id d));
  delete_client_access_lem = λ client_id d s h. (
    λ k. (get-remove_where d.access_rows (row_of_client client_id) k, refl),
    refl,
    (_, sym (some-ok h), size-remove_where d.access_rows (row_of_client client_id)),
  );
}
