-- ===== src/Stage/LoadingTable.antt =====
-- src/stage.cpp: the columns that the statistics of a table give, the statements that create the
-- loading table, and those that index the new table.
use ldp.Base.{
  ℕ, Bool, true, false, not, ◌&&◌, ◌||◌, List, [], ◌∷◌, ◌++◌, ◌==◌, ltb, if◌then◌else◌, gather,
  Bytes, codes, equal, to_string,
}
use ldp.CamelCase.{decode_camel_case}
use ldp.Columns.{ColumnType, id, varchar, TypeCounts, select_type, type_to_string}
use ldp.DbType.{DbSys, json_type, redshift_keys}
use ldp.Records.{FieldStats}
use ldp.Table.{ColumnSchema, TableSchema, DataSourceType, srs_marc_records, srs_error_records}
use ldp.Util.{loading_table_name}

-- The first slash becomes two underscores.
unfoldable pub expand_column_name : Bytes → Bytes
expand_column_name [] = []
expand_column_name (c ∷ s) =
    let rest = expand_column_name s in if c == b'/' then b'_' ∷ b'_' ∷ s else c ∷ rest

abbrev pub is_varchar : ColumnType → Bool
is_varchar varchar = true
is_varchar _ = false

abbrev pub is_id : ColumnType → Bool
is_id id = true
is_id _ = false

-- The fields that get no column.
unfoldable pub skips_field : DataSourceType → Bytes → Bool
skips_field srs_marc_records field = not (equal field (codes "id"))
skips_field srs_error_records field =
    not (equal field (codes "id")) && not (equal field (codes "description"))
skips_field _ field = false

-- `max((unsigned int) 1, n)`
abbrev column_length : ℕ → ℕ
column_length n = if ltb 1 n then n else 1

unfoldable pub make_column : Bytes → TypeCounts → ColumnSchema
make_column field counts = record {
  name = decode_camel_case field;
  type = select_type counts;
  length = column_length counts.max_length;
  source_name = field;
}

-- The loop of `stage_table_1` over the statistics: the columns that are pushed.
unfoldable pub make_columns : DataSourceType → FieldStats → List ColumnSchema
unfolding skips_field make_column
make_columns source_type [] = []
make_columns source_type ((field, counts) ∷ stats) =
    let rest = make_columns source_type stats in
    if skips_field source_type field then rest else make_column field counts ∷ rest

abbrev pub minimum_varchar_size : ℕ
minimum_varchar_size = 16

unfoldable pub min_varchar_size : ℕ → ℕ
min_varchar_size varchar_size =
    if ltb varchar_size minimum_varchar_size then minimum_varchar_size else varchar_size

unfoldable pub column_type_sql : Bool → ColumnSchema → Bytes
unfolding min_varchar_size
column_type_sql lz4 column =
    if is_varchar column.type
    then codes "VARCHAR("
      ++ to_string (min_varchar_size column.length)
      ++ codes ")"
      ++ (if lz4 && ltb 127 column.length then codes " COMPRESSION lz4" else [])
    else type_to_string column.type

-- What one column other than `id` adds to the statement.
unfoldable pub column_line : Bool → ColumnSchema → Bytes
unfolding expand_column_name column_type_sql
column_line lz4 column =
    codes "    \""
    ++ (expand_column_name column.name
        ++ (codes "\" " ++ (column_type_sql lz4 column ++ codes ",\n")))

unfoldable pub column_lines : Bool → List ColumnSchema → Bytes
unfolding column_line
column_lines lz4 [] = []
column_lines lz4 (column ∷ columns) =
    (if equal column.name (codes "id") then [] else column_line lz4 column)
    ++ column_lines lz4 columns

-- The statement up to the columns other than `id`, and from `data` on.
abbrev pub create_table_start : TableSchema → Bytes
create_table_start table =
    codes "CREATE TABLE " ++ loading_table_name table.name ++ codes " (\n    id UUID NOT NULL,\n"

abbrev pub create_table_end : DbSys → Bool → Bytes
create_table_end dbt lz4 =
    codes "    data "
    ++ json_type dbt
    ++ (if lz4 then codes " COMPRESSION lz4" else [])
    ++ codes "\n)"
    ++ redshift_keys dbt (codes "id") (codes "id")
    ++ codes ";"

unfoldable pub create_table_sql : TableSchema → DbSys → Bool → Bytes
unfolding column_lines
create_table_sql table dbt lz4 =
    create_table_start table ++ (column_lines lz4 table.columns ++ create_table_end dbt lz4)

abbrev pub grant_loading : Bytes → Bytes → Bytes
grant_loading loading_table user =
    codes "GRANT SELECT ON " ++ (loading_table ++ (codes " TO " ++ (user ++ codes ";")))

-- Each user of the list is granted the privilege twice.
unfoldable pub create_loading_table :
    Bytes → Bytes → TableSchema → DbSys → List Bytes → Bool → List Bytes
unfolding create_table_sql
create_loading_table ldp_user ldpconfig_user table dbt users lz4 =
    let loading_table = loading_table_name table.name in
    (codes "DROP TABLE IF EXISTS " ++ (loading_table ++ codes ";"))
    ∷ create_table_sql table dbt lz4
    ∷ grant_loading loading_table ldpconfig_user
    ∷ grant_loading loading_table ldp_user
    ∷ gather (λ u. grant_loading loading_table u ∷ grant_loading loading_table u ∷ []) users

-- `name (` ... `)` of an index.
abbrev primary_key_sql : TableSchema → Bytes → Bytes
primary_key_sql table end =
    codes "ALTER TABLE " ++ (table.name ++ (codes "\n    ADD PRIMARY KEY (id)" ++ end))

unfoldable pub is_indexed : Bool → ColumnSchema → Bool
is_indexed all_indexes column =
    is_id column.type
    || (all_indexes
        && not (equal column.name (codes "data"))
        && (not (is_varchar column.type) || ltb column.length 200))

unfoldable pub index_sql : TableSchema → ColumnSchema → Bytes
unfolding expand_column_name
index_sql table column =
    codes "CREATE INDEX ON "
    ++ (table.name
        ++ (codes " (\"" ++ (expand_column_name column.name ++ codes "\") WITH (fillfactor=100);")))

unfoldable pub column_indexes : TableSchema → Bool → ColumnSchema → List Bytes
unfolding is_indexed index_sql
column_indexes table all_indexes column =
    if equal column.name (codes "id")
    then primary_key_sql table (codes " WITH (fillfactor=100);") ∷ []
    else if is_indexed all_indexes column
    then index_sql table column ∷ []
    else []

-- The statements of `add_pkey_and_indexes`; the error of each is caught.
unfoldable pub add_pkey_and_indexes : TableSchema → Bool → List Bytes
unfolding column_indexes
add_pkey_and_indexes table all_indexes = by_columns table.columns
  where
    by_columns : List ColumnSchema → List Bytes
    by_columns [] = primary_key_sql table (codes ";") ∷ []
    by_columns (column ∷ columns) = gather (column_indexes table all_indexes) (column ∷ columns)
