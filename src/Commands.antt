-- ===== src/Commands.antt =====
-- src/ldp.cpp: the commands that list the tables and the privileges, which are texts on the
-- standard output, and the question if a full update is due. The other commands are in
-- Server.
pub mod Privileges
use ldp.Base.{
  Bool, true, false, ◌&&◌, ◌||◌, List, [], ◌∷◌, ◌++◌, map, if◌then◌else◌, Bytes, codes, equal,
  Result, ok, runtime_error, ◌>>=◌,
}
use ldp.DbType.{DbSys, current_timestamp}
use ldp.DefaultSchema.{make_default_schema}
use ldp.Fields.{less}
use ldp.Init.{Connection, Rows, then_run}
use ldp.Table.{TableSchema}
use ldp.TextUtil.{getline_tokens}

abbrev pub compare_table : TableSchema → TableSchema → Bool
compare_table t1 t2 = less t1.direct_source_table t2.direct_source_table

-- `std::sort` by `compare_table`; equal elements keep their order here.
unfoldable pub insert_table : TableSchema → List TableSchema → List TableSchema
insert_table t [] = t ∷ []
insert_table t (u ∷ tables) =
    let rest = insert_table t tables in if compare_table u t then u ∷ rest else t ∷ u ∷ tables

unfoldable pub sort_tables : List TableSchema → List TableSchema
unfolding insert_table
sort_tables [] = []
sort_tables (t ∷ tables) = insert_table t (sort_tables tables)

unfoldable pub cmd_list_tables : List Bytes
unfolding sort_tables
cmd_list_tables =
    map (λ table. table.name ++ (codes "\t" ++ (table.direct_source_table ++ codes "\n")))
      (sort_tables make_default_schema)

unfoldable pub contains : Bytes → List Bytes → Bool
contains name [] = false
contains name (n ∷ names) = equal n name || contains name names

abbrev pub usage_line : Bytes → Bytes → Bytes → Bytes
usage_line okapi_tenant database_user schema_name =
    codes "GRANT USAGE ON SCHEMA "
    ++ okapi_tenant
    ++ codes "_"
    ++ schema_name
    ++ codes " TO "
    ++ database_user
    ++ codes ";\n"

abbrev pub select_line : Bytes → Bytes → Bytes → Bytes → Bytes
select_line okapi_tenant database_user schema_name table_name =
    codes "GRANT SELECT ON TABLE "
    ++ okapi_tenant
    ++ codes "_"
    ++ schema_name
    ++ codes "."
    ++ table_name
    ++ codes " TO "
    ++ database_user
    ++ codes ";\n"

-- The schema and the table of `direct_source_table`.
unfoldable pub split_dot : TableSchema → Result (Bytes × Bytes)
split_dot table = parts (getline_tokens b'.' table.direct_source_table [])
  where
    parts : List Bytes → Result (Bytes × Bytes)
    parts (schema_name ∷ table_name ∷ []) = ok (schema_name, table_name)
    parts _ =
        runtime_error (codes "listing privileges: parsing error: " ++ table.direct_source_table)

-- The loop, with the set of the schemas that have been granted: the lines.
unfoldable pub privilege_lines : Bytes → Bytes → List TableSchema → List Bytes → Result (List Bytes)
unfolding split_dot contains
privilege_lines okapi_tenant database_user [] schema_names = ok []
privilege_lines okapi_tenant database_user (table ∷ tables) schema_names = do
  (schema_name, table_name) ← split_dot table
  let seen = contains schema_name schema_names
  rest ←
      privilege_lines okapi_tenant database_user tables
        (if seen then schema_names else schema_name ∷ schema_names)
  ok (
      (if seen
        then []
        else (codes "-- " ++ (table.module_name ++ codes "\n"))
          ∷ usage_line okapi_tenant database_user schema_name
          ∷ [])
      ++ (select_line okapi_tenant database_user schema_name table_name ∷ rest))

-- For the tenant and the user of the first source; the code takes one for granted.
unfoldable pub cmd_list_privileges : Bytes → Bytes → Result (List Bytes)
unfolding privilege_lines sort_tables
cmd_list_privileges okapi_tenant database_user =
    privilege_lines okapi_tenant database_user (sort_tables make_default_schema) []

wrong_number : Bytes
wrong_number = codes "wrong number of rows in table: dbconfig.general"

unfoldable pub time_for_full_update : {S : Type 0} → Connection S → DbSys → S → S × Result Bool
unfolding then_run wrong_number
time_for_full_update conn dbt s =
    then_run
      (conn.exec s (
        codes "SELECT enable_full_updates,\n       (next_full_update <= "
        ++ current_timestamp dbt
        ++ codes ") AS update_now\n    FROM dbconfig.general;"))
      (λ s' rows. (s', answer rows))
  where
    answer : Rows → Result Bool
    answer ((full_update_enabled ∷ update_now ∷ fields) ∷ []) =
        ok (equal full_update_enabled (codes "t") && equal update_now (codes "t"))
    answer _ = runtime_error wrong_number
