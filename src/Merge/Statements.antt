-- ===== src/Merge/Statements.antt =====
-- The statements of src/merge.cpp, as they are sent.
use ldp.Base.{List, [], ◌∷◌, ◌++◌, if◌then◌else◌, Bytes, codes}
use ldp.DbType.{DbSys, current_timestamp}
use ldp.Merge.{writes_latest}
use ldp.Table.{TableSchema}
use ldp.Util.{loading_table_name, latest_history_table_name, history_table_name}

abbrev pub create_latest_sql : TableSchema → Bytes
create_latest_sql table =
    let history_table = history_table_name table.name in
    codes "CREATE TEMP TABLE\n    "
    ++ (latest_history_table_name table.name
        ++ (codes "\n    AS\nSELECT id, data\n    FROM "
            ++ (history_table
                ++ (codes " AS h1\n    WHERE NOT EXISTS\n      ( SELECT 1\n            FROM "
                    ++ (history_table
                        ++ codes
                            " AS h2\n            WHERE h1.id = h2.id AND\n                  h1.updated < h2.updated\n      );")))))

abbrev pub vacuum_latest_sql : TableSchema → Bytes
vacuum_latest_sql table =
    codes "VACUUM ANALYZE " ++ (latest_history_table_name table.name ++ codes ";")

unfoldable pub create_latest_history_table : TableSchema → List Bytes
create_latest_history_table table =
    if writes_latest table.source_type
    then create_latest_sql table ∷ vacuum_latest_sql table ∷ []
    else []

unfoldable pub drop_latest_history_table : TableSchema → List Bytes
drop_latest_history_table table =
    if writes_latest table.source_type
    then (codes "DROP TABLE IF EXISTS " ++ (latest_history_table_name table.name ++ codes ";")) ∷ []
    else []

unfoldable pub merge_table_sql : TableSchema → DbSys → Bytes
merge_table_sql table dbt =
    codes "INSERT INTO "
    ++ (history_table_name table.name
        ++ (codes "\n    (id, data, updated)\nSELECT s.id,\n       s.data,\n       "
            ++ (current_timestamp dbt
                ++ (codes "\n    FROM "
                    ++ (loading_table_name table.name
                        ++ (codes " AS s\n        LEFT JOIN "
                            ++ (latest_history_table_name table.name
                                ++ codes
                                    "\n            AS h\n            ON s.id = h.id\n    WHERE s.data IS NOT NULL AND\n          ( h.id IS NULL OR\n            (s.data)::varchar <> (h.data)::varchar );")))))))

unfoldable pub drop_table_sql : Bytes → Bytes
drop_table_sql table_name = codes "DROP TABLE IF EXISTS " ++ (table_name ++ codes ";")

unfoldable pub place_table_sql : TableSchema → Bytes
place_table_sql table =
    codes "ALTER TABLE "
    ++ (loading_table_name table.name ++ (codes "\n    RENAME TO " ++ (table.name ++ codes ";")))
