-- ===== src/Table.antt =====
-- `column_schema` and `table_schema` of src/schema.h, and the SQL of src/initutil.cpp.
use ldp.Base.{ℕ, Bool, List, ◌++◌, Bytes, codes}
use ldp.Columns.{ColumnType}
use ldp.DbType.{DbSys, json_type, redshift_keys}

pub record ColumnSchema : Type 0 where
  pub name : Bytes
  pub type : ColumnType
  pub length : ℕ
  pub source_name : Bytes

pub data DataSourceType : Type 0 where
  direct_only notes notes_link notes_note_link rmb : DataSourceType
  srs_records srs_marc_records srs_error_records : DataSourceType

pub record TableSchema : Type 0 where
  pub skip : Bool
  pub anonymize : Bool
  pub name : Bytes
  pub source_spec : Bytes
  pub source_type : DataSourceType
  pub columns : List ColumnSchema
  pub module_name : Bytes
  pub direct_source_table : Bytes

abbrev pub create_main_table_sql : Bytes → DbSys → Bytes
create_main_table_sql table_name dbt =
    codes "CREATE TABLE "
    ++ (table_name
        ++ (codes " (\n    id UUID NOT NULL,\n    data "
            ++ (json_type dbt
                ++ (codes ",\n    PRIMARY KEY (id)\n)"
                    ++ (redshift_keys dbt (codes "id") (codes "id") ++ codes ";")))))

abbrev pub create_history_table_sql : Bytes → DbSys → Bytes
create_history_table_sql table_name dbt =
    codes "CREATE TABLE IF NOT EXISTS\n    history."
    ++ (table_name
        ++ (codes " (\n    id UUID NOT NULL,\n    data "
            ++ (json_type dbt
                ++ (codes " NOT NULL,\n    updated TIMESTAMP WITH TIME ZONE NOT NULL,\n"
                    ++ (codes "    CONSTRAINT\n        history_"
                        ++ (table_name
                            ++ (codes "_pkey\n        PRIMARY KEY (id, updated)\n)"
                                ++ (redshift_keys dbt (codes "id") (codes "id, updated")
                                    ++ codes ";"))))))))

abbrev pub grant_select_on_table_sql : Bytes → Bytes → Bytes
grant_select_on_table_sql table user =
    codes "GRANT SELECT ON " ++ (table ++ (codes "\n    TO " ++ (user ++ codes ";")))

abbrev pub add_table_to_catalog_sql : Bytes → Bytes
add_table_to_catalog_sql table =
    codes "INSERT INTO dbsystem.tables (table_name) VALUES\n    ('" ++ (table ++ codes "');")
