-- ===== src/Init/Statements.antt =====
-- `init_database_all` of src/init.cpp: the statements that initialize a database, in their order.
use ldp.Base.{ℕ, List, [], ◌∷◌, ◌++◌, map, gather, Bytes, codes, to_string}
use ldp.DbType.{DbSys, current_timestamp, redshift_keys}
use ldp.Table.{
  TableSchema, create_main_table_sql, create_history_table_sql, grant_select_on_table_sql,
  add_table_to_catalog_sql,
}
use ldp.Util.{comment_sql}

-- Schema `dbsystem` before the tables of the catalog.
dbsystem_main : Bytes → Bytes → ℕ → List Bytes
dbsystem_main ldp_user ldpconfig_user version =
    (codes "BEGIN;")
    ∷ (codes "CREATE SCHEMA dbsystem;")
    ∷ (codes "GRANT USAGE ON SCHEMA dbsystem TO " ++ ldp_user ++ codes ";")
    ∷ (codes "GRANT USAGE ON SCHEMA dbsystem TO " ++ ldpconfig_user ++ codes ";")
    ∷ (codes
        "CREATE TABLE dbsystem.main (\n    database_version BIGINT NOT NULL,\n    anonymize BOOLEAN NOT NULL DEFAULT TRUE\n);")
    ∷ (codes "INSERT INTO dbsystem.main (database_version) VALUES ("
        ++ to_string version
        ++ codes ");")
    ∷ (codes
        "CREATE TABLE dbsystem.log (\n    log_time TIMESTAMP WITH TIME ZONE NOT NULL,\n    pid BIGINT NOT NULL,\n    level VARCHAR(7) NOT NULL DEFAULT '',\n    type VARCHAR(63) NOT NULL,\n    table_name VARCHAR(63) NOT NULL,\n    message VARCHAR(65535) NOT NULL,\n    elapsed_time REAL\n);")
    ∷ (codes
        "CREATE TABLE dbsystem.tables (\n    table_name VARCHAR(63) NOT NULL,\n    updated TIMESTAMP WITH TIME ZONE,\n    row_count BIGINT,\n    history_row_count BIGINT,\n    documentation VARCHAR(65535),\n    documentation_url VARCHAR(65535)\n);")
    ∷ []

-- Behind the catalog; `keys` is the text of `redshift_keys`.
dbsystem_rest : Bytes → Bytes → Bytes → List Bytes
dbsystem_rest ldp_user ldpconfig_user keys =
    (codes
        "CREATE TABLE dbsystem.suggested_foreign_keys (\n    enable_constraint BOOLEAN NOT NULL,\n    referencing_table VARCHAR(63) NOT NULL,\n    referencing_column VARCHAR(63) NOT NULL,\n    referenced_table VARCHAR(63) NOT NULL,\n    referenced_column VARCHAR(63) NOT NULL\n)"
      ++ keys
      ++ codes ";")
    ∷ (codes
          "CREATE TABLE dbsystem.foreign_key_constraints (\n    referencing_table VARCHAR(63) NOT NULL,\n    referencing_column VARCHAR(63) NOT NULL,\n    referenced_table VARCHAR(63) NOT NULL,\n    referenced_column VARCHAR(63) NOT NULL,\n    constraint_name VARCHAR(63) NOT NULL,\n        PRIMARY KEY (referencing_table, referencing_column)\n)"
        ++ keys
        ++ codes ";")
    ∷ (codes "GRANT SELECT ON dbsystem.log TO " ++ ldp_user ++ codes ";")
    ∷ (codes "GRANT SELECT ON dbsystem.log TO " ++ ldpconfig_user ++ codes ";")
    ∷ (codes "GRANT SELECT ON dbsystem.main TO " ++ ldp_user ++ codes ";")
    ∷ (codes "GRANT SELECT ON dbsystem.main TO " ++ ldpconfig_user ++ codes ";")
    ∷ (codes "GRANT SELECT ON dbsystem.foreign_key_constraints TO " ++ ldp_user ++ codes ";")
    ∷ (codes "GRANT SELECT ON dbsystem.foreign_key_constraints TO " ++ ldpconfig_user ++ codes ";")
    ∷ (codes "GRANT SELECT ON dbsystem.tables TO " ++ ldp_user ++ codes ";")
    ∷ (codes "GRANT SELECT ON dbsystem.tables TO " ++ ldpconfig_user ++ codes ";")
    ∷ []

-- Schema `dbconfig`.
dbconfig_all : Bytes → Bytes → DbSys → List Bytes
dbconfig_all ldp_user ldpconfig_user dbt =
    (codes "CREATE SCHEMA dbconfig;")
    ∷ (codes "GRANT USAGE ON SCHEMA dbconfig TO " ++ ldp_user ++ codes ";")
    ∷ (codes "GRANT USAGE ON SCHEMA dbconfig TO " ++ ldpconfig_user ++ codes ";")
    ∷ (codes
        "CREATE TABLE dbconfig.general (\n    update_all_tables BOOLEAN NOT NULL DEFAULT FALSE,\n    enable_full_updates BOOLEAN NOT NULL,\n    next_full_update TIMESTAMP WITH TIME ZONE NOT NULL,\n    detect_foreign_keys BOOLEAN NOT NULL DEFAULT FALSE,\n    enable_foreign_key_warnings BOOLEAN NOT NULL DEFAULT FALSE,\n    force_foreign_key_constraints BOOLEAN NOT NULL DEFAULT FALSE\n);")
    ∷ (codes
          "INSERT INTO dbconfig.general\n    (enable_full_updates, next_full_update)\n    VALUES\n    (TRUE, "
        ++ current_timestamp dbt
        ++ codes ");")
    ∷ (codes
        "CREATE TABLE dbconfig.update_tables (\n    enable_update BOOLEAN NOT NULL,\n    table_name VARCHAR(63) NOT NULL,\n    tenant_id SMALLINT NOT NULL\n);")
    ∷ (codes
        "CREATE TABLE dbconfig.foreign_keys (\n    enable_constraint BOOLEAN NOT NULL,\n    referencing_table VARCHAR(63) NOT NULL,\n    referencing_column VARCHAR(63) NOT NULL,\n    referenced_table VARCHAR(63) NOT NULL,\n    referenced_column VARCHAR(63) NOT NULL\n);")
    ∷ (codes "GRANT SELECT ON ALL TABLES IN SCHEMA dbconfig TO " ++ ldp_user ++ codes ";")
    ∷ (codes "GRANT SELECT ON ALL TABLES IN SCHEMA dbconfig TO " ++ ldpconfig_user ++ codes ";")
    ∷ (codes "GRANT UPDATE ON dbconfig.general TO " ++ ldpconfig_user ++ codes ";")
    ∷ []

-- Schema `history`.
history_schema : Bytes → Bytes → List Bytes
history_schema ldp_user ldpconfig_user =
    (codes "CREATE SCHEMA history;")
    ∷ (codes "GRANT USAGE ON SCHEMA history TO " ++ ldp_user ++ codes ";")
    ∷ (codes "GRANT USAGE ON SCHEMA history TO " ++ ldpconfig_user ++ codes ";")
    ∷ []

history_table : Bytes → Bytes → DbSys → TableSchema → List Bytes
history_table ldp_user ldpconfig_user dbt table =
    create_history_table_sql table.name dbt
    ∷ grant_select_on_table_sql (codes "history." ++ table.name) ldp_user
    ∷ grant_select_on_table_sql (codes "history." ++ table.name) ldpconfig_user
    ∷ []

-- Schema `public`.
public_table : Bytes → Bytes → DbSys → TableSchema → List Bytes
public_table ldp_user ldpconfig_user dbt table =
    create_main_table_sql table.name dbt
    ∷ comment_sql table.name table.module_name
    ∷ grant_select_on_table_sql table.name ldp_user
    ∷ grant_select_on_table_sql table.name ldpconfig_user
    ∷ []

-- Schema `local`.
local_schema : Bytes → Bytes → List Bytes
local_schema ldp_user ldpconfig_user =
    codes "CREATE SCHEMA local;"
    ∷ (codes "GRANT CREATE, USAGE ON SCHEMA local TO " ++ ldp_user ++ codes ";")
    ∷ (codes "GRANT USAGE ON SCHEMA local TO " ++ ldpconfig_user ++ codes ";")
    ∷ codes "COMMIT;"
    ∷ []

unfoldable pub init_statements : List TableSchema → DbSys → Bytes → Bytes → ℕ → List Bytes
unfolding dbsystem_main dbsystem_rest dbconfig_all history_schema history_table public_table
    local_schema
init_statements tables dbt ldp_user ldpconfig_user version =
    dbsystem_main ldp_user ldpconfig_user version
    ++ map (λ t. add_table_to_catalog_sql t.name) tables
    ++ dbsystem_rest ldp_user ldpconfig_user (
        redshift_keys dbt (codes "referencing_table")
          (codes "referencing_table, referencing_column"))
    ++ dbconfig_all ldp_user ldpconfig_user dbt
    ++ history_schema ldp_user ldpconfig_user
    ++ gather (history_table ldp_user ldpconfig_user dbt) tables
    ++ gather (public_table ldp_user ldpconfig_user dbt) tables
    ++ local_schema ldp_user ldpconfig_user
