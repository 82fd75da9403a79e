-- ===== src/Upgrades/Steps.antt =====
-- The statements of the upgrades of src/dbup1.cpp, and those that add a table. What `ulog_sql` and
-- `ulog_commit` write to the file of the upgrade is left out.
use ldp.Base.{List, [], ◌∷◌, ◌++◌, Bool, true, false, Bytes, codes}
use ldp.DbType.{DbSys, postgresql, redshift, unknown}
use ldp.Table.{create_main_table_sql, create_history_table_sql, grant_select_on_table_sql}

-- The users that the upgrades grant privileges to; the connection is a parameter of a run.
pub record DatabaseUpgradeOptions : Type 0 where
  pub ldp_user : Bytes
  pub ldpconfig_user : Bytes

-- A statement whose error ends the upgrade, or one whose error is caught and dropped.
pub data Step : Type 0 where
  run attempt : Bytes → Step

abbrev pub is_postgresql : DbSys → Bool
is_postgresql postgresql = true
is_postgresql redshift = false
is_postgresql unknown = false

abbrev pub add_table_to_catalog_sql_ldpsystem : Bytes → Bytes
add_table_to_catalog_sql_ldpsystem table =
    codes "INSERT INTO ldpsystem.tables (table_name) VALUES\n    ('" ++ table ++ codes "');"

abbrev pub add_table_to_catalog_sql_dbsystem : Bytes → Bytes
add_table_to_catalog_sql_dbsystem table =
    codes "INSERT INTO dbsystem.tables (table_name) VALUES\n    ('" ++ table ++ codes "');"

-- The statements before the one that adds the table to the catalog, the same in both functions.
abbrev pub create_and_grant : DatabaseUpgradeOptions → DbSys → Bytes → List Step
create_and_grant opt dbt table =
    run (create_main_table_sql table dbt)
    ∷ run (grant_select_on_table_sql table opt.ldp_user)
    ∷ run (grant_select_on_table_sql table opt.ldpconfig_user)
    ∷ run (create_history_table_sql table dbt)
    ∷ run (grant_select_on_table_sql (codes "history." ++ table) opt.ldp_user)
    ∷ run (grant_select_on_table_sql (codes "history." ++ table) opt.ldpconfig_user)
    ∷ []

abbrev pub upgrade_add_new_table_ldpsystem : DatabaseUpgradeOptions → DbSys → Bytes → List Step
upgrade_add_new_table_ldpsystem opt dbt table =
    create_and_grant opt dbt table ++ run (add_table_to_catalog_sql_ldpsystem table) ∷ []

abbrev pub upgrade_add_new_table_dbsystem : DatabaseUpgradeOptions → DbSys → Bytes → List Step
upgrade_add_new_table_dbsystem opt dbt table =
    create_and_grant opt dbt table ++ run (add_table_to_catalog_sql_dbsystem table) ∷ []
