-- ===== src/Upgrades/Keys.antt =====
-- src/dbup1.cpp: the upgrades to versions 10 to 17.
use ldp.Base.{List, [], ◌∷◌, ◌++◌, if◌then◌else◌, Bytes, codes, equal, gather}
use ldp.DbType.{DbSys, redshift_keys, type_string}
use ldp.Upgrades.Steps.{
  DatabaseUpgradeOptions, Step, run, is_postgresql, upgrade_add_new_table_ldpsystem,
}
use ldp.Upgrades.TableNames.{table_array}

unfoldable pub upgrade_10_table_drop : DatabaseUpgradeOptions → DbSys → Bytes → List Step
upgrade_10_table_drop opt dbt table =
    run (
      codes "ALTER TABLE history."
      ++ table
      ++ codes "\n    DROP CONSTRAINT history_"
      ++ table
      ++ codes "_id_updated_key;")
    ∷ []

unfoldable pub upgrade_10_table_alter : DatabaseUpgradeOptions → DbSys → Bytes → List Step
upgrade_10_table_alter opt dbt table =
    run (codes "ALTER TABLE history." ++ table ++ codes "\n    ALTER COLUMN id TYPE VARCHAR(36);")
    ∷ []

unfoldable pub upgrade_10_table_add : DatabaseUpgradeOptions → DbSys → Bytes → List Step
upgrade_10_table_add opt dbt table =
    run (
      codes "ALTER TABLE history."
      ++ table
      ++ codes "\n    ADD CONSTRAINT history_"
      ++ table
      ++ codes "_id_updated_key\n    UNIQUE (id, updated);")
    ∷ []

unfoldable pub database_upgrade_10 : DatabaseUpgradeOptions → DbSys → List Step
unfolding upgrade_10_table_drop upgrade_10_table_alter upgrade_10_table_add table_array
database_upgrade_10 opt dbt =
    gather (upgrade_10_table_drop opt dbt) table_array
    ++ (gather (upgrade_10_table_alter opt dbt) table_array
        ++ (gather (upgrade_10_table_add opt dbt) table_array
            ++ (run (codes "UPDATE ldpsystem.main SET ldp_schema_version = 10;") ∷ [])))

unfoldable pub upgrade_11_table : DatabaseUpgradeOptions → DbSys → Bytes → List Step
upgrade_11_table opt dbt table =
    (if equal (type_string dbt) (codes "Redshift")
      then run (codes "ALTER TABLE history." ++ table ++ codes "\n    ALTER DISTKEY id;")
        ∷ run (
            codes "ALTER TABLE history."
            ++ table
            ++ codes "\n    ALTER COMPOUND SORTKEY (id, updated);")
        ∷ []
      else [])
    ++ (run (codes "ALTER TABLE history." ++ table ++ codes "\n    DROP COLUMN sk CASCADE;")
        ∷ run (
            codes "ALTER TABLE history."
            ++ table
            ++ codes "\n    DROP CONSTRAINT history_"
            ++ table
            ++ codes "_id_updated_key;")
        ∷ run (
            codes "ALTER TABLE history."
            ++ table
            ++ codes "\n    ADD CONSTRAINT history_"
            ++ table
            ++ codes "_pkey\n    PRIMARY KEY (id, updated);")
        ∷ [])

unfoldable pub database_upgrade_11 : DatabaseUpgradeOptions → DbSys → List Step
unfolding upgrade_11_table table_array
database_upgrade_11 opt dbt =
    run (codes "DROP TABLE ldpsystem.idmap;") ∷ gather (upgrade_11_table opt dbt) table_array
    ++ (run (codes "UPDATE ldpsystem.main SET ldp_schema_version = 11;") ∷ [])

unfoldable pub database_upgrade_12 : DatabaseUpgradeOptions → DbSys → List Step
database_upgrade_12 opt dbt =
    run (codes "ALTER TABLE ldpconfig.general\n    ADD COLUMN update_all_tables\n    BOOLEAN;")
    ∷ run (codes "UPDATE ldpconfig.general\n    SET update_all_tables = TRUE;")
    ∷ run (
        codes
          "CREATE TABLE ldpconfig.update_tables (\n    enable_update BOOLEAN NOT NULL,\n    table_name VARCHAR(63) NOT NULL,\n    tenant_id SMALLINT NOT NULL\n);")
    ∷ run (codes "UPDATE ldpsystem.main SET ldp_schema_version = 12;")
    ∷ []

unfoldable pub database_upgrade_13 : DatabaseUpgradeOptions → DbSys → List Step
database_upgrade_13 opt dbt =
    gather (upgrade_add_new_table_ldpsystem opt dbt) (
      codes "course_copyrightstatuses"
      ∷ codes "course_courselistings"
      ∷ codes "course_courses"
      ∷ codes "course_coursetypes"
      ∷ codes "course_departments"
      ∷ codes "course_processingstatuses"
      ∷ codes "course_reserves"
      ∷ codes "course_roles"
      ∷ codes "course_terms"
      ∷ [])
    ++ (run (codes "UPDATE ldpsystem.main SET ldp_schema_version = 13;") ∷ [])

unfoldable pub database_upgrade_14 : DatabaseUpgradeOptions → DbSys → List Step
database_upgrade_14 opt dbt =
    gather (upgrade_add_new_table_ldpsystem opt dbt) (codes "email_email" ∷ [])
    ++ (run (codes "UPDATE ldpsystem.main SET ldp_schema_version = 14;") ∷ [])

unfoldable pub database_upgrade_15 : DatabaseUpgradeOptions → DbSys → List Step
database_upgrade_15 opt dbt =
    (if is_postgresql dbt
      then run (
          codes
            "ALTER TABLE ldpconfig.general\n    ALTER COLUMN disable_anonymization SET DEFAULT FALSE;")
        ∷ []
      else [])
    ++ ((if is_postgresql dbt
          then run (
              codes
                "ALTER TABLE ldpconfig.general\n    ALTER COLUMN update_all_tables DROP NOT NULL;")
            ∷ []
          else [])
        ++ (run (codes "UPDATE ldpsystem.main SET ldp_schema_version = 15;") ∷ []))

unfoldable pub database_upgrade_16 : DatabaseUpgradeOptions → DbSys → List Step
database_upgrade_16 opt dbt =
    run (codes "BEGIN;")
    ∷ run (codes "ALTER TABLE ldpconfig.general\n    DROP COLUMN update_all_tables;")
    ∷ run (
        codes
          "ALTER TABLE ldpconfig.general\n    ADD COLUMN update_all_tables BOOLEAN NOT NULL DEFAULT FALSE;")
    ∷ run (codes "UPDATE ldpsystem.main SET ldp_schema_version = 16;")
    ∷ run (codes "COMMIT;")
    ∷ []

unfoldable pub database_upgrade_17 : DatabaseUpgradeOptions → DbSys → List Step
database_upgrade_17 opt dbt =
    run (codes "BEGIN;")
    ∷ run (
        codes
          "CREATE TABLE ldpsystem.suggested_foreign_keys (\n    enable_constraint BOOLEAN NOT NULL,\n    referencing_table VARCHAR(63) NOT NULL,\n    referencing_column VARCHAR(63) NOT NULL,\n    referenced_table VARCHAR(63) NOT NULL,\n    referenced_column VARCHAR(63) NOT NULL\n)"
        ++ redshift_keys dbt (codes "referencing_table")
            (codes "referencing_table, referencing_column")
        ++ codes ";")
    ∷ run (codes "UPDATE ldpsystem.main SET ldp_schema_version = 17;")
    ∷ run (codes "COMMIT;")
    ∷ []
