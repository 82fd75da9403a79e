-- ===== src/Upgrades/Grants.antt =====
-- src/dbup1.cpp: the upgrades to versions 6 to 9.
use ldp.Base.{List, [], ◌∷◌, ◌++◌, Bytes, codes, gather}
use ldp.DbType.{DbSys, redshift_keys}
use ldp.Upgrades.Steps.{DatabaseUpgradeOptions, Step, run}
use ldp.Upgrades.TableNames.{table_array}

unfoldable pub upgrade_6_table : DatabaseUpgradeOptions → DbSys → Bytes → List Step
upgrade_6_table opt dbt table =
    run (
      codes "GRANT SELECT ON\n    history."
      ++ table
      ++ codes "\n    TO "
      ++ opt.ldpconfig_user
      ++ codes ";")
    ∷ []

unfoldable pub database_upgrade_6 : DatabaseUpgradeOptions → DbSys → List Step
unfolding upgrade_6_table table_array
database_upgrade_6 opt dbt =
    run (codes "GRANT USAGE ON SCHEMA ldpsystem TO " ++ opt.ldpconfig_user ++ codes ";")
      ∷ run (codes "GRANT SELECT ON ldpsystem.idmap TO " ++ opt.ldp_user ++ codes ";")
      ∷ run (codes "GRANT SELECT ON ldpsystem.idmap TO " ++ opt.ldpconfig_user ++ codes ";")
      ∷ run (codes "GRANT SELECT ON ldpsystem.log TO " ++ opt.ldp_user ++ codes ";")
      ∷ run (codes "GRANT SELECT ON ldpsystem.log TO " ++ opt.ldpconfig_user ++ codes ";")
      ∷ run (codes "GRANT SELECT ON ldpsystem.main TO " ++ opt.ldp_user ++ codes ";")
      ∷ run (codes "GRANT SELECT ON ldpsystem.main TO " ++ opt.ldpconfig_user ++ codes ";")
      ∷ run (
          codes "GRANT SELECT ON ldpsystem.referential_constraints TO "
          ++ opt.ldp_user
          ++ codes ";")
      ∷ run (
          codes "GRANT SELECT ON ldpsystem.referential_constraints TO "
          ++ opt.ldpconfig_user
          ++ codes ";")
      ∷ run (codes "GRANT SELECT ON ldpsystem.tables TO " ++ opt.ldp_user ++ codes ";")
      ∷ run (codes "GRANT SELECT ON ldpsystem.tables TO " ++ opt.ldpconfig_user ++ codes ";")
      ∷ run (codes "GRANT USAGE ON SCHEMA ldpconfig TO " ++ opt.ldpconfig_user ++ codes ";")
      ∷ run (
          codes "GRANT SELECT ON ALL TABLES IN SCHEMA ldpconfig TO "
          ++ opt.ldpconfig_user
          ++ codes ";")
      ∷ run (codes "GRANT UPDATE ON ldpconfig.general TO " ++ opt.ldpconfig_user ++ codes ";")
      ∷ run (codes "GRANT USAGE ON SCHEMA history TO " ++ opt.ldpconfig_user ++ codes ";")
      ∷ gather (upgrade_6_table opt dbt) table_array
    ++ (run (codes "GRANT USAGE ON SCHEMA local TO " ++ opt.ldpconfig_user ++ codes ";")
        ∷ run (codes "UPDATE ldpsystem.main SET ldp_schema_version = 6;")
        ∷ [])

unfoldable pub database_upgrade_7 : DatabaseUpgradeOptions → DbSys → List Step
database_upgrade_7 opt dbt =
    run (codes "ALTER TABLE ldpsystem.tables\n    ADD COLUMN updated TIMESTAMP WITH TIME ZONE;")
    ∷ run (codes "ALTER TABLE ldpsystem.tables\n    ADD COLUMN row_count BIGINT;")
    ∷ run (codes "ALTER TABLE ldpsystem.tables\n    ADD COLUMN history_row_count BIGINT;")
    ∷ run (codes "ALTER TABLE ldpsystem.tables\n    ADD COLUMN documentation VARCHAR(65535);")
    ∷ run (codes "ALTER TABLE ldpsystem.tables\n    ADD COLUMN documentation_url VARCHAR(65535);")
    ∷ run (
        codes
          "ALTER TABLE ldpconfig.general\n    ADD COLUMN disable_anonymization BOOLEAN NOT NULL DEFAULT FALSE;")
    ∷ run (codes "UPDATE ldpsystem.main SET ldp_schema_version = 7;")
    ∷ []

unfoldable pub database_upgrade_8 : DatabaseUpgradeOptions → DbSys → List Step
database_upgrade_8 opt dbt = run (codes "UPDATE ldpsystem.main SET ldp_schema_version = 8;") ∷ []

unfoldable pub database_upgrade_9 : DatabaseUpgradeOptions → DbSys → List Step
database_upgrade_9 opt dbt =
    run (codes "DROP TABLE ldpsystem.referential_constraints;")
    ∷ run (
        codes
          "CREATE TABLE ldpsystem.foreign_key_constraints (\n    referencing_table VARCHAR(63) NOT NULL,\n    referencing_column VARCHAR(63) NOT NULL,\n    referenced_table VARCHAR(63) NOT NULL,\n    referenced_column VARCHAR(63) NOT NULL,\n    constraint_name VARCHAR(63) NOT NULL,\n        PRIMARY KEY (referencing_table, referencing_column)\n)"
        ++ redshift_keys dbt (codes "referencing_table")
            (codes "referencing_table, referencing_column")
        ++ codes ";")
    ∷ run (
        codes
          "ALTER TABLE ldpconfig.general\n    RENAME COLUMN full_update_enabled TO enable_full_updates;")
    ∷ run (
        codes
          "ALTER TABLE ldpconfig.general\n    RENAME COLUMN log_referential_analysis TO detect_foreign_keys;")
    ∷ run (codes "ALTER TABLE ldpconfig.general\n    DROP COLUMN force_referential_constraints;")
    ∷ run (
        codes
          "ALTER TABLE ldpconfig.general\n    ADD COLUMN force_foreign_key_constraints\n    BOOLEAN NOT NULL DEFAULT FALSE;")
    ∷ run (
        codes
          "ALTER TABLE ldpconfig.general\n    ADD COLUMN enable_foreign_key_warnings\n    BOOLEAN NOT NULL DEFAULT FALSE;")
    ∷ run (
        codes
          "CREATE TABLE ldpconfig.foreign_keys (\n    enable_constraint BOOLEAN NOT NULL,\n    referencing_table VARCHAR(63) NOT NULL,\n    referencing_column VARCHAR(63) NOT NULL,\n    referenced_table VARCHAR(63) NOT NULL,\n    referenced_column VARCHAR(63) NOT NULL\n);")
    ∷ run (codes "UPDATE ldpsystem.main SET ldp_schema_version = 9;")
    ∷ []
