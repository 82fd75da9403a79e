-- ===== src/Upgrades/Dbsystem.antt =====
-- src/dbup1.cpp: the upgrades to versions 18 to 26.
use ldp.Base.{List, [], ◌∷◌, ◌++◌, codes, gather}
use ldp.DbType.{DbSys}
use ldp.Upgrades.Steps.{DatabaseUpgradeOptions, Step, run, upgrade_add_new_table_dbsystem}

unfoldable pub database_upgrade_18 : DatabaseUpgradeOptions → DbSys → List Step
database_upgrade_18 opt dbt =
    run (codes "BEGIN;")
    ∷ run (codes "ALTER SCHEMA ldpsystem RENAME TO dbsystem;")
    ∷ run (codes "DROP TABLE dbsystem.server_lock;")
    ∷ run (
        codes
          "ALTER TABLE dbsystem.main\n    RENAME COLUMN ldp_schema_version TO database_version;")
    ∷ run (codes "ALTER SCHEMA ldpconfig RENAME TO dbconfig;")
    ∷ run (codes "UPDATE dbsystem.main SET database_version = 18;")
    ∷ run (codes "COMMIT;")
    ∷ []

unfoldable pub database_upgrade_19 : DatabaseUpgradeOptions → DbSys → List Step
database_upgrade_19 opt dbt =
    run (codes "BEGIN;")
    ∷ run (codes "ALTER TABLE dbconfig.general\n    DROP COLUMN disable_anonymization;")
    ∷ run
        (codes "ALTER TABLE dbsystem.main\n    ADD COLUMN anonymize BOOLEAN NOT NULL DEFAULT TRUE;")
    ∷ run (codes "UPDATE dbsystem.main SET database_version = 19;")
    ∷ run (codes "COMMIT;")
    ∷ []

unfoldable pub database_upgrade_20 : DatabaseUpgradeOptions → DbSys → List Step
database_upgrade_20 opt dbt =
    run (codes "BEGIN;")
      ∷ gather (upgrade_add_new_table_dbsystem opt dbt) (
          codes "circulation_request_preference"
          ∷ codes "finance_ledger_fiscal_years"
          ∷ codes "user_addresstypes"
          ∷ codes "user_departments"
          ∷ codes "user_proxiesfor"
          ∷ [])
    ++ (run (codes "UPDATE dbsystem.main SET database_version = 20;") ∷ run (codes "COMMIT;") ∷ [])

unfoldable pub database_upgrade_21 : DatabaseUpgradeOptions → DbSys → List Step
database_upgrade_21 opt dbt =
    run (codes "BEGIN;")
      ∷ gather (upgrade_add_new_table_dbsystem opt dbt) (codes "configuration_entries" ∷ [])
    ++ (run (codes "UPDATE dbsystem.main SET database_version = 21;") ∷ run (codes "COMMIT;") ∷ [])

unfoldable pub database_upgrade_22 : DatabaseUpgradeOptions → DbSys → List Step
database_upgrade_22 opt dbt =
    run (codes "BEGIN;")
      ∷ gather (upgrade_add_new_table_dbsystem opt dbt)
          (codes "finance_expense_classes" ∷ codes "notes" ∷ [])
    ++ (run (codes "UPDATE dbsystem.main SET database_version = 22;") ∷ run (codes "COMMIT;") ∷ [])

unfoldable pub database_upgrade_23 : DatabaseUpgradeOptions → DbSys → List Step
database_upgrade_23 opt dbt =
    run (codes "BEGIN;") ∷ gather (upgrade_add_new_table_dbsystem opt dbt) (codes "srs_marc" ∷ [])
    ++ (run (codes "UPDATE dbsystem.main SET database_version = 23;") ∷ run (codes "COMMIT;") ∷ [])

unfoldable pub database_upgrade_24 : DatabaseUpgradeOptions → DbSys → List Step
database_upgrade_24 opt dbt =
    run (codes "BEGIN;")
      ∷ gather (upgrade_add_new_table_dbsystem opt dbt) (codes "circulation_check_ins" ∷ [])
    ++ (run (codes "UPDATE dbsystem.main SET database_version = 24;") ∷ run (codes "COMMIT;") ∷ [])

unfoldable pub database_upgrade_25 : DatabaseUpgradeOptions → DbSys → List Step
database_upgrade_25 opt dbt =
    run (codes "BEGIN;")
      ∷ gather (upgrade_add_new_table_dbsystem opt dbt) (codes "audit_circulation_logs" ∷ [])
    ++ (run (codes "UPDATE dbsystem.main SET database_version = 25;") ∷ run (codes "COMMIT;") ∷ [])

unfoldable pub database_upgrade_26 : DatabaseUpgradeOptions → DbSys → List Step
database_upgrade_26 opt dbt =
    run (codes "BEGIN;")
      ∷ gather (upgrade_add_new_table_dbsystem opt dbt) (codes "srs_records" ∷ [])
    ++ (run (codes "UPDATE dbsystem.main SET database_version = 26;") ∷ run (codes "COMMIT;") ∷ [])
