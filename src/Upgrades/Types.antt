-- ===== src/Upgrades/Types.antt =====
-- src/dbup1.cpp: the upgrades to versions 27 to 35.
use ldp.Base.{List, [], ◌∷◌, ◌++◌, codes, gather}
use ldp.DbType.{DbSys}
use ldp.Table.{TableSchema}
use ldp.DefaultSchema.{make_default_schema}
use ldp.Upgrades.Steps.{DatabaseUpgradeOptions, Step, run, attempt, upgrade_add_new_table_dbsystem}

unfoldable pub upgrade_27_table : DatabaseUpgradeOptions → DbSys → TableSchema → List Step
upgrade_27_table opt dbt table =
    attempt (codes "ALTER TABLE " ++ table.name ++ codes " DROP COLUMN tenant_id;")
    ∷ attempt (codes "ALTER TABLE history." ++ table.name ++ codes " DROP COLUMN tenant_id;")
    ∷ []

unfoldable pub database_upgrade_27 : DatabaseUpgradeOptions → DbSys → List Step
unfolding upgrade_27_table make_default_schema
database_upgrade_27 opt dbt =
    gather (upgrade_27_table opt dbt) make_default_schema
    ++ (run (codes "UPDATE dbsystem.main SET database_version = 27;") ∷ [])

unfoldable pub database_upgrade_28 : DatabaseUpgradeOptions → DbSys → List Step
database_upgrade_28 opt dbt =
    run (codes "BEGIN;")
      ∷ gather (upgrade_add_new_table_dbsystem opt dbt) (codes "inventory_holdings_sources" ∷ [])
    ++ (run (codes "UPDATE dbsystem.main SET database_version = 28;") ∷ run (codes "COMMIT;") ∷ [])

unfoldable pub database_upgrade_29 : DatabaseUpgradeOptions → DbSys → List Step
database_upgrade_29 opt dbt =
    run (codes "BEGIN;")
      ∷ gather (upgrade_add_new_table_dbsystem opt dbt)
          (codes "perm_permissions" ∷ codes "perm_users" ∷ codes "srs_error" ∷ [])
    ++ (run (codes "UPDATE dbsystem.main SET database_version = 29;") ∷ run (codes "COMMIT;") ∷ [])

unfoldable pub database_upgrade_30 : DatabaseUpgradeOptions → DbSys → List Step
database_upgrade_30 opt dbt =
    run (codes "BEGIN;")
      ∷ gather (upgrade_add_new_table_dbsystem opt dbt) (codes "patron_blocks_user_summary" ∷ [])
    ++ (run (codes "UPDATE dbsystem.main SET database_version = 30;") ∷ run (codes "COMMIT;") ∷ [])

unfoldable pub database_upgrade_31 : DatabaseUpgradeOptions → DbSys → List Step
database_upgrade_31 opt dbt =
    run (codes "BEGIN;")
      ∷ gather (upgrade_add_new_table_dbsystem opt dbt) (codes "template_engine_template" ∷ [])
    ++ (run (codes "UPDATE dbsystem.main SET database_version = 31;") ∷ run (codes "COMMIT;") ∷ [])

unfoldable pub database_upgrade_32 : DatabaseUpgradeOptions → DbSys → List Step
database_upgrade_32 opt dbt =
    run (codes "BEGIN;")
      ∷ gather (upgrade_add_new_table_dbsystem opt dbt) (codes "inventory_bound_with_part" ∷ [])
    ++ (run (codes "UPDATE dbsystem.main SET database_version = 32;") ∷ run (codes "COMMIT;") ∷ [])

unfoldable pub database_upgrade_33 : DatabaseUpgradeOptions → DbSys → List Step
database_upgrade_33 opt dbt =
    run (codes "BEGIN;")
      ∷ gather (upgrade_add_new_table_dbsystem opt dbt) (codes "acquisition_method" ∷ [])
    ++ (run (codes "UPDATE dbsystem.main SET database_version = 33;") ∷ run (codes "COMMIT;") ∷ [])

unfoldable pub upgrade_34_table : DatabaseUpgradeOptions → DbSys → TableSchema → List Step
upgrade_34_table opt dbt table =
    attempt (
      codes "ALTER TABLE public."
      ++ table.name
      ++ codes " ALTER COLUMN id TYPE uuid USING id::uuid, ALTER COLUMN data TYPE jsonb;")
    ∷ attempt (
        codes "ALTER TABLE history."
        ++ table.name
        ++ codes " ALTER COLUMN id TYPE uuid USING id::uuid, ALTER COLUMN data TYPE jsonb;")
    ∷ []

unfoldable pub database_upgrade_34 : DatabaseUpgradeOptions → DbSys → List Step
unfolding upgrade_34_table make_default_schema
database_upgrade_34 opt dbt =
    gather (upgrade_34_table opt dbt) make_default_schema
    ++ (run (codes "UPDATE dbsystem.main SET database_version = 34;") ∷ [])

unfoldable pub database_upgrade_35 : DatabaseUpgradeOptions → DbSys → List Step
database_upgrade_35 opt dbt =
    run (codes "BEGIN;")
      ∷ gather (upgrade_add_new_table_dbsystem opt dbt)
          (codes "notes_link" ∷ codes "notes_note_link" ∷ [])
    ++ (run (codes "UPDATE dbsystem.main SET database_version = 35;") ∷ run (codes "COMMIT;") ∷ [])
