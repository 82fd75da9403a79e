-- ===== src/Upgrades/First.antt =====
-- src/dbup1.cpp: the upgrades to versions 1 to 5.
use ldp.Base.{List, [], ◌∷◌, ◌++◌, if◌then◌else◌, false, Bytes, codes, equal, gather}
use ldp.DbType.{DbSys, json_type, redshift_keys, auto_increment_type, type_string}
use ldp.Upgrades.Steps.{DatabaseUpgradeOptions, Step, run, add_table_to_catalog_sql_ldpsystem}
use ldp.Upgrades.TableNames.{table_array}

unfoldable pub upgrade_1_table : DatabaseUpgradeOptions → DbSys → Bytes → List Step
upgrade_1_table opt dbt table =
    run (add_table_to_catalog_sql_ldpsystem table)
    ∷ run (
        codes "CREATE TABLE IF NOT EXISTS "
        ++ table
        ++ codes
            " (\n    row_id BIGINT NOT NULL,\n    sk BIGINT NOT NULL,\n    id VARCHAR(65535) NOT NULL,\n    data "
        ++ json_type dbt
        ++ codes ",\n    tenant_id SMALLINT NOT NULL\n);")
    ∷ run (codes "GRANT SELECT ON\n    " ++ table ++ codes "\n    TO " ++ opt.ldp_user ++ codes ";")
    ∷ run (codes "DROP TABLE IF EXISTS\n    history." ++ table ++ codes ";")
    ∷ run (
        codes "CREATE TABLE IF NOT EXISTS\n    history."
        ++ table
        ++ codes " (\n    sk BIGINT NOT NULL,\n    id VARCHAR(65535) NOT NULL,\n    data "
        ++ json_type dbt
        ++ codes
            " NOT NULL,\n    updated TIMESTAMP WITH TIME ZONE NOT NULL,\n    tenant_id SMALLINT NOT NULL,\n    CONSTRAINT\n        history_"
        ++ table
        ++ codes "_pkey\n        PRIMARY KEY (sk),\n    CONSTRAINT\n        history_"
        ++ table
        ++ codes "_id_updated_key\n        UNIQUE (id, updated)\n)"
        ++ redshift_keys dbt (codes "sk") (codes "sk, updated")
        ++ codes ";")
    ∷ run (
        codes "GRANT SELECT ON\n    history."
        ++ table
        ++ codes "\n    TO "
        ++ opt.ldp_user
        ++ codes ";")
    ∷ (if equal (type_string dbt) (codes "PostgreSQL")
        then run (codes "ALTER TABLE \n    " ++ table ++ codes "\n    DROP COLUMN row_id;") ∷ []
        else [])

unfoldable pub database_upgrade_1 : DatabaseUpgradeOptions → DbSys → List Step
unfolding upgrade_1_table table_array
database_upgrade_1 opt dbt =
    run (codes "CREATE TABLE ldpsystem.tables (\n    table_name VARCHAR(63) NOT NULL\n);")
      ∷ run (codes "GRANT SELECT ON ldpsystem.tables TO " ++ opt.ldp_user ++ codes ";")
      ∷ gather (upgrade_1_table opt dbt) table_array
    ++ (run (
          codes "CREATE TABLE ldpsystem.idmap (\n    sk "
          ++ auto_increment_type dbt 1 false []
          ++ codes ",\n    id VARCHAR(65535),\n        PRIMARY KEY (sk),\n        UNIQUE (id)\n)"
          ++ redshift_keys dbt (codes "sk") (codes "sk")
          ++ codes ";")
        ∷ run (codes "GRANT SELECT ON ldpsystem.idmap TO " ++ opt.ldp_user ++ codes ";")
        ∷ run (codes "UPDATE ldpsystem.main SET ldp_schema_version = 1;")
        ∷ [])

unfoldable pub upgrade_2_table : DatabaseUpgradeOptions → DbSys → Bytes → List Step
upgrade_2_table opt dbt table =
    run (
      codes "ALTER TABLE history."
      ++ table
      ++ codes "\n    DROP CONSTRAINT history_"
      ++ table
      ++ codes "_pkey;")
    ∷ run (
        codes "ALTER TABLE history."
        ++ table
        ++ codes "\n    ADD CONSTRAINT history_"
        ++ table
        ++ codes "_pkey\n    PRIMARY KEY (sk, updated);")
    ∷ []

unfoldable pub database_upgrade_2 : DatabaseUpgradeOptions → DbSys → List Step
unfolding upgrade_2_table table_array
database_upgrade_2 opt dbt =
    gather (upgrade_2_table opt dbt) table_array
    ++ (run (codes "UPDATE ldpsystem.main SET ldp_schema_version = 2;") ∷ [])

unfoldable pub database_upgrade_3 : DatabaseUpgradeOptions → DbSys → List Step
database_upgrade_3 opt dbt =
    run (
      codes
        "ALTER TABLE ldpconfig.general\n    ADD COLUMN log_referential_analysis\n        BOOLEAN NOT NULL DEFAULT FALSE;")
    ∷ run (
        codes
          "ALTER TABLE ldpconfig.general\n    ADD COLUMN force_referential_constraints\n        BOOLEAN NOT NULL DEFAULT FALSE;")
    ∷ run (codes "UPDATE ldpsystem.main SET ldp_schema_version = 3;")
    ∷ []

unfoldable pub database_upgrade_4 : DatabaseUpgradeOptions → DbSys → List Step
database_upgrade_4 opt dbt =
    run (codes "ALTER TABLE ldpsystem.log DROP COLUMN level;")
    ∷ run (
        codes
          "ALTER TABLE ldpsystem.log\n    ADD COLUMN level\n        VARCHAR(7) NOT NULL DEFAULT '';")
    ∷ run (
        codes
          "ALTER TABLE ldpsystem.idmap\n    ADD COLUMN table_name\n        VARCHAR(63) NOT NULL DEFAULT '';")
    ∷ run (
        codes
          "CREATE TABLE ldpsystem.referential_constraints (\n    referencing_table VARCHAR(63) NOT NULL,\n    referencing_column VARCHAR(63) NOT NULL,\n    referenced_table VARCHAR(63) NOT NULL,\n    referenced_column VARCHAR(63) NOT NULL,\n        PRIMARY KEY (referencing_table, referencing_column)\n)"
        ++ redshift_keys dbt (codes "referencing_table")
            (codes "referencing_table, referencing_column")
        ++ codes ";")
    ∷ run (codes "GRANT SELECT ON ALL TABLES IN SCHEMA ldpsystem TO " ++ opt.ldp_user ++ codes ";")
    ∷ run (codes "UPDATE ldpsystem.main SET ldp_schema_version = 4;")
    ∷ []

unfoldable pub database_upgrade_5 : DatabaseUpgradeOptions → DbSys → List Step
database_upgrade_5 opt dbt =
    run (codes "ALTER TABLE ldpsystem.idmap DROP CONSTRAINT idmap_pkey;")
    ∷ run (codes "ALTER TABLE ldpsystem.idmap DROP CONSTRAINT idmap_id_key;")
    ∷ run (codes "ALTER TABLE ldpsystem.idmap RENAME TO idmap_old;")
    ∷ run (
        codes
          "CREATE TABLE ldpsystem.idmap (\n    sk BIGINT NOT NULL,\n    id VARCHAR(65535) NOT NULL,\n        PRIMARY KEY (sk),\n        UNIQUE (id)\n)"
        ++ redshift_keys dbt (codes "sk") (codes "sk")
        ++ codes ";")
    ∷ run
        (codes "INSERT INTO ldpsystem.idmap (sk, id)\n    SELECT sk, id FROM ldpsystem.idmap_old;")
    ∷ run (codes "DROP TABLE ldpsystem.idmap_old;")
    ∷ run (codes "UPDATE ldpsystem.main SET ldp_schema_version = 5;")
    ∷ []
