-- ===== src/Server/Outdated.antt =====
-- The loop of the server on a database of an older version.
use ldp.Base.{ℕ, Bool, true, some, ltb, codes, Result, runtime_error, ◌≡◌, refl}
use ldp.DbType.{DbSys}
use ldp.Init.Upgrade.{HasVersion, validate_outdated}
use ldp.Init.{Connection, then_run, latest_database_version}
use ldp.Options.{Options}
use ldp.Server.{continue, before_loop, server_loop}

module _ {S : Type 0} (conn : Connection S) (dbt : DbSys) (pid : ℕ) (opt : Options)
    (run_update forked : S → S × Result (Unit {0})) where
  -- On a database of an older version, the loop ends at once with an error, in each mode, and the
  -- database is as it was.
  pub server_loop-outdated :
      (update_users : Bool) (fuel : ℕ) (s : S) (v : ℕ)
      → HasVersion conn s v
      → ltb v latest_database_version ≡ true
      → server_loop conn dbt pid opt run_update forked update_users fuel s
        ≡ some (
          s,
          runtime_error (codes "Database should be upgraded using the upgrade-database command"),
        )
  unfolding server_loop continue before_loop then_run
  server_loop-outdated update_users fuel s v h below = rw (validate_outdated conn s v h below) refl
