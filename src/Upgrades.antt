-- ===== src/Upgrades.antt =====
-- src/dbup1.cpp: the upgrades of a database, from each version to the next. An upgrade is the list
-- of the statements that it sends, in their order.
mod Steps
mod TableNames
mod First
mod Grants
mod Keys
mod Dbsystem
mod Types
pub mod Version
pub mod Transaction
use ldp.Base.{
  ℕ, zero, suc, List, [], ◌∷◌, map, Option, none, some, get_elem?, Bytes, codes, ok, Result,
  runtime_error,
}
use ldp.DbType.{DbSys}
use ldp.Init.{Connection, then_run}
pub use Steps.{DatabaseUpgradeOptions, Step, run, attempt}
use First.{
  database_upgrade_1, database_upgrade_2, database_upgrade_3, database_upgrade_4,
  database_upgrade_5,
}
use Grants.{database_upgrade_6, database_upgrade_7, database_upgrade_8, database_upgrade_9}
use Keys.{
  database_upgrade_10, database_upgrade_11, database_upgrade_12, database_upgrade_13,
  database_upgrade_14, database_upgrade_15, database_upgrade_16, database_upgrade_17,
}
use Dbsystem.{
  database_upgrade_18, database_upgrade_19, database_upgrade_20, database_upgrade_21,
  database_upgrade_22, database_upgrade_23, database_upgrade_24, database_upgrade_25,
  database_upgrade_26,
}
use Types.{
  database_upgrade_27, database_upgrade_28, database_upgrade_29, database_upgrade_30,
  database_upgrade_31, database_upgrade_32, database_upgrade_33, database_upgrade_34,
  database_upgrade_35,
}

-- The array of src/init.cpp, behind the null pointer of version 0.
unfoldable pub database_upgrades : DatabaseUpgradeOptions → DbSys → List (Option (List Step))
unfolding database_upgrade_1 database_upgrade_2 database_upgrade_3 database_upgrade_4
    database_upgrade_5 database_upgrade_6 database_upgrade_7 database_upgrade_8 database_upgrade_9
    database_upgrade_10 database_upgrade_11 database_upgrade_12 database_upgrade_13
    database_upgrade_14 database_upgrade_15 database_upgrade_16 database_upgrade_17
    database_upgrade_18 database_upgrade_19 database_upgrade_20 database_upgrade_21
    database_upgrade_22 database_upgrade_23 database_upgrade_24 database_upgrade_25
    database_upgrade_26 database_upgrade_27 database_upgrade_28 database_upgrade_29
    database_upgrade_30 database_upgrade_31 database_upgrade_32 database_upgrade_33
    database_upgrade_34 database_upgrade_35
database_upgrades opt dbt =
    none
    ∷ some (database_upgrade_1 opt dbt)
    ∷ some (database_upgrade_2 opt dbt)
    ∷ some (database_upgrade_3 opt dbt)
    ∷ some (database_upgrade_4 opt dbt)
    ∷ some (database_upgrade_5 opt dbt)
    ∷ some (database_upgrade_6 opt dbt)
    ∷ some (database_upgrade_7 opt dbt)
    ∷ some (database_upgrade_8 opt dbt)
    ∷ some (database_upgrade_9 opt dbt)
    ∷ some (database_upgrade_10 opt dbt)
    ∷ some (database_upgrade_11 opt dbt)
    ∷ some (database_upgrade_12 opt dbt)
    ∷ some (database_upgrade_13 opt dbt)
    ∷ some (database_upgrade_14 opt dbt)
    ∷ some (database_upgrade_15 opt dbt)
    ∷ some (database_upgrade_16 opt dbt)
    ∷ some (database_upgrade_17 opt dbt)
    ∷ some (database_upgrade_18 opt dbt)
    ∷ some (database_upgrade_19 opt dbt)
    ∷ some (database_upgrade_20 opt dbt)
    ∷ some (database_upgrade_21 opt dbt)
    ∷ some (database_upgrade_22 opt dbt)
    ∷ some (database_upgrade_23 opt dbt)
    ∷ some (database_upgrade_24 opt dbt)
    ∷ some (database_upgrade_25 opt dbt)
    ∷ some (database_upgrade_26 opt dbt)
    ∷ some (database_upgrade_27 opt dbt)
    ∷ some (database_upgrade_28 opt dbt)
    ∷ some (database_upgrade_29 opt dbt)
    ∷ some (database_upgrade_30 opt dbt)
    ∷ some (database_upgrade_31 opt dbt)
    ∷ some (database_upgrade_32 opt dbt)
    ∷ some (database_upgrade_33 opt dbt)
    ∷ some (database_upgrade_34 opt dbt)
    ∷ some (database_upgrade_35 opt dbt)
    ∷ []

-- The end of a caught statement: its error is dropped.
caught : {S A : Type 0} → S × Result A → S × Result (Unit {0})
caught (s, r) = (s, ok tt)

done : {S A : Type 0} → S × Result A → S × Result (Unit {0})
done (s, ok a) = (s, ok tt)
done (s, runtime_error e) = (s, runtime_error e)

module _ {S : Type 0} (conn : Connection S) where
  run_step : S → Step → S × Result (Unit {0})
  unfolding caught done
  run_step s (run sql) = done (conn.exec s sql)
  run_step s (attempt sql) = caught (conn.exec s sql)

  run_steps : S → List Step → S × Result (Unit {0})
  unfolding then_run run_step
  run_steps s [] = (s, ok tt)
  run_steps s (step ∷ rest) = then_run (run_step s step) (λ s' u. run_steps s' rest)

  -- Where the array has no function for the version, the code would call a pointer that is null or
  -- lies behind the array: an error stands for it.
  run_entry : Option (Option (List Step)) → S → S × Result (Unit {0})
  unfolding run_steps
  run_entry (some (some steps)) s = run_steps s steps
  run_entry (some none) s = (s, runtime_error (codes "no upgrade"))
  run_entry none s = (s, runtime_error (codes "no upgrade"))

  -- The call `database_upgrades[v](&opt)`.
  unfoldable pub run_upgrade : DatabaseUpgradeOptions → DbSys → ℕ → S → S × Result (Unit {0})
  unfolding run_entry
  run_upgrade opt dbt v s = run_entry (get_elem? (database_upgrades opt dbt) v) s
