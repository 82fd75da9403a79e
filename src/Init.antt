-- ===== src/Init.antt =====
-- src/init.cpp: the version of the database, its initialization and its upgrades. The database is
-- a state, and a connection runs one statement on it: that is libpq and the server, and is a
-- parameter. So are the functions of src/dbup1.cpp that the upgrades call. What is written to the
-- standard error and to the files of the upgrades is left out.
pub mod Statements
pub mod Upgrade
pub mod Transaction
use ldp.Base.{
  ℕ, zero, suc, ◌+◌, ◌-◌, ◌*◌, ◌^◌, Bool, true, false, not, ◌&&◌, ◌||◌, List, [], ◌∷◌, ◌++◌, gather,
  if◌then◌else◌, ◌==◌, ltb, leb, Option, none, some, Bytes, codes, equal, is_digit, is_space,
  to_string, Result, ok, runtime_error,
}
use ldp.Json.{ℤ, pos, negsuc, integer_to_string}
use ldp.DbType.{DbSys, postgresql, redshift_keys, current_timestamp}
use ldp.Table.{
  TableSchema, create_main_table_sql, create_history_table_sql, grant_select_on_table_sql,
  add_table_to_catalog_sql,
}
use ldp.Util.{comment_sql}
use ldp.Log.{Log, Message, info, write}

-- The rows of a result, as texts.
abbrev pub Rows : Type 0
Rows = List (List Bytes)

pub record Connection (S : Type 0) : Type 0 where
  pub exec : S → Bytes → S × Result Rows

-- One step behind another: an error stops the run in the state it left.
unfoldable pub then_run {ℓ κ} :
    {S : Type 0} {A : Type ℓ} {B : Type κ} → S × Result A → (S → A → S × Result B) → S × Result B
then_run (s, ok a) f = f s a
then_run (s, runtime_error e) f = (s, runtime_error e)

unfoldable pub latest_database_version : ℕ
latest_database_version = 35

-- The digits of a number, read from the left.
digits_value : ℕ → Bytes → ℕ
digits_value n [] = n
digits_value n (c ∷ s) =
    let rest = digits_value (n * 10 + (c - b'0')) s in if is_digit c then rest else n

-- `stream >> *version` of an `int64_t`: out of range, the nearest number.
at_most : ℕ → ℕ → ℕ
at_most bound n = if leb n bound then n else bound

negative : ℕ → ℤ
negative zero = pos 0
negative (suc n) = negsuc n

read_signed : Bytes → ℤ
read_signed [] = pos 0
read_signed (c ∷ s) =
    if c == b'-'
    then negative (at_most (2 ^ 63) (digits_value 0 s))
    else if c == b'+'
    then pos (at_most (2 ^ 63 - 1) (digits_value 0 s))
    else pos (at_most (2 ^ 63 - 1) (digits_value 0 (c ∷ s)))

unfoldable pub read_version : Bytes → ℤ
unfolding read_signed negative at_most digits_value
read_version [] = pos 0
read_version (c ∷ s) = let rest = read_version s in if is_space c then rest else read_signed (c ∷ s)

-- The version, where it is one that the program knows.
unfoldable pub validate_database_version : ℤ → Result ℕ
unfolding latest_database_version
validate_database_version (negsuc n) =
    runtime_error (codes "Unknown LDP database version: " ++ integer_to_string (negsuc n))
validate_database_version (pos v) =
    if ltb latest_database_version v
    then runtime_error (codes "Unknown LDP database version: " ++ integer_to_string (pos v))
    else ok v

-- The first field of the only row.
first_field : Bytes → Rows → Result Bytes
first_field message ((field ∷ fields) ∷ []) = ok field
first_field message _ = runtime_error message

upgraded_message : Message
upgraded_message = record {
  level = info;
  kind = codes "server";
  table = [];
  message = codes "Upgraded to database version: " ++ to_string latest_database_version;
  elapsed = none;
}

module _ {S : Type 0} (conn : Connection S) where
  -- The second run of a query, whose result is read.
  read_field : S → Bytes → Bytes → S × Result (Option ℤ)
  unfolding first_field
  read_field s sql message = field (conn.exec s sql)
    where
      version_of : S → Result Bytes → S × Result (Option ℤ)
      version_of s (ok text) = (s, ok (some (read_version text)))
      version_of s (runtime_error e) = (s, runtime_error e)

      field : S × Result Rows → S × Result (Option ℤ)
      field (s', ok rows) = version_of s' (first_field message rows)
      field (s', runtime_error e) = (s', runtime_error e)

  select_database_version_ldpsystem : S → S × Result (Option ℤ)
  select_database_version_ldpsystem s = first_run (conn.exec s sql)
    where
      sql : Bytes
      sql = codes "SELECT ldp_schema_version FROM ldpsystem.main;"

      first_run : S × Result Rows → S × Result (Option ℤ)
      first_run (s', runtime_error e) = (s', ok none)
      first_run (s', ok rows) =
          read_field s' sql (codes "wrong number of rows in table: ldpsystem.main")

  -- A table that does not exist sends the query to the older one.
  unfoldable pub select_database_version : S → S × Result (Option ℤ)
  unfolding select_database_version_ldpsystem read_field
  select_database_version s = first_run (conn.exec s sql)
    where
      sql : Bytes
      sql = codes "SELECT database_version FROM dbsystem.main;"

      first_run : S × Result Rows → S × Result (Option ℤ)
      first_run (s', runtime_error e) = select_database_version_ldpsystem s'
      first_run (s', ok rows) =
          read_field s' sql (codes "wrong number of rows in table: dbsystem.main")

  -- The statements one after another.
  unfoldable pub exec_all : S → List Bytes → S × Result (Unit {0})
  unfolding then_run
  exec_all s [] = (s, ok tt)
  exec_all s (sql ∷ rest) = then_run (conn.exec s sql) (λ s' rows. exec_all s' rest)

  version_found : {A : Type 0} → S → (S → ℕ → S × Result A) → (S → S × Result A) → S × Result A
  unfolding then_run select_database_version validate_database_version
  version_found {A} s found absent = then_run (select_database_version s) found_or_absent
    where
      known : S → Result ℕ → S × Result A
      known s' (ok v) = found s' v
      known s' (runtime_error e) = (s', runtime_error e)

      found_or_absent : S → Option ℤ → S × Result A
      found_or_absent s' none = absent s'
      found_or_absent s' (some v) = known s' (validate_database_version v)

  -- `init_database_all` runs `statements`.
  unfoldable pub init_database : List Bytes → S → S × Result (Unit {0})
  unfolding version_found exec_all
  init_database statements s =
      version_found s
        (λ s' v. (s', runtime_error (codes "Database may have been previously initialized")))
        (λ s'. exec_all s' statements)

  -- The loop from the version `v + 1`, for `n` versions.
  pub upgrade_loop : (ℕ → S → S × Result (Unit {0})) → ℕ → ℕ → S → S × Result (Unit {0})
  unfolding then_run
  upgrade_loop upgrades v zero s = (s, ok tt)
  upgrade_loop upgrades v (suc n) s =
      then_run (upgrades (suc v) s) (λ s' u. upgrade_loop upgrades (suc v) n s')

  -- The message that the log stores when at least one upgrade has run.
  log_upgraded : ℕ → S → S × Result (Unit {0})
  unfolding exec_all
  log_upgraded pid s = logged (write server_log pid upgraded_message).stored
    where
      server_log : Log
      server_log = record { lv = info; console = false; quiet = false; dbt = postgresql }

      logged : Option Bytes → S × Result (Unit {0})
      logged none = (s, ok tt)
      logged (some sql) = exec_all s (sql ∷ [])

  unfoldable pub upgrade_database_all :
      (ℕ → S → S × Result (Unit {0})) → ℕ → ℕ → S → S × Result (Unit {0})
  unfolding upgrade_loop log_upgraded upgraded_message then_run latest_database_version
  upgrade_database_all upgrades pid version s =
      then_run (upgrade_loop upgrades version (latest_database_version - version) s)
        (λ s' u. if ltb version latest_database_version then log_upgraded pid s' else (s', ok tt))

  unfoldable pub upgrade_database : (ℕ → S → S × Result (Unit {0})) → ℕ → S → S × Result (Unit {0})
  unfolding version_found upgrade_database_all
  upgrade_database upgrades pid s =
      version_found s
        (λ s' v.
          if ltb v latest_database_version
          then upgrade_database_all upgrades pid v s'
          else (s', ok tt))
        (λ s'. (s', runtime_error (codes "database has not been initialized")))

  unfoldable pub validate_database_latest_version : S → S × Result (Unit {0})
  unfolding version_found
  validate_database_latest_version s =
      version_found s
        (λ s' v. if v == latest_database_version then (s', ok tt) else (
          s',
          runtime_error (codes "Database should be upgraded using the upgrade-database command"),
        ))
        (λ s'. (s', runtime_error (codes "database has not been initialized")))
