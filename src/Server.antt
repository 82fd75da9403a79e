-- ===== src/Server.antt =====
-- src/ldp.cpp: the loop of the server, which is also what the update commands run, and the commands
-- that initialize and upgrade the database. `run_update` and the process that is forked for it are
-- parameters: a step on the state of the database. The connections are open and the type of the
-- database is known; sleeping and signals are left out.
pub mod Outdated
use ldp.Base.{
  ℕ, zero, suc, Bool, true, false, not, ◌&&◌, List, [], ◌∷◌, ◌++◌, Option, none, some, ◌==◌,
  if◌then◌else◌, Bytes, codes, Result, ok, runtime_error,
}
use ldp.Commands.{time_for_full_update}
use ldp.DbType.{DbSys}
use ldp.Init.{
  Connection, Rows, then_run, exec_all, init_database, upgrade_database,
  validate_database_latest_version,
}
use ldp.Log.{Log, Message, error, info, write}
use ldp.Options.{Options, Profile, folio, no_profile}

-- A line feed at the end of a message is taken off.
unfoldable pub pop_newline : Bytes → Bytes
pop_newline [] = []
pop_newline (c ∷ []) = if c == b'\n' then [] else c ∷ []
pop_newline (c ∷ d ∷ s) = c ∷ pop_newline (d ∷ s)

unfoldable pub server_message : Bytes → Message
server_message message = record {
  level = info;
  kind = codes "server";
  table = [];
  message = message;
  elapsed = none;
}

unfoldable pub error_message : Bytes → Message
unfolding server_message pop_newline
error_message e = record (server_message (pop_newline e)) { level = error }

unfoldable pub anonymize_sql : Bool → Bytes
anonymize_sql anonymize =
    codes "UPDATE dbsystem.main\n    SET anonymize = "
    ++ (if anonymize then codes "TRUE" else codes "FALSE")
    ++ codes ";"

-- An error ends the loop, and so does the mode of the command line.
unfoldable pub continue :
    {S : Type 0}
    → Bool
    → S × Result (Unit {0})
    → (S → Option (S × Result (Unit {0})))
    → Option (S × Result (Unit {0}))
continue ends (s, runtime_error e) next = some (s, runtime_error e)
continue true (s, ok u) next = some (s, ok tt)
continue false (s, ok u) next = next s

module _ {S : Type 0} (conn : Connection S) (dbt : DbSys) (pid : ℕ) (opt : Options) where
  unfoldable pub set_dbsystem_main_anonymize : S → S × Result (Unit {0})
  unfolding then_run anonymize_sql
  set_dbsystem_main_anonymize s =
      then_run (conn.exec s (anonymize_sql opt.anonymize)) (λ s' rows. (s', ok tt))

  unfoldable pub server_log : Log
  server_log = record { lv = opt.lg_level; console = opt.console; quiet = opt.quiet; dbt = dbt }

  -- The statement that stores a message, if there is one.
  unfoldable pub write_log : Message → S → S × Result (Unit {0})
  unfolding write exec_all server_log
  write_log m s = stored (write server_log pid m).stored
    where
      stored : Option Bytes → S × Result (Unit {0})
      stored none = (s, ok tt)
      stored (some sql) = exec_all conn s (sql ∷ [])

  -- `catch (runtime_error& e)`: the error of an update goes to the log.
  unfoldable pub catch_update : S × Result (Unit {0}) → S × Result (Unit {0})
  unfolding write_log error_message
  catch_update (s, ok u) = (s, ok tt)
  catch_update (s, runtime_error e) = write_log (error_message e) s

  module _ (run_update forked : S → S × Result (Unit {0})) where
    -- One pass through the body of the loop.
    unfoldable pub server_pass : Bool → S → S × Result (Unit {0})
    unfolding then_run time_for_full_update catch_update
    server_pass update_users s =
        then_run (if opt.cli_mode then (s, ok true) else time_for_full_update conn dbt s) (λ s' due.
          if not due
          then (s', ok tt)
          else if not opt.single_process && not update_users
          then forked s'
          else catch_update (run_update s'))

    -- `do ... while (!opt.cli_mode)` on fuel: none where the fuel has run out.
    unfoldable pub passes : Bool → ℕ → S → Option (S × Result (Unit {0}))
    unfolding continue server_pass
    passes update_users zero s = none
    passes update_users (suc fuel) s =
        continue opt.cli_mode (server_pass update_users s) (passes update_users fuel)

    -- What comes before the loop.
    unfoldable pub before_loop : S → S × Result (Unit {0})
    unfolding then_run validate_database_latest_version set_dbsystem_main_anonymize write_log
        server_message
    before_loop s = then_run (validate_database_latest_version conn s) (λ s1 u1.
        then_run (set_dbsystem_main_anonymize s1) (λ s2 u2.
          if opt.direct_extraction_no_ssl
          then write_log (server_message (codes "SSL disabled for direct extraction")) s2
          else (s2, ok tt)))

    unfoldable pub server_loop : Bool → ℕ → S → Option (S × Result (Unit {0}))
    unfolding continue before_loop passes
    server_loop update_users fuel s = continue false (before_loop s) (passes update_users fuel)

  unfoldable pub cmd_init_database : List Bytes → S → S × Result (Unit {0})
  unfolding then_run init_database set_dbsystem_main_anonymize
  cmd_init_database statements s = with_profile opt.set_profile
    where
      with_profile : Profile → S × Result (Unit {0})
      with_profile folio =
          then_run (init_database conn statements s) (λ s' u. set_dbsystem_main_anonymize s')
      with_profile no_profile = (s, runtime_error (codes "Unknown profile"))

  unfoldable pub cmd_upgrade_database : (ℕ → S → S × Result (Unit {0})) → S → S × Result (Unit {0})
  unfolding then_run upgrade_database set_dbsystem_main_anonymize
  cmd_upgrade_database upgrades s =
      then_run (upgrade_database conn upgrades pid s) (λ s' u. set_dbsystem_main_anonymize s')
