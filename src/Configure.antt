-- ===== src/Configure.antt =====
-- src/ldp.cpp: the settings of the configuration file in the options of a run, and what `ldp_exec`
-- does before it carries out the command. The document of the file is a parameter.
pub mod Held
use ldp.Base.{
  ℕ, Bool, true, false, List, [], ◌∷◌, ◌++◌, Option, none, some, if◌then◌else◌, Bytes, codes, equal,
  Result, ok, runtime_error, ◌>>=◌,
}
use ldp.Config.{value_out_of_range, is_port, port_or_default, get_int, get_enable_sources}
use ldp.Config.Lookup.{get, get_bool, get_required}
use ldp.Json.{ℤ, pos, Value, Rapidjson}
use ldp.Options.{Options, DataSource, config_set_environment, validate_options_in_deployment}

-- `etymon::pgconn_info`, without what is never set here.
pub record Connection : Type 0 where
  pub dbname : Bytes
  pub dbhost : Bytes
  pub dbport : ℤ
  pub dbuser : Bytes
  pub dbpasswd : Bytes
  pub dbsslmode : Bytes

-- The options of a run with those of the connection.
pub record Settings : Type 0 where
  pub options : Options
  pub dbinfo : Connection
  pub superuser : Bytes
  pub superpassword : Bytes

-- A value that is found takes the place of the caller's.
unfoldable pub assign : {A : Type 0} → Option A → A → A
assign none old = old
assign (some new) old = new

-- The options are validated.
unfoldable pub checked : Result Settings → Result Settings
unfolding validate_options_in_deployment
checked configured = do s ← configured; _ ← validate_options_in_deployment s.options; ok s

module _ (r : Rapidjson) (jsondoc : Value) where
  -- The port is read twice: the first time it is checked, the second time it is assigned.
  unfoldable pub configure_database : Connection → Result Connection
  unfolding get_int get_required port_or_default is_port value_out_of_range assign
  configure_database info = do
    let target = codes "/ldp_database/"
    dbname ← get_required r jsondoc (target ++ codes "database_name")
    dbhost ← get_required r jsondoc (target ++ codes "database_host")
    found ← get_int r jsondoc (target ++ codes "database_port") true
    port ← port_or_default (target ++ codes "database_port") found
    again ← get_int r jsondoc (target ++ codes "database_port") true
    dbuser ← get_required r jsondoc (target ++ codes "database_user")
    dbpasswd ← get_required r jsondoc (target ++ codes "database_password")
    dbsslmode ← get_required r jsondoc (target ++ codes "database_sslmode")
    ok (record {
      dbname = dbname;
      dbhost = dbhost;
      dbport = assign again port;
      dbuser = dbuser;
      dbpasswd = dbpasswd;
      dbsslmode = dbsslmode;
    })

  unfoldable pub configure_users : Settings → Result Settings
  unfolding get assign
  configure_users s = do
    let target = codes "/ldp_database/"
    superuser ← get r jsondoc (target ++ codes "database_super_user")
    superpassword ← get r jsondoc (target ++ codes "database_super_password")
    ldpconfig_user ← get r jsondoc (target ++ codes "ldpconfig_user")
    ldp_user ← get r jsondoc (target ++ codes "ldp_user")
    ok (record s {
      superuser = assign superuser s.superuser;
      superpassword = assign superpassword s.superpassword;
      options = record s.options {
        ldpconfig_user = assign ldpconfig_user s.options.ldpconfig_user;
        ldp_user = assign ldp_user s.options.ldp_user;
      };
    })

  unfoldable pub configure_flags : Options → Result Options
  unfolding get_bool assign
  configure_flags opt = do
    anonymize ← get_bool r jsondoc (codes "/anonymize")
    index_large_varchar ← get_bool r jsondoc (codes "/index_large_varchar")
    record_history ← get_bool r jsondoc (codes "/record_history")
    all_indexes ← get_bool r jsondoc (codes "/all_indexes")
    parallel_vacuum ← get_bool r jsondoc (codes "/parallel_vacuum")
    parallel_update ← get_bool r jsondoc (codes "/parallel_update")
    allow_destructive_tests ← get_bool r jsondoc (codes "/allow_destructive_tests")
    ok (record opt {
      anonymize = assign anonymize opt.anonymize;
      index_large_varchar = assign index_large_varchar opt.index_large_varchar;
      record_history = assign record_history opt.record_history;
      all_indexes = assign all_indexes opt.all_indexes;
      parallel_vacuum = assign parallel_vacuum opt.parallel_vacuum;
      parallel_update = assign parallel_update opt.parallel_update;
      allow_destructive_tests = assign allow_destructive_tests opt.allow_destructive_tests;
    })

  -- `if (opt->load_from_dir == "") conf.get_enable_sources(...)`, on the fuel of that loop.
  unfoldable pub configure_sources : ℕ → Options → Option (Result (List DataSource))
  unfolding get_enable_sources
  configure_sources fuel opt =
      if equal opt.load_from_dir []
      then get_enable_sources r jsondoc fuel
      else some (ok opt.enable_sources)

  -- `config_options`, with the sources that are enabled.
  unfoldable pub configure : Result (List DataSource) → Settings → Result Settings
  unfolding get_required config_set_environment configure_database configure_users configure_flags
  configure sources s = do
    deploy_env ← get_required r jsondoc (codes "/deployment_environment")
    env ← config_set_environment deploy_env
    dbinfo ← configure_database s.dbinfo
    named ←
        configure_users
          (record s { dbinfo = dbinfo; options = record s.options { deploy_env = env } })
    enable_sources ← sources
    options ← configure_flags (record named.options { enable_sources = enable_sources })
    ok (record named { options = options })

  unfoldable pub config_options : ℕ → Settings → Option (Result Settings)
  unfolding configure_sources configure
  config_options fuel s = elim (configure_sources fuel s.options) [
    | none ↦ none
    | some sources ↦ some (configure sources s)
  ]

  -- The options that `ldp_exec` carries out a command with.
  unfoldable pub prepare : ℕ → Settings → Option (Result Settings)
  unfolding config_options checked
  prepare fuel s = elim (config_options fuel s) [
    | none ↦ none
    | some configured ↦ some (checked configured)
  ]
