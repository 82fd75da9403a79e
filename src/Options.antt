-- ===== src/Options.antt =====
-- src/options.h and src/options.cpp: the options of a run and the command line; and the check of
-- the options in src/ldp.cpp. `getopt_long` is not modelled: a run of it is the list of the options
-- that it hands out. An argument of `--okapi-timeout` stands as the number that `stoi` reads.
pub mod Deployment
pub mod Timeout
use ldp.Base.{
  ℕ, Bool, true, false, not, ◌&&◌, ◌||◌, List, [], ◌∷◌, ◌++◌, if◌then◌else◌, ltb, Bytes, codes,
  equal, Result, ok, runtime_error, ◌>>=◌, ◌>>◌, throw_if,
}
use ldp.Json.{ℤ, pos, negsuc}
use ldp.Log.{Level, debug, trace, detail}

pub data Command : Type 0 where
  server upgrade_database list_tables list_privileges init_database update update_users help :
      Command

pub data Profile : Type 0 where
  folio no_profile : Profile

pub data Environment : Type 0 where
  production staging testing development : Environment

pub record DirectExtraction : Type 0 where
  pub table_names : List Bytes
  pub database_name : Bytes
  pub database_host : Bytes
  pub database_port : ℤ
  pub database_user : Bytes
  pub database_password : Bytes

pub record DataSource : Type 0 where
  pub source_name : Bytes
  pub okapi_tenant : Bytes
  pub direct : DirectExtraction

-- The fields that are never set, and the connection's, are left out.
pub record Options : Type 0 where
  pub command : Command
  pub set_profile : Profile
  pub cli_mode : Bool
  pub datadir : Bytes
  pub extract_only : Bool
  pub load_from_dir : Bytes
  pub enable_sources : List DataSource
  pub deploy_env : Environment
  pub ldp_user : Bytes
  pub ldpconfig_user : Bytes
  pub table : Bytes
  pub anonymize : Bool
  pub record_history : Bool
  pub all_indexes : Bool
  pub parallel_vacuum : Bool
  pub parallel_update : Bool
  pub index_large_varchar : Bool
  pub savetemps : Bool
  pub verbose : Bool
  pub debug_option : Bool
  pub lg_level : Level
  pub console : Bool
  pub quiet : Bool
  pub single_process : Bool
  pub direct_extraction_no_ssl : Bool
  pub okapi_timeout : ℤ
  pub page_size : ℕ
  pub allow_destructive_tests : Bool

-- The initial values; `command` and `deploy_env` have none, and are given.
abbrev pub default_options : Command → Environment → Options
default_options command deploy_env = record {
  command = command;
  set_profile = folio;
  cli_mode = false;
  datadir = [];
  extract_only = false;
  load_from_dir = [];
  enable_sources = [];
  deploy_env = deploy_env;
  ldp_user = codes "ldp";
  ldpconfig_user = codes "ldpconfig";
  table = [];
  anonymize = true;
  record_history = true;
  all_indexes = false;
  parallel_vacuum = true;
  parallel_update = true;
  index_large_varchar = false;
  savetemps = false;
  verbose = false;
  debug_option = false;
  lg_level = debug;
  console = false;
  quiet = false;
  single_process = true;
  direct_extraction_no_ssl = false;
  okapi_timeout = pos 60;
  page_size = 1000;
  allow_destructive_tests = false;
}

unfoldable pub config_set_profile : Bytes → Result Profile
config_set_profile s =
    if equal s (codes "folio")
    then ok folio
    else if equal s []
    then ok no_profile
    else runtime_error (codes "Unknown profile: " ++ s)

unfoldable pub config_set_command : Bytes → Result Command
config_set_command s =
    if equal s (codes "server")
    then ok server
    else if equal s (codes "upgrade-database")
    then ok upgrade_database
    else if equal s (codes "list-tables")
    then ok list_tables
    else if equal s (codes "list-privileges")
    then ok list_privileges
    else if equal s (codes "init-database")
    then ok init_database
    else if equal s (codes "update")
    then ok update
    else if equal s (codes "update-users")
    then ok update_users
    else if equal s (codes "help") || equal s []
    then ok help
    else runtime_error (codes "Unknown command: " ++ s)

unfoldable pub config_set_environment : Bytes → Result Environment
config_set_environment s =
    if equal s (codes "production")
    then ok production
    else if equal s (codes "staging")
    then ok staging
    else if equal s (codes "testing")
    then ok testing
    else if equal s (codes "development")
    then ok development
    else runtime_error (codes "Unknown deployment environment: " ++ s)

-- What `getopt_long` hands out, by its code and the name of a long option.
pub data Given : Type 0 where
  long_option : Bytes → Bytes → ℤ → Given
  datadir_option : Bytes → Given
  verbose_option : Given
  help_option : Given

-- `if (opt->okapi_timeout < 1) opt->okapi_timeout = 1;`
at_least_one : ℤ → ℤ
at_least_one (pos n) = if ltb n 1 then pos 1 else pos n
at_least_one (negsuc n) = pos 1

-- The name of the option, its argument, and the argument as a number.
unfoldable pub evaloptlong : Bytes → Bytes → ℤ → Options → Result Options
unfolding at_least_one
evaloptlong name arg n opt =
    if equal name (codes "extract-only")
    then ok (record opt { extract_only = true })
    else if equal name (codes "sourcedir")
    then ok (record opt { load_from_dir = arg })
    else if equal name (codes "table")
    then ok (record opt { table = arg })
    else if equal name (codes "profile")
    then config_set_profile arg >>= (λ p. ok (record opt { set_profile = p }))
    else if equal name (codes "savetemps")
    then ok (record opt { savetemps = true })
    else if equal name (codes "debug")
    then ok (record opt { debug_option = true })
    else if equal name (codes "trace")
    then ok (record opt { lg_level = trace })
    else if equal name (codes "detail")
    then ok (record opt { lg_level = detail })
    else if equal name (codes "console")
    then ok (record opt { console = true })
    else if equal name (codes "quiet")
    then ok (record opt { quiet = true })
    else if equal name (codes "direct-extraction-no-ssl")
    then ok (record opt { direct_extraction_no_ssl = true })
    else if equal name (codes "okapi-timeout")
    then ok (record opt { okapi_timeout = at_least_one n })
    else ok opt

eval_given : Given → Options → Result Options
eval_given (long_option name arg n) opt = evaloptlong name arg n opt
eval_given (datadir_option arg) opt = ok (record opt { datadir = arg })
eval_given verbose_option opt = ok (record opt { verbose = true })
eval_given help_option opt = ok opt

eval_all : List Given → Options → Result Options
unfolding eval_given
eval_all [] opt = ok opt
eval_all (g ∷ gs) opt = eval_given g opt >>= eval_all gs

is_server : Command → Bool
is_server server = true
is_server _ = false

-- `evalopt` where `getopt_long` meets no error and no further arguments are left.
unfoldable pub evalopt : Bytes → List Given → Options → Result Options
unfolding eval_all is_server
evalopt command_str given opt = do
  c ← config_set_command command_str
  eval_all given (record opt { command = c; cli_mode = opt.cli_mode || not (is_server c) })

-- `deploy_env != testing && deploy_env != development`
unfoldable pub is_live : Environment → Bool
is_live testing = false
is_live development = false
is_live _ = true

unfoldable pub validate_options_in_deployment : Options → Result (Unit {0})
validate_options_in_deployment opt = do
  _ ←
      throw_if (opt.extract_only && is_live opt.deploy_env)
        (codes "Extract-only option requires testing or development environment")
  _ ←
      throw_if (opt.savetemps && is_live opt.deploy_env)
        (codes "Savetemps option requires testing or development environment")
  _ ←
      throw_if (not (equal opt.load_from_dir []) && is_live opt.deploy_env)
        (codes "Loading from directory requires testing or development environment")
  throw_if (not (equal opt.load_from_dir []) && not opt.allow_destructive_tests)
      (codes "Loading from directory requires the allow_destructive_tests\nconfiguration setting")
