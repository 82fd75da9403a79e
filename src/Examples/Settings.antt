-- ===== src/Examples/Settings.antt =====
-- Examples on the options, the configuration and the fields to drop.
use ldp.Base.{
  true, false, [], ◌∷◌, Option, none, some, Bytes, if◌then◌else◌, codes, c_str, equal, to_lower,
  to_string, Result, ok, ◌≡◌, ◌↔◌, refl,
}
use ldp.AddColumns.{split_space, two_parts}
use ldp.Config.{get_json_pointer, source_key}
use ldp.Configure.Held.{IsConfigured, prepare-IsConfigured}
use ldp.Configure.{Settings, prepare}
use ldp.DropFields.Kept.{read_drop_fields-Keeps}
use ldp.DropFields.{read_drop_fields}
use ldp.Fields.{FieldSet, find, insert}
use ldp.TextUtil.{getline_tokens, lower_text, trim}
use ldp.Examples.{rapidjson_example}
use ldp.Json.{Rapidjson, Value, boolean, integer, number, pos, string}
use ldp.Options.Deployment.{IsAllowed, validate_options_iff}
use ldp.Options.{
  Options, config_set_command, default_options, evalopt, evaloptlong, long_option, staging, testing,
  update, validate_options_in_deployment,
}

abbrev staging_options : Options
staging_options = default_options update staging

validate_options_iff_example :
    (validate_options_in_deployment staging_options ≡ ok tt) ↔ IsAllowed staging_options
validate_options_iff_example = validate_options_iff staging_options

abbrev short_timeout : Options
short_timeout = record staging_options { cli_mode = true; okapi_timeout = pos 1 }

short_timeout_read :
    evalopt
      (codes "update")
      (long_option (codes "okapi-timeout") (codes "0") (pos 0) ∷ [])
      staging_options
    ≡ ok short_timeout
unfolding evalopt config_set_command evaloptlong equal
short_timeout_read = refl

-- A configuration of one source, by its pointers.
abbrev config_example : Rapidjson
config_example = record rapidjson_example {
  pointer_get = λ path v.
      if equal path (codes "/enable_sources/0")
      then some (string (codes "main"))
      else if equal path (codes "/sources/main/okapi_tenant")
      then some (string (codes "diku"))
      else none;
}

-- The configuration of a database beside that of the source.
abbrev database_pointer : Bytes → Option Value
database_pointer path =
    if equal path (codes "/deployment_environment")
    then some (string (codes "testing"))
    else if equal path (codes "/ldp_database/database_name")
    then some (string (codes "ldp"))
    else if equal path (codes "/ldp_database/database_host")
    then some (string (codes "localhost"))
    else if equal path (codes "/ldp_database/database_port")
    then some (number (integer (pos 5433)))
    else if equal path (codes "/ldp_database/database_user")
    then some (string (codes "ldpadmin"))
    else if equal path (codes "/ldp_database/database_password")
    then some (string (codes "secret"))
    else if equal path (codes "/ldp_database/database_sslmode")
    then some (string (codes "require"))
    else if equal path (codes "/anonymize")
    then some (boolean false)
    else config_example.pointer_get path Value.null

abbrev full_config : Rapidjson
full_config = record rapidjson_example { pointer_get = λ path v. database_pointer path }

abbrev unset : Settings
unset = record {
  options = staging_options;
  dbinfo = record {
    dbname = [];
    dbhost = [];
    dbport = pos 0;
    dbuser = [];
    dbpasswd = [];
    dbsslmode = [];
  };
  superuser = [];
  superpassword = [];
}

abbrev configured : Settings
configured = record unset {
  options = record staging_options {
    deploy_env = testing;
    anonymize = false;
    enable_sources =
        record {
          source_name = codes "main";
          okapi_tenant = codes "diku";
          direct = record {
            table_names = [];
            database_name = [];
            database_host = [];
            database_port = pos 5432;
            database_user = [];
            database_password = [];
          };
        }
        ∷ [];
  };
  dbinfo = record {
    dbname = codes "ldp";
    dbhost = codes "localhost";
    dbport = pos 5433;
    dbuser = codes "ldpadmin";
    dbpasswd = codes "secret";
    dbsslmode = codes "require";
  };
}

configuration_read : prepare full_config Value.null 2 unset ≡ some (ok configured)
unfolding prepare equal c_str to_string
configuration_read = refl

full_config_ends : get_json_pointer full_config Value.null (source_key 1) ≡ none
unfolding get_json_pointer source_key equal c_str to_string
full_config_ends = refl

prepare-IsConfigured_example :
    (a : Result Settings) × (prepare full_config Value.null 2 unset ≡ some a)
    × ((s : Settings) → a ≡ ok s → IsConfigured full_config Value.null unset s)
prepare-IsConfigured_example = prepare-IsConfigured full_config Value.null 1 unset full_config_ends

abbrev anonymized : FieldSet
anonymized = (codes "user_users", codes "/personal") ∷ []

abbrev dropped : FieldSet
dropped = (codes "user_users", codes "/name") ∷ anonymized

drop_file_read : read_drop_fields (some (codes "User_users  /name\n\n")) anonymized ≡ ok dropped
unfolding read_drop_fields getline_tokens trim split_space two_parts lower_text to_lower insert find
    equal
drop_file_read = refl

personal_dropped : find anonymized (codes "user_users") (codes "/personal") ≡ true
unfolding find equal
personal_dropped = refl

read_drop_fields-Keeps_example : find dropped (codes "user_users") (codes "/personal") ≡ true
read_drop_fields-Keeps_example =
    read_drop_fields-Keeps (some (codes "User_users  /name\n\n")) anonymized dropped drop_file_read
      (codes "user_users") (codes "/personal") personal_dropped
