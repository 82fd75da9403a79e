-- ===== src/Config.antt =====
-- src/config.cpp: the settings of the configuration file, looked up by JSON pointers in the parsed
-- document. Values of type string and integer are found; what is read is given back in place of
-- being assigned, none where nothing is found. The constructor reads the file and is left out.
pub mod Lookup
pub mod Sources
use ldp.Base.{
  ℕ, zero, suc, ◌+◌, ◌-◌, ◌^◌, Bool, true, false, ◌&&◌, List, [], ◌∷◌, ◌++◌, Option, none, some,
  if◌then◌else◌, leb, Bytes, codes, c_str, to_string, Result, ok, runtime_error, ◌>>=◌,
}
use ldp.Json.{ℤ, pos, negsuc, Value, number, string, integer, Rapidjson, integer_to_string}
use ldp.Options.{DataSource, DirectExtraction}

invalid_data_type : Bytes → Bytes → Bytes
invalid_data_type key expected_type =
    codes "Invalid data type in configuration setting:\n    Key: "
    ++ key
    ++ codes "\n    Expected type: "
    ++ expected_type

unfoldable pub value_out_of_range : Bytes → Bytes → Bytes → Bytes
value_out_of_range key value range =
    codes "Value for configuration setting is out of range:\n    Key: "
    ++ key
    ++ codes "\n    Value: "
    ++ value
    ++ codes "\n    Range: "
    ++ range

required_value_not_found : Bytes → Bytes
required_value_not_found key = codes "Required configuration value not found:\n    Key: " ++ key

-- `IsInt`: the value fits an `int` of 32 bits.
fits_int : ℤ → Bool
fits_int (pos n) = leb n (2 ^ 31 - 1)
fits_int (negsuc n) = leb n (2 ^ 31 - 1)

-- No value under a key that may be missing.
not_found : {A : Type 0} → Bytes → Bool → Result (Option A)
not_found key true = runtime_error (required_value_not_found key)
not_found key false = ok none

-- `1 <= port && port <= 65535`
unfoldable pub is_port : ℤ → Bool
is_port (pos n) = leb 1 n && leb n 65535
is_port (negsuc n) = false

default_text : Option Bytes → Bytes
default_text none = []
default_text (some s) = s

-- The port that was found, or the default one.
unfoldable pub port_or_default : Bytes → Option ℤ → Result ℤ
unfolding is_port value_out_of_range
port_or_default key none = ok (pos 5432)
port_or_default key (some port) =
    if is_port port
    then ok port
    else runtime_error (value_out_of_range key (integer_to_string port) (codes "1 to 65535"))

-- A source in front of those behind it; its error comes first.
prepend_source :
    Result DataSource → Option (Result (List DataSource)) → Option (Result (List DataSource))
prepend_source (runtime_error e) rest = some (runtime_error e)
prepend_source (ok d) none = none
prepend_source (ok d) (some (runtime_error e)) = some (runtime_error e)
prepend_source (ok d) (some (ok ds)) = some (ok (d ∷ ds))

unfoldable pub source_key : ℕ → Bytes
source_key index = codes "/enable_sources/" ++ to_string index

module _ (r : Rapidjson) (jsondoc : Value) where
  unfoldable pub get_json_pointer : Bytes → Option Value
  get_json_pointer key = r.pointer_get (c_str key) jsondoc

  string_of : Bytes → Value → Result (Option Bytes)
  unfolding invalid_data_type
  string_of key (string s) = ok (some (c_str s))
  string_of key _ = runtime_error (invalid_data_type key (codes "string"))

  unfoldable pub get_string : Bytes → Bool → Result (Option Bytes)
  unfolding get_json_pointer string_of not_found required_value_not_found
  get_string key required = elim (get_json_pointer key) [
    | none ↦ not_found key required
    | some v ↦ string_of key v
  ]

  int_of : Bytes → Value → Result (Option ℤ)
  unfolding invalid_data_type fits_int
  int_of key (number (integer n)) =
      if fits_int n then ok (some n) else runtime_error (invalid_data_type key (codes "integer"))
  int_of key _ = runtime_error (invalid_data_type key (codes "integer"))

  unfoldable pub get_int : Bytes → Bool → Result (Option ℤ)
  unfolding get_json_pointer int_of not_found required_value_not_found
  get_int key required = elim (get_json_pointer key) [
    | none ↦ not_found key required
    | some v ↦ int_of key v
  ]

  -- The details of one source.
  read_source : Bytes → Result DataSource
  unfolding get_string get_int
  read_source source_name = do
    let prefix = codes "/sources/" ++ source_name ++ codes "/"
    tenant ← get_string (prefix ++ codes "okapi_tenant") true
    name ← get_string (prefix ++ codes "direct_database_name") false
    host ← get_string (prefix ++ codes "direct_database_host") false
    found ← get_int (prefix ++ codes "direct_database_port") false
    port ← port_or_default (prefix ++ codes "direct_database_port") found
    user ← get_string (prefix ++ codes "direct_database_user") false
    password ← get_string (prefix ++ codes "direct_database_password") false
    ok (record {
      source_name = source_name;
      okapi_tenant = default_text tenant;
      direct = record {
        table_names = [];
        database_name = default_text name;
        database_host = default_text host;
        database_port = port;
        database_user = default_text user;
        database_password = default_text password;
      };
    })

  -- A value of the array: the name of a source.
  named_source : Bytes → Value → Result DataSource
  unfolding read_source invalid_data_type
  named_source key (string s) = read_source (c_str s)
  named_source key _ = runtime_error (invalid_data_type key (codes "string"))

  -- The loop over the array, on fuel: none where the fuel has run out.
  sources_loop : ℕ → ℕ → Option (Result (List DataSource))
  sources_loop zero index = none
  sources_loop (suc fuel) index =
      let rest = sources_loop fuel (index + 1) in
      elim (get_json_pointer (source_key index)) [
        | none ↦ some (ok [])
        | some v ↦ prepend_source (named_source (source_key index) v) rest
      ]

  unfoldable pub get_enable_sources : ℕ → Option (Result (List DataSource))
  unfolding sources_loop prepend_source named_source read_source get_json_pointer source_key
      default_text
  get_enable_sources fuel = sources_loop fuel 0
