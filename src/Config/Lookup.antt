-- ===== src/Config/Lookup.antt =====
-- src/config.cpp: the older lookups of the settings. Where nothing is found, `get`, `get_bool` and
-- `old_get_int` leave the value of the caller alone: they give none, and the caller keeps its own.
use ldp.Base.{
  Bool, [], ◌++◌, Option, none, some, if◌then◌else◌, Bytes, codes, c_str, Result, ok, runtime_error,
  ◌>>=◌,
}
use ldp.Config.{fits_int, get_json_pointer}
use ldp.Json.{ℤ, Value, boolean, number, string, integer, Rapidjson}

unexpected_data_type : Bytes → Bytes → Bytes
unexpected_data_type key expected_type =
    codes "Unexpected data type in configuration setting:\n    Key: "
    ++ key
    ++ codes "\n    Expected type: "
    ++ expected_type

text_of : Bytes → Option Value → Result (Option Bytes)
unfolding unexpected_data_type
text_of key none = ok none
text_of key (some (string s)) = ok (some (c_str s))
text_of key (some _) = runtime_error (unexpected_data_type key (codes "string"))

unfoldable pub bool_of : Bytes → Option Value → Result (Option Bool)
unfolding unexpected_data_type
bool_of key none = ok none
bool_of key (some (boolean b)) = ok (some b)
bool_of key (some _) = runtime_error (unexpected_data_type key (codes "Boolean"))

old_int_of : Bytes → Option Value → Result (Option ℤ)
unfolding unexpected_data_type fits_int
old_int_of key none = ok none
old_int_of key (some (number (integer n))) =
    if fits_int n then ok (some n) else runtime_error (unexpected_data_type key (codes "integer"))
old_int_of key (some _) = runtime_error (unexpected_data_type key (codes "integer"))

required : Bytes → Option Bytes → Result Bytes
required key none = runtime_error (codes "Configuration value not found: " ++ key)
required key (some s) = ok s

module _ (r : Rapidjson) (jsondoc : Value) where
  unfoldable pub get : Bytes → Result (Option Bytes)
  unfolding text_of get_json_pointer
  get key = text_of key (get_json_pointer r jsondoc key)

  unfoldable pub get_bool : Bytes → Result (Option Bool)
  unfolding bool_of get_json_pointer
  get_bool key = bool_of key (get_json_pointer r jsondoc key)

  unfoldable pub old_get_int : Bytes → Result (Option ℤ)
  unfolding old_int_of get_json_pointer
  old_get_int key = old_int_of key (get_json_pointer r jsondoc key)

  unfoldable pub get_required : Bytes → Result Bytes
  unfolding get required
  get_required key = get key >>= required key

  -- `value->clear()` where nothing is found.
  unfoldable pub get_optional : Bytes → Result Bytes
  unfolding get
  get_optional key = get key >>= (λ found. ok (elim found [ none ↦ [] | some s ↦ s ]))
