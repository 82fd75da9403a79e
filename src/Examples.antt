-- ===== src/Examples.antt =====
-- The theorems at concrete inputs: the data that the examples share, and the examples.
mod Text
mod Database
mod Settings
mod Pointers
mod Records
mod Staging
mod Upgrades
mod Update
mod Commands
use ldp.Base.{
  ℕ, ◌+◌, ◌==◌, equal, to_string, if◌then◌else◌, Bool, true, false, List, [], ◌∷◌, Option, none,
  some, Bytes, codes, Result, ok,
}
use ldp.Columns.{varchar}
use ldp.Fields.{FieldSet}
use ldp.Handler.{Env}
use ldp.Json.{
  ℤ, pos, Value, object, array, Items, nil, cons, string, Members, member, end, Rapidjson,
}
use ldp.Records.{Job}
use ldp.Table.{ColumnSchema}

-- A parser that finds one record whatever it is given, and printers that print little.
abbrev pub user : Members
user = member (codes "id") (string (codes "u1")) (member (codes "name") (string (codes "A\tB")) end)

-- The text up to the first slash, and the tokens behind.
unfoldable pub parts : Bytes → Bytes × List Bytes
parts [] = ([], [])
parts (c ∷ s) = let (t, ts) = parts s in if c == b'/' then ([], t ∷ ts) else (c ∷ t, ts)

-- The tokens of a pointer.
abbrev pub tokens : Bytes → List Bytes
tokens s = (parts s).1

abbrev pub set_member : Bytes → (Value → Value) → Members → Members
set_member t f end = end
set_member t f (member k v ms) =
    let later = member k v (set_member t f ms) in if equal t k then member k (f v) ms else later

abbrev pub set_item : Bytes → (Value → Value) → ℕ → Items → Items
set_item t f x nil = nil
set_item t f x (cons v xs) =
    let later = cons v (set_item t f (x + 1) xs) in
    if equal t (to_string x) then cons (f v) xs else later

-- A pointer that sets the value that it finds, and nothing where it finds none.
abbrev pub set_at : List Bytes → Value → Value → Value
set_at [] new v = new
set_at (t ∷ ts) new (object ms) = object (set_member t (set_at ts new) ms)
set_at (t ∷ ts) new (array xs) = array (set_item t (set_at ts new) 0 xs)
set_at (t ∷ ts) new v = v

abbrev pub rapidjson_example : Rapidjson
rapidjson_example = record {
  parse = λ text. object user;
  pretty = λ v. codes "{\n}";
  compact = λ v. codes "{}";
  pointer_get = λ path v. none;
  pointer_set = λ path new v. set_at (tokens path) new v;
  get_int = λ v. pos 0;
  get_bool = λ v. false;
  get_double = λ v. codes "0.5";
  exceeds_limit = λ v. false;
}

abbrev pub columns_example : List ColumnSchema
columns_example =
    record { name = codes "id"; type = varchar; length = 2; source_name = codes "id" }
    ∷ record { name = codes "name"; type = varchar; length = 3; source_name = codes "name" }
    ∷ []

abbrev pub drop_example : FieldSet
drop_example = (codes "user_users", codes "/name") ∷ []

abbrev pub env_example : Env
env_example = record {
  rapidjson = rapidjson_example;
  put_copy_data = λ data_text. ok tt;
  pass = 2;
  table_name = codes "user_users";
  columns = columns_example;
  drop_fields = drop_example;
}

abbrev pub job_example : Job
job_example = record {
  rapidjson = rapidjson_example;
  table_name = codes "user_users";
  collect_stats = true;
  drop_fields = drop_example;
}
