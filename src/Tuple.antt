-- ===== src/Tuple.antt =====
-- `writeTuple` of src/stage.cpp: a record as one row of COPY text. A document that is no object has
-- no members here, so that it ends in the error of a missing id; rapidjson asserts there.
pub mod Row
pub mod Append
use ldp.Base.{
  ℕ, ◌+◌, ◌-◌, Bool, true, false, List, [], ◌∷◌, ◌++◌, Option, none, some, leb, ltb, ◌==◌, ◌||◌,
  if◌then◌else◌, Bytes, codes, c_str, equal, length, Result, ok, runtime_error, ◌>>=◌,
}
use ldp.Columns.{ColumnType, bigint, boolean, id, numeric, timestamptz, varchar}
use ldp.DbType.{encode_copy}
use ldp.Json.{Value, Rapidjson, get_member, integer_to_string}
use ldp.Table.{ColumnSchema, TableSchema}

abbrev pub varchar_size : ℕ
varchar_size = 67108864

-- `column.source_name.find("/") != string::npos`
has_slash : Bytes → Bool
has_slash [] = false
has_slash (c ∷ s) = c == b'/' || has_slash s

module _ (r : Rapidjson) where
  pub json_value_to_string : Value → Bytes
  json_value_to_string Value.null = []
  json_value_to_string (Value.boolean b) = if b then codes "true" else codes "false"
  json_value_to_string (Value.number n) = r.get_double (Value.number n)
  json_value_to_string (Value.string s) = c_str s
  json_value_to_string _ = codes "INVALID"

  -- The field of a value that is there and not null; a text that is too long becomes NULL.
  pub text_field : Value → Bytes
  unfolding json_value_to_string
  text_field v =
      let s = encode_copy (json_value_to_string v) in
      if leb (varchar_size - 1) (length s) then codes "\\N" else s

  pub typed_field : ColumnType → Value → Bytes
  unfolding text_field
  typed_field bigint v = integer_to_string (r.get_int v)
  typed_field boolean v = if r.get_bool v then codes "1" else codes "0"
  typed_field numeric v = if r.exceeds_limit v then codes "0" else r.get_double v
  typed_field id v = text_field v
  typed_field timestamptz v = text_field v
  typed_field varchar v = text_field v

  -- A path is looked up with a pointer, and a name among the members.
  column_value : Value → ColumnSchema → Option Value
  unfolding has_slash
  column_value doc column =
      if has_slash column.source_name
      then r.pointer_get (b'/' ∷ c_str column.source_name) doc
      else get_member (c_str column.source_name) doc

  present_field : ColumnType → Option Value → Bytes
  present_field t none = codes "\\N"
  present_field t (some Value.null) = codes "\\N"
  present_field t (some v) = typed_field t v

  pub column_field : Value → ColumnSchema → Bytes
  unfolding column_value present_field
  column_field doc column = present_field column.type (column_value doc column)

  -- The loop over the columns; each field is followed by a tab.
  pub column_loop : Value → List ColumnSchema → Bytes → Bytes
  column_loop doc [] copy_buffer = copy_buffer
  column_loop doc (column ∷ columns) copy_buffer = column_loop doc columns (
      if equal column.name (codes "id")
      then copy_buffer
      else copy_buffer ++ (column_field doc column ++ b'\t' ∷ []))

  -- The record itself, printed with indentation if that fits, else without; else NULL.
  pub data_field : Value → Bytes
  data_field doc =
      let indented = encode_copy (r.pretty doc) in
      let compacted = encode_copy (r.compact doc) in
      if ltb (varchar_size - 1) (length indented)
      then (if ltb (varchar_size - 1) (length compacted) then codes "\\N" else compacted)
      else indented

  string_member : Bytes → Value → Option Bytes
  string_member name doc = elim (get_member name doc) [
    | some (Value.string s) ↦ some (c_str s)
    | _ ↦ none
  ]

  unfoldable pub record_id : Value → Option Bytes
  unfolding string_member
  record_id doc = elim (string_member (codes "id") doc) [
    | some s ↦ some s
    | none ↦ string_member (codes "notificationId") doc
  ]

  -- The buffer with the record's row behind it.
  pub write_row : Value → List ColumnSchema → Bytes → Bytes → Bytes
  write_row doc columns copy_buffer i =
      column_loop doc columns (copy_buffer ++ (encode_copy i ++ b'\t' ∷ []))
      ++ (data_field doc ++ b'\n' ∷ [])

  unfoldable pub write_tuple : List ColumnSchema → Value → Bytes → Result Bytes
  write_tuple columns doc copy_buffer = elim (record_id doc) [
    | none ↦ runtime_error (codes "required string field \"id\" not found in record")
    | some i ↦ ok (write_row doc columns copy_buffer i)
  ]
