-- ===== src/Handler.antt =====
-- `JSONHandler` of src/stage.cpp: the parser's events of one page, the text of each record, and the
-- rows that are sent to COPY. What the handler writes to the log is left out; the counters of
-- records, `size_t`, do not wrap here.
pub mod Text
pub mod Page
pub mod Finish
pub mod Load
use ldp.Base.{
  ℕ, suc, ◌+◌, ◌-◌, Bool, true, false, ◌&&◌, List, [], ◌∷◌, ◌++◌, ltb, ◌==◌, if◌then◌else◌, Bytes,
  codes, c_str, length, to_string, Result, ok, ◌>>=◌, ◌>>◌,
}
use ldp.Fields.{FieldSet}
use ldp.Json.{ℤ, integer_to_string, Rapidjson, Value}
use ldp.JsonText.{encode_json}
use ldp.Records.{Job, FieldStats, process_json_record}
use ldp.Table.{ColumnSchema}
use ldp.Tuple.{write_tuple}

-- The calls of rapidjson's reader.
pub data Event : Type 0 where
  start_object end_object start_array end_array null : Event
  key string double : Bytes → Event
  int int64 : ℤ → Event
  uint uint64 : ℕ → Event
  bool : Bool → Event

-- What a handler is constructed with. `put_copy_data` is the call of libpq, which may throw.
pub record Env : Type 0 where
  pub rapidjson : Rapidjson
  pub put_copy_data : Bytes → Result (Unit {0})
  pub pass : ℕ
  pub table_name : Bytes
  pub columns : List ColumnSchema
  pub drop_fields : FieldSet

-- The fields that change, and `sent`: what COPY has been given.
pub record Handler : Type 0 where
  pub level : ℕ
  pub active : Bool
  pub record_text : Bytes
  pub stats : FieldStats
  pub record_count : ℕ
  pub total_record_count : ℕ
  pub copy_buffer : Bytes
  pub sent : Bytes

abbrev pub initial : FieldStats → Handler
initial stats = record {
  level = 0;
  active = false;
  record_text = [];
  stats = stats;
  record_count = 0;
  total_record_count = 0;
  copy_buffer = [];
  sent = [];
}

abbrev pub copy_buffer_size : ℕ
copy_buffer_size = 12500000

abbrev pub append_text : Handler → Bytes → Handler
append_text h t = record h { record_text = h.record_text ++ t }

pub end_copy_batch : Env → Handler → Result Handler
end_copy_batch env h = do
  env.put_copy_data h.copy_buffer
  ok (record h { sent = h.sent ++ h.copy_buffer; copy_buffer = [] })

-- A full buffer is sent before the next record is written.
pub make_room : Env → Handler → Result Handler
unfolding end_copy_batch
make_room env h =
    if ltb (copy_buffer_size - 2000000) (length h.copy_buffer)
    then (do h' ← end_copy_batch env h; ok (record h' { record_count = 0 }))
    else ok h

abbrev pub job : Env → Job
job env = record {
  rapidjson = env.rapidjson;
  table_name = env.table_name;
  collect_stats = env.pass == 1;
  drop_fields = env.drop_fields;
}

-- The second pass writes the record's row.
pub load_record : Env → Value → Handler → Result Handler
load_record env doc h = do
  h' ← make_room env h
  buffer ← write_tuple env.rapidjson env.columns doc h'.copy_buffer
  ok (record h' {
    copy_buffer = buffer;
    record_count = h'.record_count + 1;
    total_record_count = h'.total_record_count + 1;
  })

-- A whole record has been read.
pub finish_record : Env → Handler → Result Handler
finish_record env h =
    let parsed = env.rapidjson.parse (c_str h.record_text) in
    let (doc, stats') = process_json_record (job env) parsed h.stats in
    let counted = record h { stats = stats' } in
    if env.pass == 2 then load_record env doc counted else ok counted

on_start_object : Handler → Handler
on_start_object h =
    let next = record h { level = h.level + 1 } in
    if h.level == 2
    then record next { record_text = codes "{" }
    else if ltb 2 h.level
    then append_text next (codes "{")
    else next

on_end_object : Env → Handler → Result Handler
on_end_object env h =
    if h.level == 3
    then (do
      h' ← finish_record env (append_text h (codes "}"))
      ok (record h' { level = h'.level - 1 }))
    else if ltb 3 h.level
    then ok (record h { record_text = h.record_text ++ codes "},"; level = h.level - 1 })
    else ok (record h { level = h.level - 1 })

on_start_array : Handler → Handler
on_start_array h =
    let next = record h { level = h.level + 1 } in
    if h.level == 1
    then record next { active = true }
    else if ltb 1 h.level
    then append_text next (codes "[")
    else next

on_end_array : Env → Handler → Result Handler
on_end_array env h =
    if h.level == 2
    then (do
      h' ←
          if ltb 0 h.record_count && env.pass == 2
          then end_copy_batch env (record h { active = false })
          else ok (record h { active = false })
      ok (record h' { level = h'.level - 1 }))
    else if ltb 2 h.level
    then ok (record h { record_text = h.record_text ++ codes "],"; level = h.level - 1 })
    else ok (record h { level = h.level - 1 })

on_key : Bytes → Handler → Handler
on_key str h = append_text h (b'"' ∷ (encode_json str [] ++ codes "\":"))

-- The value handlers: text is added only inside a record.
on_value : Bytes → Handler → Handler
on_value text h = if h.active && ltb 2 h.level then append_text h text else h

unfoldable pub step : Env → Event → Handler → Result Handler
unfolding on_start_object on_end_object on_start_array on_end_array on_key on_value
step env start_object h = ok (on_start_object h)
step env end_object h = on_end_object env h
step env start_array h = ok (on_start_array h)
step env end_array h = on_end_array env h
step env (key str) h = ok (on_key str h)
step env (string str) h = ok (on_value (b'"' ∷ (encode_json str [] ++ codes "\",")) h)
step env (int i) h = ok (on_value (integer_to_string i ++ codes ",") h)
step env (uint u) h = ok (on_value (to_string u ++ codes ",") h)
step env (int64 i) h = ok (on_value (integer_to_string i ++ codes ",") h)
step env (uint64 u) h = ok (on_value (to_string u ++ codes ",") h)
step env (double d) h = ok (on_value (d ++ codes ",") h)
step env (bool b) h = ok (on_value (if b then codes "true," else codes "false,") h)
step env null h = ok (on_value (codes "null,") h)

-- `reader.Parse(is, handler)`, on the events of the input.
unfoldable pub run : Env → List Event → Handler → Result Handler
run env [] h = ok h
run env (e ∷ es) h = step env e h >>= run env es
