-- ===== src/Extract.antt =====
-- src/extract.cpp: the extraction of a table from the database of a source, and the files that it
-- writes. The database is what it answers to a query: rows, and the error that may end them. The
-- requests over HTTP are left out, and so is what is written to the log.
pub mod Files
pub mod Notes
use ldp.Base.{
  ℕ, zero, suc, ◌+◌, Bool, true, false, not, ◌||◌, List, [], ◌∷◌, ◌++◌, ◌==◌, Option, none, some,
  get_elem?, if◌then◌else◌, Bytes, codes, c_str, equal, to_string, Result, ok, runtime_error, ◌>>=◌,
}
use ldp.JsonText.{encode_json}
use ldp.Options.{DataSource}
use ldp.Table.{
  TableSchema, DataSourceType, direct_only, notes, notes_link, notes_note_link, rmb, srs_records,
  srs_marc_records, srs_error_records,
}
use ldp.TextUtil.{join, trim}

-- The fields of a row, none where they are NULL.
abbrev pub Row : Type 0
Row = List (Option Bytes)

-- What the database sends: its rows, and the error behind them, if it sends one.
pub record Answer : Type 0 where
  pub rows : List Row
  pub failure : Option Bytes

-- `PQgetisnull` and `PQgetvalue`: a field that the row does not have counts as NULL.
unfoldable pub value_at : Row → ℕ → Option Bytes
value_at [] i = none
value_at (v ∷ row) zero = v
value_at (v ∷ row) (suc i) = value_at row i

abbrev pub json_string : Option Bytes → Bytes
json_string none = codes "null"
json_string (some s) = b'"' ∷ (encode_json s [] ++ b'"' ∷ [])

abbrev pub json_number : Option Bytes → Bytes
json_number none = codes "null"
json_number (some s) = s

abbrev pub json_boolean : Option Bytes → Bytes
json_boolean none = codes "null"
json_boolean (some s) = if equal s (codes "t") then codes "true" else codes "false"

abbrev pub json_object : Option Bytes → Bytes
json_object none = codes "null"
json_object (some s) = s

-- The object that the functions write out member by member.
abbrev pub object_lines : List (Bytes × Bytes) → Bytes
object_lines [] = []
object_lines ((key, value) ∷ []) =
    codes "    \"" ++ (key ++ (codes "\": " ++ (value ++ codes "\n")))
object_lines ((key, value) ∷ (m ∷ ms)) =
    codes "    \"" ++ (key ++ (codes "\": " ++ (value ++ (codes ",\n" ++ object_lines (m ∷ ms)))))

abbrev pub object_text : List (Bytes × Bytes) → Bytes
object_text ms = codes "  {\n" ++ (object_lines ms ++ codes "  }")

retrieve_direct_rmb : Row → Bytes
retrieve_direct_rmb res = json_object (value_at res 1)

-- The members are put in front of those of the object that was read.
retrieve_direct_srs_marc : Row → Bytes → Result Bytes
retrieve_direct_srs_marc res source_spec = merged (trim (json_object (value_at res 1)))
  where
    refused : Result Bytes
    refused = runtime_error (codes "expected '{' in JSON data: " ++ source_spec)

    merged : Bytes → Result Bytes
    merged [] = refused
    merged (c ∷ jsonb) =
        if not (c == b'{')
        then refused
        else ok (
            codes "{\"id\": "
            ++ json_string (value_at res 0)
            ++ codes ","
            ++ codes "\"description\": "
            ++ json_string (value_at res 2)
            ++ codes ","
            ++ jsonb)

retrieve_direct_srs_records : Row → Bytes
retrieve_direct_srs_records res = object_text (
    (codes "id", json_string (value_at res 0))
    ∷ (codes "snapshotId", json_string (value_at res 1))
    ∷ (codes "matchedId", json_string (value_at res 2))
    ∷ (codes "generation", json_number (value_at res 3))
    ∷ (codes "recordType", json_string (value_at res 4))
    ∷ (codes "externalId", json_string (value_at res 5))
    ∷ (codes "state", json_string (value_at res 6))
    ∷ (codes "leaderRecordStatus", json_string (value_at res 7))
    ∷ (codes "order", json_number (value_at res 8))
    ∷ (codes "suppressDiscovery", json_boolean (value_at res 9))
    ∷ (codes "createdByUserId", json_string (value_at res 10))
    ∷ (codes "createdDate", json_string (value_at res 11))
    ∷ (codes "updatedByUserId", json_string (value_at res 12))
    ∷ (codes "updatedDate", json_string (value_at res 13))
    ∷ (codes "externalHrid", json_string (value_at res 14))
    ∷ [])

unfoldable pub retrieve_direct_notes : Row → Bytes
unfolding value_at
retrieve_direct_notes res = object_text (
    (codes "id", json_string (value_at res 0))
    ∷ (codes "title", json_string (value_at res 1))
    ∷ (codes "content", json_string (value_at res 2))
    ∷ (codes "indexedContent", json_string (value_at res 3))
    ∷ (codes "domain", json_string (value_at res 4))
    ∷ (codes "typeId", json_string (value_at res 5))
    ∷ (codes "popUpOnUser", json_boolean (value_at res 6))
    ∷ (codes "popUpOnCheckOut", json_boolean (value_at res 7))
    ∷ (codes "createdBy", json_string (value_at res 8))
    ∷ (codes "createdDate", json_string (value_at res 9))
    ∷ (codes "updatedBy", json_string (value_at res 10))
    ∷ (codes "updatedDate", json_string (value_at res 11))
    ∷ [])

retrieve_direct_notes_link : Row → Bytes
retrieve_direct_notes_link res = object_text (
    (codes "id", json_string (value_at res 0))
    ∷ (codes "objectId", json_string (value_at res 1))
    ∷ (codes "objectType", json_string (value_at res 2))
    ∷ [])

retrieve_direct_notes_note_link : Row → Bytes
retrieve_direct_notes_note_link res = object_text (
    (codes "id", json_string (value_at res 0))
    ∷ (codes "linkId", json_string (value_at res 1))
    ∷ [])

-- The switch over the kinds of tables; no other kind is there.
unfoldable pub retrieve_row : TableSchema → Row → Result Bytes
unfolding retrieve_direct_rmb retrieve_direct_srs_marc retrieve_direct_srs_records
    retrieve_direct_notes retrieve_direct_notes_link retrieve_direct_notes_note_link
retrieve_row table res = elim table.source_type [
  | direct_only ↦ ok (retrieve_direct_rmb res)
  | rmb ↦ ok (retrieve_direct_rmb res)
  | srs_marc_records ↦ retrieve_direct_srs_marc res table.source_spec
  | srs_error_records ↦ retrieve_direct_srs_marc res table.source_spec
  | srs_records ↦ ok (retrieve_direct_srs_records res)
  | notes ↦ ok (retrieve_direct_notes res)
  | notes_link ↦ ok (retrieve_direct_notes_link res)
  | notes_note_link ↦ ok (retrieve_direct_notes_note_link res)
]

-- The list of the SELECT.
unfoldable pub select_list : DataSourceType → Bytes → Bytes
select_list srs_marc_records instance_name = codes "id, content"
select_list srs_error_records instance_name = codes "id, content, description"
select_list srs_records instance_name =
    codes "id, snapshot_id, matched_id, generation, record_type, "
    ++ instance_name
    ++ codes
        "_id, state, leader_record_status, \"order\", suppress_discovery, created_by_user_id, created_date, updated_by_user_id, updated_date, "
    ++ instance_name
    ++ codes "_hrid"
select_list notes instance_name =
    codes
      "id,title,content,indexed_content,domain,type_id,pop_up_on_user,pop_up_on_user,created_by,created_date,updated_by,updated_date"
select_list notes_link instance_name = codes "id,object_id,object_type"
select_list notes_note_link instance_name = codes "note_id AS id,link_id"
select_list _ instance_name = codes "'' AS id, jsonb"

abbrev pub query_sql : DataSource → TableSchema → Bytes → Bytes
query_sql source table instance_name =
    codes "SELECT "
    ++ select_list table.source_type instance_name
    ++ codes " FROM "
    ++ source.okapi_tenant
    ++ codes "_"
    ++ table.direct_source_table
    ++ codes ";"

-- The loop over the rows, the first of which is row `row`: what is printed.
unfoldable pub print_rows : TableSchema → ℕ → List Row → Option Bytes → Result Bytes
unfolding retrieve_row
print_rows table row [] none = ok []
print_rows table row [] (some e) = runtime_error e
print_rows table row (res ∷ rows) failure = do
  j ← retrieve_row table res
  rest ← print_rows table (row + 1) rows failure
  ok ((if row == 0 then [] else codes ",\n") ++ (c_str j ++ (codes "\n" ++ rest)))

-- A file that is written, with its content.
abbrev pub WrittenFiles : Type 0
WrittenFiles = List (Bytes × Bytes)

abbrev pub output_path : DataSource → TableSchema → Bytes → Bytes → Bytes
output_path source table load_dir suffix =
    join load_dir table.name ++ (codes "_" ++ (source.source_name ++ suffix))

abbrev pub write_count_file : DataSource → TableSchema → Bytes → ℕ → Bytes × Bytes
write_count_file source table load_dir page =
    (output_path source table load_dir (codes "_count.txt"), to_string page ++ codes "\n")

abbrev pub file_start : Bytes
file_start = codes "{\n  \"a\": [\n"

-- The files behind the loop; without a row, the page is left unfinished and has no count.
abbrev pub finish_files : DataSource → TableSchema → Bytes → List Row → Bytes → Bool × WrittenFiles
finish_files source table load_dir [] text =
    (false, (output_path source table load_dir (codes "_0.json"), file_start ++ text) ∷ [])
finish_files source table load_dir (res ∷ rows) text = (
  true,
  (output_path source table load_dir (codes "_0.json"), file_start ++ (text ++ codes "\n  ]\n}\n"))
      ∷ write_count_file source table load_dir 1
      ∷ [],
)

unfoldable pub try_retrieve_direct :
    (Bytes → Answer) → DataSource → TableSchema → Bytes → Bytes → Result (Bool × WrittenFiles)
unfolding print_rows select_list
try_retrieve_direct query source table load_dir instance_name =
    let answer = query (query_sql source table instance_name) in
    if equal table.direct_source_table [] then ok (false, []) else (do
      text ← print_rows table 0 answer.rows answer.failure
      ok (finish_files source table load_dir answer.rows text))

-- What was found, with the table as it is set then.
with_table : TableSchema → Result (Bool × WrittenFiles) → Result (TableSchema × Bool × WrittenFiles)
with_table table (ok (found, written)) = ok (table, found, written)
with_table table (runtime_error e) = runtime_error e

-- The second query, where the first one ended in an error.
or_else :
    Result (TableSchema × Bool × WrittenFiles)
    → Result (TableSchema × Bool × WrittenFiles)
    → Result (TableSchema × Bool × WrittenFiles)
or_else (ok w) other = ok w
or_else (runtime_error e) other = other

-- The older table of the notes.
note_data : TableSchema → TableSchema
note_data table = record table {
  source_type = rmb;
  direct_source_table = codes "mod_notes.note_data";
}

-- The table that is returned is the one that the code has changed.
unfoldable pub retrieve_direct :
    (Bytes → Answer) → DataSource → TableSchema → Bytes → Result (TableSchema × Bool × WrittenFiles)
unfolding try_retrieve_direct or_else with_table note_data
retrieve_direct query source table load_dir = elim table.source_type [
  | notes ↦ or_else (with_table table (try_retrieve_direct query source table load_dir [])) (
      with_table (note_data table) (try_retrieve_direct query source (note_data table) load_dir []))
  | srs_records ↦
      or_else
        (with_table table (try_retrieve_direct query source table load_dir (codes "external")))
        (with_table table (try_retrieve_direct query source table load_dir (codes "instance")))
  | _ ↦ with_table table (try_retrieve_direct query source table load_dir [])
]
