-- ===== src/Examples/Records.antt =====
-- Examples on records and their statistics.
use ldp.Base.{
  true, List, [], ◌∷◌, ◌++◌, ◌==◌, some, Bytes, codes, c_str, equal, map, length, ok, All, ◌≡◌,
  refl, arith,
}
use ldp.Columns.Select.{called_for, observe, select_type-observe}
use ldp.Columns.{no_counts, select_type}
use ldp.DbType.Copy.{IsField}
use ldp.DbType.{encode_copy}
use ldp.Examples.{columns_example, job_example, parts, rapidjson_example, user}
use ldp.Fields.{comes_before, data_to_filter, find}
use ldp.Handler.Page.{page_events}
use ldp.Json.{Value, member, end, number, integer, double, object, string, pos, get_member}
use ldp.Paging.{page_is_empty, page_is_empty-page_events}
use ldp.Examples.Pointers.{example-SetsInPlace}
use ldp.Records.Clean.{IsClean, process_json_record-IsClean}
use ldp.Records.Order.{IsSorted, process_json_record-IsSorted}
use ldp.Records.Replaced.{HasPlainNames, replace_value}
use ldp.Records.Sorted.{process_json_record-replaced}
use ldp.Records.Stats.{counting, loading, process_json_record_passes}
use ldp.Records.{collect, modify, process_json_record, sort_value}
use ldp.Tuple.Row.{other_columns, row_text, write_tuple-row}
use ldp.Tuple.{column_field, data_field, record_id, write_row, write_tuple}

user-HasPlainNames : HasPlainNames (object user)
unfolding equal
user-HasPlainNames = (refl, refl, tt, (refl, refl, tt, tt))

process_json_record-IsClean_example :
    IsClean job_example [] (process_json_record job_example (object user) []).0
process_json_record-IsClean_example =
    process_json_record-IsClean job_example example-SetsInPlace (object user) [] user-HasPlainNames

process_json_record-replaced_example :
    process_json_record job_example (object user) []
    ≡ replace_value job_example (sort_value job_example [] (object user)) [] 0 true []
process_json_record-replaced_example =
    process_json_record-replaced job_example example-SetsInPlace (object user) [] user-HasPlainNames

process_json_record-IsSorted_example : IsSorted (process_json_record job_example (object user) []).0
process_json_record-IsSorted_example =
    process_json_record-IsSorted job_example example-SetsInPlace (object user) [] user-HasPlainNames

-- The name is dropped at its path.
name_dropped :
    (process_json_record job_example (object user) []).0
    ≡ object (member (codes "id") (string (codes "u1")) (member (codes "name") (string []) end))
unfolding process_json_record equal find data_to_filter collect modify parts comes_before c_str
name_dropped = refl

process_json_record_passes_example :
    ((process_json_record (counting job_example) (object user) []).0
      ≡ (process_json_record (loading job_example) (object user) []).0)
    × ((process_json_record (loading job_example) (object user) []).1 ≡ [])
process_json_record_passes_example = process_json_record_passes job_example (object user) [] []

abbrev numbers : List Value
numbers = number (integer (pos 1)) ∷ number (double (codes "0.5")) ∷ []

select_type-observe_example : select_type (observe numbers no_counts) ≡ called_for numbers
select_type-observe_example = select_type-observe numbers (omega arith)

double_IsField : (v : Value) → IsField (rapidjson_example.get_double v)
double_IsField v = ground arith

abbrev user_row : Bytes
user_row = write_row rapidjson_example (object user) columns_example [] (codes "u1")

user_written : write_tuple rapidjson_example columns_example (object user) [] ≡ ok user_row
unfolding write_tuple record_id get_member equal c_str
user_written = refl

write_tuple-row_example :
    (i : Bytes) × (record_id rapidjson_example (object user) ≡ some i)
    × (user_row
        ≡ []
          ++ row_text
              (encode_copy i
                ∷ map
                    (column_field rapidjson_example (object user))
                    (other_columns columns_example))
              (data_field rapidjson_example (object user)))
    × All IsField (
        encode_copy i
        ∷ map (column_field rapidjson_example (object user)) (other_columns columns_example))
    × IsField (data_field rapidjson_example (object user))
write_tuple-row_example =
    write_tuple-row rapidjson_example double_IsField columns_example (object user) [] user_written

page_is_empty-page_events_example :
    page_is_empty (page_events (codes "users") (user ∷ [])) ≡ (length (user ∷ []) == 0)
page_is_empty-page_events_example = page_is_empty-page_events (codes "users") (user ∷ [])
