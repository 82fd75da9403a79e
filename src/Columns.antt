-- ===== src/Columns.antt =====
-- `type_counts` and `column_schema` of src/schema.h and src/schema.cpp, and the counting of a value
-- in `process_json_record` of src/stage.cpp. The counters are 32 bits wide and wrap around.
pub mod Select
pub mod Width
use ldp.Base.{
  ℕ, ◌+◌, ◌%◌, ◌^◌, Bool, true, false, ◌&&◌, ◌||◌, [], ◌∷◌, ◌++◌, ◌==◌, ltb, if◌then◌else◌, Bytes,
  codes, c_str, length, is_digit, List,
}
use ldp.Json.{Number, Value}
use ldp.Util.{is_uuid}

pub data ColumnType : Type 0 where
  bigint boolean id numeric timestamptz varchar : ColumnType

pub record TypeCounts : Type 0 where
  pub string : ℕ
  pub date_time : ℕ
  pub number : ℕ
  pub integer : ℕ
  pub floating : ℕ
  pub boolean : ℕ
  pub null : ℕ
  pub uuid : ℕ
  pub max_length : ℕ

abbrev pub no_counts : TypeCounts
no_counts = record {
  string = 0;
  date_time = 0;
  number = 0;
  integer = 0;
  floating = 0;
  boolean = 0;
  null = 0;
  uuid = 0;
  max_length = 0;
}

unfoldable pub type_to_string : ColumnType → Bytes
type_to_string bigint = codes "BIGINT"
type_to_string boolean = codes "BOOLEAN"
type_to_string numeric = codes "NUMERIC(12,2)"
type_to_string timestamptz = codes "TIMESTAMPTZ"
type_to_string id = codes "UUID"
type_to_string varchar = codes "VARCHAR"

-- The warnings that `select_type` writes about mixed types.
abbrev pub type_warnings : TypeCounts → List Bytes
type_warnings counts =
    (if ltb 0 counts.string && ltb 0 counts.boolean then codes "boolean,string" ∷ [] else [])
    ++ (if ltb 0 counts.string && ltb 0 counts.number then codes "number,string" ∷ [] else [])

-- The type that is selected. (The source returns true on every path.)
unfoldable pub select_type : TypeCounts → ColumnType
select_type counts =
    if ltb 0 counts.string
    then (if counts.string == counts.uuid
        then id
        else if counts.string == counts.date_time
        then timestamptz
        else varchar)
    else if ltb 0 counts.number
    then (if ltb 0 counts.floating then numeric else bigint)
    else if ltb 0 counts.boolean
    then boolean
    else varchar

-- `unsigned int`.
abbrev pub uint_mod : ℕ
uint_mod = 2 ^ 32

abbrev increment : ℕ → ℕ
increment n = (n + 1) % uint_mod

-- One position of the pattern of `looks_like_date_time`.
pub data Piece : Type 0 where
  digit time_mark : Piece
  exactly : ℕ → Piece

matches_piece : Piece → ℕ → Bool
matches_piece digit c = is_digit c
matches_piece time_mark c = c == b'T' || c == b' '
matches_piece (exactly b) c = c == b

-- `\d{4}-\d{2}-\d{2}[T ]\d{2}:\d{2}:\d{2}`
abbrev date_time_pattern : List Piece
date_time_pattern =
    digit
    ∷ digit
    ∷ digit
    ∷ digit
    ∷ exactly b'-'
    ∷ digit
    ∷ digit
    ∷ exactly b'-'
    ∷ digit
    ∷ digit
    ∷ time_mark
    ∷ digit
    ∷ digit
    ∷ exactly b':'
    ∷ digit
    ∷ digit
    ∷ exactly b':'
    ∷ digit
    ∷ digit
    ∷ []

matches_prefix : List Piece → Bytes → Bool
unfolding matches_piece
matches_prefix [] s = true
matches_prefix (p ∷ ps) [] = false
matches_prefix (p ∷ ps) (c ∷ s) = matches_piece p c && matches_prefix ps s

-- The pattern is anchored at the front, so the search is a match of a prefix.
unfoldable pub looks_like_date_time : Bytes → Bool
unfolding matches_prefix c_str
looks_like_date_time str = matches_prefix date_time_pattern (c_str str)

count_string : Bytes → TypeCounts → TypeCounts
count_string s counts =
    let slen = length (c_str s) in
    record counts {
      string = increment counts.string;
      uuid = if is_uuid s then increment counts.uuid else counts.uuid;
      date_time = if looks_like_date_time s then increment counts.date_time else counts.date_time;
      max_length = if ltb counts.max_length slen then slen % uint_mod else counts.max_length;
    }

count_number : Number → TypeCounts → TypeCounts
count_number (Number.integer z) counts = record counts {
  number = increment counts.number;
  integer = increment counts.integer;
}
count_number (Number.double d) counts = record counts {
  number = increment counts.number;
  floating = increment counts.floating;
}

-- What the statistics of a field become when a value of the field is seen.
unfoldable pub count_value : Value → TypeCounts → TypeCounts
unfolding count_string count_number
count_value Value.null counts = record counts { null = increment counts.null }
count_value (Value.boolean b) counts = record counts { boolean = increment counts.boolean }
count_value (Value.number n) counts = count_number n counts
count_value (Value.string s) counts = count_string s counts
count_value (Value.array xs) counts = counts
count_value (Value.object ms) counts = counts
