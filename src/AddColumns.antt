-- ===== src/AddColumns.antt =====
-- src/addcolumns.cpp: the columns that the file `ldp_add_column.conf` asks for. The file is its
-- content, or none where it does not exist. An error of a statement is caught and dropped, so what
-- a run does is the list of its statements, up to the first line that does not parse.
pub mod Valid
use ldp.Base.{
  ℕ, Bool, true, false, not, List, [], ◌∷◌, ◌++◌, map, Option, none, some, if◌then◌else◌, Bytes,
  codes, equal, Result, ok, runtime_error, ◌>>=◌, throw_if,
}
use ldp.TextUtil.{trim, lower_text, getline_tokens}
use ldp.Ident.{valid_ident}

-- The tokens that are not empty when trimmed.
keep_words : List Bytes → List Bytes
keep_words [] = []
keep_words (t ∷ ts) =
    let word = trim t in if equal word [] then keep_words ts else word ∷ keep_words ts

unfoldable pub split_space : Bytes → List Bytes
unfolding keep_words
split_space line = keep_words (getline_tokens b' ' line [])

-- `if (split.size() != 2) throw`.
unfoldable pub two_parts : Bytes → List Bytes → Result (Bytes × Bytes)
two_parts message (a ∷ b ∷ []) = ok (a, b)
two_parts message _ = runtime_error message

parsing_error : Bytes → Bytes
parsing_error line = codes "adding column: parsing error: " ++ line

check_ident : Bytes → Bool → Result (Unit {0})
check_ident s allow_paren =
    throw_if (not (valid_ident s allow_paren))
      (codes "adding column: invalid character in \"" ++ s ++ codes "\"")

full_type : Bytes → Bytes
full_type datatype = if equal datatype (codes "varchar") then codes "varchar(1)" else datatype

pub record AddedColumn : Type 0 where
  pub table : Bytes
  pub column : Bytes
  pub datatype : Bytes

-- One line that is not blank.
unfoldable pub parse_line : Bytes → Result AddedColumn
unfolding check_ident parsing_error full_type
parse_line line = do
  (table_column, datatype) ← two_parts (parsing_error line) (split_space line)
  _ ← check_ident datatype true
  (table, column) ← two_parts (parsing_error line) (getline_tokens b'.' table_column [])
  _ ← check_ident table false
  _ ← check_ident column false
  ok (record {
    table = lower_text table;
    column = lower_text column;
    datatype = full_type (lower_text datatype);
  })

unfoldable pub add_column_sql : AddedColumn → Bytes
add_column_sql c =
    codes "ALTER TABLE public."
    ++ c.table
    ++ codes " ADD COLUMN \""
    ++ c.column
    ++ codes "\" "
    ++ c.datatype
    ++ codes ";"

-- The statement of a parsed line stands before those of the rest.
issue : Result AddedColumn → List Bytes × Result (Unit {0}) → List Bytes × Result (Unit {0})
issue (ok c) (statements, end) = (add_column_sql c ∷ statements, end)
issue (runtime_error e) rest = ([], runtime_error e)

add_lines : List Bytes → List Bytes × Result (Unit {0})
unfolding issue
add_lines [] = ([], ok tt)
add_lines (l ∷ lines) =
    let line = trim l in
    let rest = add_lines lines in if equal line [] then rest else issue (parse_line line) rest

unfoldable pub add_columns : Option Bytes → List Bytes × Result (Unit {0})
unfolding add_lines
add_columns none = ([], ok tt)
add_columns (some file) = add_lines (getline_tokens b'\n' file [])
