-- ===== src/DropFields.antt =====
-- src/dropfields.cpp: the fields that the file `ldp_drop_field.conf` names. The file is its
-- content, or none where it does not exist.
pub mod Kept
use ldp.Base.{
  List, [], ◌∷◌, ◌++◌, Option, none, some, if◌then◌else◌, Bytes, codes, equal, Result, ok, ◌>>=◌,
}
use ldp.TextUtil.{trim, lower_text, getline_tokens}
use ldp.Fields.{FieldSet, insert}
use ldp.AddColumns.{split_space, two_parts}

-- One line that is not blank: the name of the table becomes lower case, the field stays.
drop_line : Bytes → FieldSet → Result FieldSet
drop_line line fields = do
  (table, field) ← two_parts (codes "drop field list: parsing error: " ++ line) (split_space line)
  ok (insert (lower_text table) field fields)

drop_lines : List Bytes → FieldSet → Result FieldSet
unfolding drop_line
drop_lines [] fields = ok fields
drop_lines (l ∷ lines) fields =
    let line = trim l in
    let blank = drop_lines lines fields in
    let read = drop_line line fields >>= drop_lines lines in if equal line [] then blank else read

unfoldable pub read_drop_fields : Option Bytes → FieldSet → Result FieldSet
unfolding drop_lines
read_drop_fields none fields = ok fields
read_drop_fields (some file) fields = drop_lines (getline_tokens b'\n' file []) fields
