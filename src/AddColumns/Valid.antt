-- ===== src/AddColumns/Valid.antt =====
-- The statements that the optional columns give.
use ldp.Base.{
  Bool, true, false, List, [], ◌∷◌, Option, none, some, Bytes, codes, equal, All, Result, ok,
  runtime_error, >>=-eq-ok, Bool-cases, inl, inr, ◌≡◌, refl, ◌∙◌, arith, subst,
}
use ldp.TextUtil.{trim, lower_text, getline_tokens}
use ldp.Ident.{valid_ident}
use ldp.Ident.Lower.{valid_ident-lower}
use ldp.Ident.Shape.{IsIdent, valid_ident_iff}
use ldp.AddColumns.{
  AddedColumn, two_parts, parsing_error, check_ident, full_type, parse_line, add_column_sql,
  split_space, issue, add_lines, add_columns,
}

-- A name of a table, a name of a column and a type that are valid.
abbrev pub IsValid : AddedColumn → Type 0
IsValid c = IsIdent c.table × IsIdent c.column × (valid_ident c.datatype true ≡ true)

full_type-valid : (t : Bytes) → valid_ident t true ≡ true → valid_ident (full_type t) true ≡ true
unfolding full_type
full_type-valid t h = elim (Bool-cases (equal t (codes "varchar"))) [
  | inl e ↦ rw e (unfold valid_ident in refl)
  | inr e ↦ rw e h
]

check_ident-valid :
    (s : Bytes) (paren : Bool) {u : Unit {0}}
    → check_ident s paren ≡ ok u
    → valid_ident s paren ≡ true
unfolding check_ident
check_ident-valid s paren h = elim (Bool-cases (valid_ident s paren)) [
  | inl e ↦ e
  | inr e ↦ absurd (ground (arith, rw e at h))
]

lower-IsIdent : (s : Bytes) → valid_ident s false ≡ true → IsIdent (lower_text s)
lower-IsIdent s h = (valid_ident_iff (lower_text s)).0 (valid_ident-lower s false ∙ h)

parse_line-IsValid : (line : Bytes) (c : AddedColumn) → parse_line line ≡ ok c → IsValid c
unfolding parse_line
parse_line-IsValid line c h =
    let ((tc, ty), e0, h0) = >>=-eq-ok (two_parts (parsing_error line) (split_space line)) _ h in
    let (u1, e1, h1) = >>=-eq-ok (check_ident ty true) _ h0 in
    let ((t, k), e2, h2) =
      >>=-eq-ok (two_parts (parsing_error line) (getline_tokens b'.' tc [])) _ h1 in
    let (u3, e3, h3) = >>=-eq-ok (check_ident t false) _ h2 in
    let (u4, e4, h4) = >>=-eq-ok (check_ident k false) _ h3 in
    let same : record {
      table = lower_text t;
      column = lower_text k;
      datatype = full_type (lower_text ty);
    }
        ≡ c =
      cc in
    subst IsValid same (
      lower-IsIdent t (check_ident-valid t false e3),
      lower-IsIdent k (check_ident-valid k false e4),
      full_type-valid (lower_text ty) (valid_ident-lower ty true ∙ check_ident-valid ty true e1),
    )

-- A statement that adds a valid column.
abbrev pub IsAddColumn : Bytes → Type 0
IsAddColumn sql = (c : AddedColumn) × (sql ≡ add_column_sql c) × IsValid c

issue-valid :
    (r : Result AddedColumn) (rest : List Bytes × Result (Unit {0}))
    → ((c : AddedColumn) → r ≡ ok c → IsValid c)
    → All IsAddColumn rest.0
    → All IsAddColumn (issue r rest).0
unfolding issue
issue-valid (ok c) (statements, end) valid all = ((c, refl, valid c refl), all)
issue-valid (runtime_error e) rest valid all = tt

add_lines-valid : (lines : List Bytes) → All IsAddColumn (add_lines lines).0
unfolding add_lines
add_lines-valid [] = tt
add_lines-valid (l ∷ lines) = elim (Bool-cases (equal (trim l) [])) [
  | inl e ↦ rw e (add_lines-valid lines)
  | inr e ↦ rw e (
      issue-valid (parse_line (trim l)) (add_lines lines) (parse_line-IsValid (trim l))
        (add_lines-valid lines))
]

-- For every content of the file: each statement that is run adds one column of a valid type to one
-- table, and the names of the column and of the table are a letter or an underscore and then
-- letters, digits and underscores.
pub add_columns-valid : (file : Option Bytes) → All IsAddColumn (add_columns file).0
unfolding add_columns
add_columns-valid none = tt
add_columns-valid (some file) = add_lines-valid (getline_tokens b'\n' file [])
