-- ===== src/DbType/Const.antt =====
-- `encode_string_const`: a text as an SQL string constant.
use mathlib.Core.List.{flat_map}
use ldp.Base.{
  ℕ, [], ◌∷◌, ◌++◌, append_assoc, append-nil, Option, none, some, ◌==◌, if◌then◌else◌, Bytes, c_str,
  equal, ◌&&◌, ◌≡◌, ◌≢◌, refl, sym, arith, ok,
}
use ldp.DbType.{
  DbSys, postgresql, redshift, unknown, str_char, str_loop, encode_string_const, set_type,
  type_string,
}

-- The character that a backslash and `c` stand for in an escape string constant.
const_escape : ℕ → ℕ
const_escape c =
    if c == b'b'
    then 8
    else if c == b'f'
    then 12
    else if c == b'n'
    then b'\n'
    else if c == b'r'
    then b'\r'
    else if c == b't'
    then b'\t'
    else c

pub data Mode : Type 0 where
  plain backslash quote : Mode

-- One more character in front of the text.
prepend : ℕ → Option (Bytes × Bytes) → Option (Bytes × Bytes)
prepend c none = none
prepend c (some (t, rest)) = some (c ∷ t, rest)

-- What stands behind the opening quote: the text of the constant and what follows its closing
-- quote. A quote ends the constant unless a second one follows it.
pub read_body : Mode → Bytes → Option (Bytes × Bytes)
read_body plain [] = none
read_body backslash [] = none
read_body quote [] = some ([], [])
read_body backslash (c ∷ s) = prepend (const_escape c) (read_body plain s)
read_body quote (c ∷ s) =
    let doubled = prepend b'\'' (read_body plain s) in
    if c == b'\'' then doubled else some ([], c ∷ s)
read_body plain (c ∷ s) =
    let escaped = read_body backslash s in
    let quoted = read_body quote s in
    let copied = prepend c (read_body plain s) in
    if c == b'\\' then escaped else if c == b'\'' then quoted else copied

-- An escape string constant, `E'…'`, at the front of a statement.
abbrev pub read_const : Bytes → Option (Bytes × Bytes)
read_const (e ∷ q ∷ s) = if e == b'E' && q == b'\'' then read_body plain s else none
read_const _ = none

str_loop-flat_map : (s out : Bytes) → str_loop s out ≡ out ++ flat_map str_char s
unfolding str_loop flat_map
str_loop-flat_map [] out = sym (append-nil out)
str_loop-flat_map (c ∷ s) out = simp (str_loop-flat_map s, append_assoc)

read_body-str_char :
    (c : ℕ) (rest : Bytes) → read_body plain (str_char c ++ rest) ≡ prepend c (read_body plain rest)
unfolding read_body str_char const_escape
read_body-str_char c rest = ground arith

-- The byte behind a constant is no quote.
abbrev pub EndsConst : Bytes → Type 0
EndsConst [] = Unit
EndsConst (c ∷ s) = c ≢ b'\''

read_body-end : (rest : Bytes) → EndsConst rest → read_body plain (b'\'' ∷ rest) ≡ some ([], rest)
unfolding read_body
read_body-end [] h = ground arith
read_body-end (c ∷ s) h = ground arith

read_body-flat_map :
    (s rest : Bytes)
    → EndsConst rest
    → read_body plain (flat_map str_char s ++ b'\'' ∷ rest) ≡ some (s, rest)
unfolding flat_map prepend
read_body-flat_map [] rest h = read_body-end rest h
read_body-flat_map (c ∷ s) rest h =
    rw (append_assoc, read_body-str_char, read_body-flat_map s rest h)

-- On PostgreSQL, a text in an SQL statement is read back from its constant, up to the first zero
-- byte, and the constant ends where it is meant to: whatever the text holds, the statement behind
-- it is untouched, if that does not begin with a quote.
pub read_const-encode_string_const :
    (str rest : Bytes)
    → EndsConst rest
    → read_const (encode_string_const postgresql str ++ rest) ≡ some (c_str str, rest)
unfolding encode_string_const
read_const-encode_string_const str rest h =
    simp (str_loop-flat_map, append_assoc) (read_body-flat_map (c_str str) rest h)

-- Each of the two known systems is set by its own name.
set_type-type_string : (d : DbSys) → d ≢ unknown → set_type (type_string d) ≡ ok d
unfolding type_string equal
set_type-type_string postgresql h = refl
set_type-type_string redshift h = refl
set_type-type_string unknown h = absurd (h refl)
