-- ===== src/DbType/Copy.antt =====
-- `encode_copy`: the text of a field in the rows that are sent to COPY.
use mathlib.Core.List.{flat_map}
use ldp.Base.{
  ℕ, Bool, true, false, [], ◌∷◌, ◌++◌, append_assoc, append-nil, Option, none, some, ◌==◌,
  if◌then◌else◌, Bytes, codes, c_str, All, All-append, ◌≡◌, ◌≢◌, refl, sym, arith,
}
use ldp.DbType.{copy_char, copy_loop, encode_copy}

-- The character that a backslash and `c` stand for in a COPY field.
pub copy_escape : ℕ → ℕ
copy_escape c =
    if c == b'b'
    then 8
    else if c == b'f'
    then 12
    else if c == b'n'
    then b'\n'
    else if c == b'r'
    then b'\r'
    else if c == b't'
    then b'\t'
    else if c == b'v'
    then 11
    else c

-- The text of a field, read back; the flag says that a backslash has just been read.
pub read_copy : Bool → Bytes → Option Bytes
read_copy true [] = none
read_copy false [] = some []
read_copy true (c ∷ s) = elim (read_copy false s) [
  | none ↦ none
  | some t ↦ some (copy_escape c ∷ t)
]
read_copy false (c ∷ s) =
    let escaped = read_copy true s in
    let plain : Option Bytes = elim (read_copy false s) [ none ↦ none | some t ↦ some (c ∷ t) ] in
    if c == b'\\' then escaped else plain

copy_loop-flat_map : (s out : Bytes) → copy_loop s out ≡ out ++ flat_map copy_char s
unfolding copy_loop flat_map
copy_loop-flat_map [] out = sym (append-nil out)
copy_loop-flat_map (c ∷ s) out = simp (copy_loop-flat_map s, append_assoc)

encode_copy-flat_map : (s : Bytes) → encode_copy s ≡ flat_map copy_char (c_str s)
unfolding encode_copy
encode_copy-flat_map s = copy_loop-flat_map (c_str s) []

read_copy-flat_map : (s : Bytes) → read_copy false (flat_map copy_char s) ≡ some s
unfolding read_copy copy_char copy_escape flat_map
read_copy-flat_map [] = refl
read_copy-flat_map (c ∷ s) = ground (arith, read_copy-flat_map s)

-- Reading an encoded field by the escapes of the COPY text format gives the text back, up to its
-- first zero byte.
pub read_copy-encode_copy : (str : Bytes) → read_copy false (encode_copy str) ≡ some (c_str str)
read_copy-encode_copy str = rw encode_copy-flat_map (read_copy-flat_map (c_str str))

-- No byte that ends a field or a row.
abbrev pub IsField : Bytes → Type 0
IsField = All (λ c. (c ≢ b'\t') × (c ≢ b'\n') × (c ≢ b'\r'))

copy_char-IsField : (c : ℕ) → IsField (copy_char c)
unfolding copy_char
copy_char-IsField c = ground arith

flat_map-IsField : (s : Bytes) → IsField (flat_map copy_char s)
unfolding flat_map
flat_map-IsField [] = tt
flat_map-IsField (c ∷ s) =
    All-append _ (copy_char c) (flat_map copy_char s) (copy_char-IsField c) (flat_map-IsField s)

flat_map-ne-null : (s : Bytes) → flat_map copy_char s ≢ codes "\\N"
unfolding flat_map copy_char
flat_map-ne-null [] = ground arith
flat_map-ne-null (c ∷ s) = ground arith

-- An encoded field holds no tab, newline or carriage return, so it stays one field of one row,
-- and it is never `\N`, so no text is taken for NULL.
pub encode_copy-IsField :
    (str : Bytes) → IsField (encode_copy str) × (encode_copy str ≢ codes "\\N")
encode_copy-IsField str =
    rw encode_copy-flat_map (flat_map-IsField (c_str str), flat_map-ne-null (c_str str))
