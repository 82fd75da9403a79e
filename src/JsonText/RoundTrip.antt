-- ===== src/JsonText/RoundTrip.antt =====
-- What `encode_json` writes is a JSON string that stands for its argument.
use mathlib.Core.List.{flat_map}
use ldp.Base.{
  ℕ, zero, suc, ◌+◌, ◌*◌, ◌-◌, [], ◌∷◌, ◌++◌, append_assoc, append-nil, Option, none, some, ◌==◌,
  leb, if◌then◌else◌, Bytes, c_str, ◌≡◌, refl, sym, arith,
}
use ldp.JsonText.{json_char, json_loop, encode_json}

hex_value : ℕ → ℕ
hex_value c = if leb c b'9' then c - b'0' else c - b'A' + 10

json_escape : ℕ → ℕ
json_escape c =
    if c == b'b'
    then 8
    else if c == b'f'
    then 12
    else if c == b'n'
    then b'\n'
    else if c == b'r'
    then b'\r'
    else if c == b't'
    then b'\t'
    else c

-- `unicode n v`: behind `\u` and some digits of value `v`, with `n` digits to come after the next.
pub data Mode : Type 0 where
  plain backslash : Mode
  unicode : ℕ → ℕ → Mode

prepend : ℕ → Option (Bytes × Bytes) → Option (Bytes × Bytes)
prepend c none = none
prepend c (some (t, rest)) = some (c ∷ t, rest)

-- What stands behind the opening quote of a JSON string: its text and what follows the closing
-- quote. Raw control characters are refused.
pub read_string : Mode → Bytes → Option (Bytes × Bytes)
read_string _ [] = none
read_string plain (c ∷ s) =
    let escaped = read_string backslash s in
    let copied = prepend c (read_string plain s) in
    if c == b'"'
    then some ([], s)
    else if c == b'\\'
    then escaped
    else if leb c 31
    then none
    else copied
read_string backslash (c ∷ s) =
    let code = read_string (unicode 3 0) s in
    let short = prepend (json_escape c) (read_string plain s) in if c == b'u' then code else short
read_string (unicode zero v) (c ∷ s) = prepend (v * 16 + hex_value c) (read_string plain s)
read_string (unicode (suc n) v) (c ∷ s) = read_string (unicode n (v * 16 + hex_value c)) s

json_loop-flat_map : (s out : Bytes) → json_loop s out ≡ out ++ flat_map json_char s
unfolding json_loop flat_map
json_loop-flat_map [] out = sym (append-nil out)
json_loop-flat_map (c ∷ s) out = simp (json_loop-flat_map s, append_assoc)

read_string-json_char :
    (c : ℕ) (rest : Bytes)
    → read_string plain (json_char c ++ rest) ≡ prepend c (read_string plain rest)
unfolding read_string json_char json_escape hex_value
read_string-json_char c rest = ground arith

read_string-flat_map :
    (s rest : Bytes) → read_string plain (flat_map json_char s ++ b'"' ∷ rest) ≡ some (s, rest)
unfolding flat_map prepend
read_string-flat_map [] rest = unfold read_string in refl
read_string-flat_map (c ∷ s) rest =
    rw (append_assoc, read_string-json_char, read_string-flat_map s rest)

-- Behind an opening quote and in front of a closing one, the encoded text is read by the rules of
-- JSON as the text itself, up to its first zero byte, and the string ends at that closing quote.
pub read_string-encode_json :
    (str rest : Bytes)
    → read_string plain (encode_json str [] ++ b'"' ∷ rest) ≡ some (c_str str, rest)
unfolding encode_json
read_string-encode_json str rest = rw json_loop-flat_map (read_string-flat_map (c_str str) rest)

-- Encoding appends: what the caller has written before stays in front.
pub encode_json-append : (str out : Bytes) → encode_json str out ≡ out ++ encode_json str []
unfolding encode_json
encode_json-append str out = simp json_loop-flat_map
