-- ===== src/JsonText.antt =====
-- `encode_json` of src/stage.cpp: the characters of a JSON string.
pub mod RoundTrip
use ldp.Base.{
  ℕ, ◌+◌, ◌-◌, ◌/◌, ◌%◌, [], ◌∷◌, ◌++◌, ◌==◌, ltb, leb, if◌then◌else◌, Bytes, codes, c_str, ◌≡◌,
  refl,
}

-- An uppercase hexadecimal digit.
hex_digit : ℕ → ℕ
hex_digit d = if ltb d 10 then b'0' + d else b'A' + (d - 10)

-- `sprintf(buffer, "\\u%04X", c)` of an unsigned char.
unicode_escape : ℕ → Bytes
unfolding hex_digit
unicode_escape c = b'\\' ∷ b'u' ∷ b'0' ∷ b'0' ∷ hex_digit (c / 16) ∷ hex_digit (c % 16) ∷ []

-- The switch of `encode_json`. A byte of 128 or more is no value from 0 to 31, whether `char` is
-- signed or not.
json_char : ℕ → Bytes
unfolding unicode_escape
json_char c =
    if c == b'"'
    then b'\\' ∷ b'"' ∷ []
    else if c == b'\\'
    then b'\\' ∷ b'\\' ∷ []
    else if c == 8
    then b'\\' ∷ b'b' ∷ []
    else if c == 12
    then b'\\' ∷ b'f' ∷ []
    else if c == b'\n'
    then b'\\' ∷ b'n' ∷ []
    else if c == b'\r'
    then b'\\' ∷ b'r' ∷ []
    else if c == b'\t'
    then b'\\' ∷ b't' ∷ []
    else if leb c 31
    then unicode_escape c
    else c ∷ []

json_loop : Bytes → Bytes → Bytes
json_loop [] newstr = newstr
json_loop (c ∷ p) newstr = json_loop p (newstr ++ json_char c)

-- The result is appended to the text that the caller hands over.
unfoldable pub encode_json : Bytes → Bytes → Bytes
unfolding json_loop json_char c_str
encode_json str newstr = json_loop (c_str str) newstr
