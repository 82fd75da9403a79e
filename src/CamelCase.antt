-- ===== src/CamelCase.antt =====
-- src/camelcase.cpp: camel case into lowercase words separated by underscores.
pub mod Words
pub mod Letters
use ldp.Base.{
  ℕ, Bool, true, false, not, ◌&&◌, ◌||◌, [], ◌∷◌, ◌++◌, ◌==◌, if◌then◌else◌, Bytes, c_str, is_upper,
  to_lower, codes, ◌≡◌, refl,
}

append_underscore_char : Bool → ℕ → Bytes → Bytes
append_underscore_char underscore ch str = (if underscore then str ++ b'_' ∷ [] else str) ++ ch ∷ []

-- The window's last position, `c3 == '\0'`, with `c1` and `c2` not zero.
decode_last : ℕ → ℕ → Bytes → Bytes
unfolding append_underscore_char
decode_last c1 c2 str =
    let c1u = is_upper c1 in
    let c2u = is_upper c2 in
    if not c1u && c2u
    then append_underscore_char true (to_lower c2) str
    else if c1u && c2u
    then append_underscore_char false (to_lower c2) str
    else if (not c1u && not c2u) || (c1u && not c2u)
    then append_underscore_char false c2 str
    else str

-- Triples having no zeros.
decode_inner : ℕ → ℕ → ℕ → Bytes → Bytes
unfolding append_underscore_char
decode_inner c1 c2 c3 str =
    let c1u = is_upper c1 in
    let c2u = is_upper c2 in
    let c3u = is_upper c3 in
    if (not c1u && not c2u && not c3u)
      || (c1u && not c2u && not c3u)
      || (not c1u && not c2u && c3u)
      || (c1u && not c2u && c3u)
    then append_underscore_char false c2 str
    else if (not c1u && c2u && not c3u) || (c1u && c2u && not c3u) || (not c1u && c2u && c3u)
    then append_underscore_char true (to_lower c2) str
    else if c1u && c2u && c3u
    then append_underscore_char false (to_lower c2) str
    else str

unfoldable pub decode_triple : ℕ → ℕ → ℕ → Bytes → Bytes
unfolding decode_last decode_inner append_underscore_char
decode_triple c1 c2 c3 str =
    if c2 == 0
    then str
    else if (c1 == 0 && not (c2 == 0) && not (c3 == 0)) || (c1 == 0 && not (c2 == 0) && c3 == 0)
    then append_underscore_char false (to_lower c2) str
    else if not (c1 == 0) && not (c2 == 0) && c3 == 0
    then decode_last c1 c2 str
    else decode_inner c1 c2 c3 str

-- The loop, on the window's last two characters, and the last call behind it.
unfoldable pub decode_window : ℕ → ℕ → Bytes → Bytes → Bytes
decode_window c2 c3 [] decoded = decode_triple c2 c3 0 decoded
decode_window c2 c3 (p ∷ ps) decoded = decode_window c3 p ps (decode_triple c2 c3 p decoded)

unfoldable pub decode_camel_case : Bytes → Bytes
unfolding decode_window decode_triple c_str to_lower
decode_camel_case str = decode_window 0 0 (c_str str) []

camel_test : decode_camel_case (codes "permanentLocationIDs") ≡ codes "permanent_location_i_ds"
unfolding decode_camel_case
camel_test = refl
