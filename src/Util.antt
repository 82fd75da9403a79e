-- ===== src/Util.antt =====
-- src/util.cpp and src/names.cpp: the test for a UUID, and the names of the tables.
pub mod Uuid
use ldp.Base.{
  ℕ, zero, suc, ◌+◌, Bool, true, false, ◌||◌, ◌&&◌, [], ◌∷◌, ◌++◌, ◌==◌, leb, if◌then◌else◌, Bytes,
  codes, c_str, length, is_digit, not,
}

-- The case labels of the switch in `is_uuid`.
abbrev pub is_hex : ℕ → Bool
is_hex c = is_digit c || (leb b'A' c && leb c b'F') || (leb b'a' c && leb c b'f')

-- The positions of the dashes.
abbrev pub is_dash_position : ℕ → Bool
is_dash_position x = x == 8 || x == 13 || x == 18 || x == 23

-- The loop from index `x`, on the characters from there on.
uuid_loop : ℕ → Bytes → Bool
uuid_loop x [] = true
uuid_loop x (c ∷ s) =
    let rest = uuid_loop (x + 1) s in
    if is_dash_position x
    then (if not (c == b'-') then false else rest)
    else if is_hex c
    then rest
    else false

unfoldable pub is_uuid : Bytes → Bool
unfolding uuid_loop c_str
is_uuid str = if not (length (c_str str) == 36) then false else uuid_loop 0 (c_str str)

unfoldable pub comment_sql : Bytes → Bytes → Bytes
comment_sql table_name module_name =
    codes "COMMENT ON TABLE "
    ++ (table_name
        ++ (codes " IS 'https://dev.folio.org/reference/api/#" ++ (module_name ++ codes "';")))

-- What is written to the stream.
abbrev pub print_banner_line : ℕ → ℕ → Bytes
print_banner_line ch zero = b'\n' ∷ []
print_banner_line ch (suc width) = ch ∷ print_banner_line ch width

unfoldable pub loading_table_name : Bytes → Bytes
loading_table_name table = codes "ldp_" ++ table

unfoldable pub latest_history_table_name : Bytes → Bytes
latest_history_table_name table = codes "history_latest_" ++ table

unfoldable pub history_table_name : Bytes → Bytes
history_table_name table = codes "history." ++ table
