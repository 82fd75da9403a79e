-- ===== src/DbType.antt =====
-- src/dbtype.cpp: the SQL that depends on the database system, and the escaping of text.
pub mod Copy
pub mod Const
use ldp.Base.{
  ℕ, Bool, true, false, ◌&&◌, [], ◌∷◌, ◌++◌, ◌==◌, if◌then◌else◌, Bytes, codes, c_str, equal,
  to_string, Result, ok, runtime_error,
}

pub data DbSys : Type 0 where
  postgresql redshift unknown : DbSys

abbrev pub set_type : Bytes → Result DbSys
set_type dbms =
    if equal dbms (codes "PostgreSQL")
    then ok postgresql
    else if equal dbms (codes "Redshift")
    then ok redshift
    else runtime_error (codes "Unknown database system: \"" ++ (dbms ++ codes "\""))

-- The constructor; the query for the name of the system is commented out in the source.
abbrev pub dbtype : Result DbSys
dbtype = set_type (codes "PostgreSQL")

unfoldable pub json_type : DbSys → Bytes
json_type postgresql = codes "JSONB"
json_type redshift = codes "VARCHAR(65535)"
json_type unknown = codes "(unknown)"

unfoldable pub current_timestamp : DbSys → Bytes
current_timestamp postgresql = codes "CURRENT_TIMESTAMP"
current_timestamp redshift = codes "SYSDATE"
current_timestamp unknown = codes "(unknown)"

abbrev pub rename_sequence : DbSys → Bytes → Bytes → Bytes
rename_sequence postgresql sequence_name new_sequence_name =
    codes "ALTER SEQUENCE IF EXISTS\n    "
    ++ (sequence_name ++ (codes "\n    RENAME TO " ++ (new_sequence_name ++ codes ";")))
rename_sequence redshift _ _ = []
rename_sequence unknown _ _ = codes "(unknown)"

abbrev pub create_sequence : DbSys → Bytes → ℕ → Bytes
create_sequence postgresql sequence_name start =
    codes "CREATE SEQUENCE "
    ++ (sequence_name ++ (codes "\n    START " ++ (to_string start ++ codes ";")))
create_sequence redshift _ _ = []
create_sequence unknown _ _ = codes "(unknown)"

abbrev pub auto_increment_type : DbSys → ℕ → Bool → Bytes → Bytes
auto_increment_type postgresql start named_sequence sequence_name =
    if named_sequence
    then codes "BIGINT NOT NULL\n        DEFAULT\n        nextval('"
      ++ (sequence_name ++ codes "')")
    else codes "BIGSERIAL"
auto_increment_type redshift start _ _ =
    codes "BIGINT GENERATED BY DEFAULT AS IDENTITY(" ++ (to_string start ++ codes ", 1)")
auto_increment_type unknown _ _ _ = codes "(unknown)"

abbrev pub alter_sequence_owned_by : DbSys → Bytes → Bytes → Bytes
alter_sequence_owned_by postgresql sequence_name table_column_name =
    codes "ALTER SEQUENCE "
    ++ (sequence_name ++ (codes "\n    OWNED BY " ++ (table_column_name ++ codes ";")))
alter_sequence_owned_by redshift _ _ = []
alter_sequence_owned_by unknown _ _ = codes "(unknown)"

unfoldable pub type_string : DbSys → Bytes
type_string postgresql = codes "PostgreSQL"
type_string redshift = codes "Redshift"
type_string unknown = codes "(unknown)"

-- The switch of `encode_copy`: what one character appends.
copy_char : ℕ → Bytes
copy_char c =
    if c == b'\\'
    then b'\\' ∷ b'\\' ∷ []
    else if c == 8
    then b'\\' ∷ b'b' ∷ []
    else if c == 12
    then b'\\' ∷ b'f' ∷ []
    else if c == b'\n'
    then b'\\' ∷ b'n' ∷ []
    else if c == b'\r'
    then b'\\' ∷ b'r' ∷ []
    else if c == b'\t'
    then b'\\' ∷ b't' ∷ []
    else if c == 11
    then b'\\' ∷ b'v' ∷ []
    else c ∷ []

copy_loop : Bytes → Bytes → Bytes
copy_loop [] newstr = newstr
copy_loop (c ∷ p) newstr = copy_loop p (newstr ++ copy_char c)

unfoldable pub encode_copy : Bytes → Bytes
unfolding copy_loop copy_char c_str
encode_copy str = copy_loop (c_str str) []

-- The switch of `encode_str`.
str_char : ℕ → Bytes
str_char c =
    if c == b'\\'
    then b'\\' ∷ b'\\' ∷ []
    else if c == b'\''
    then b'\'' ∷ b'\'' ∷ []
    else if c == 8
    then b'\\' ∷ b'b' ∷ []
    else if c == 12
    then b'\\' ∷ b'f' ∷ []
    else if c == b'\n'
    then b'\\' ∷ b'n' ∷ []
    else if c == b'\r'
    then b'\\' ∷ b'r' ∷ []
    else if c == b'\t'
    then b'\\' ∷ b't' ∷ []
    else c ∷ []

str_loop : Bytes → Bytes → Bytes
str_loop [] newstr = newstr
str_loop (c ∷ p) newstr = str_loop p (newstr ++ str_char c)

encode_str : Bytes → Bool → Bytes
unfolding str_loop str_char c_str
encode_str str e = str_loop (c_str str) (if e then b'E' ∷ b'\'' ∷ [] else b'\'' ∷ []) ++ b'\'' ∷ []

unfoldable pub encode_string_const : DbSys → Bytes → Bytes
unfolding encode_str
encode_string_const postgresql str = encode_str str true
encode_string_const redshift str = encode_str str false
encode_string_const unknown str = codes "(unknown)"

unfoldable pub redshift_keys : DbSys → Bytes → Bytes → Bytes
redshift_keys postgresql distkey sortkey = []
redshift_keys redshift distkey sortkey =
    codes " DISTKEY(" ++ (distkey ++ (codes ") COMPOUND SORTKEY(" ++ (sortkey ++ codes ")")))
redshift_keys unknown distkey sortkey = codes "(unknown)"
