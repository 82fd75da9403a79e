-- ===== src/Examples/Text.antt =====
-- Examples on texts.
use ldp.Base.{
  true, false, [], ◌∷◌, ◌++◌, some, codes, c_str, Lacks, All, ◌≡◌, ◌≢◌, ◌↔◌, refl, arith,
}
use ldp.CamelCase.Words.{decode_camel_case-spell, spell}
use ldp.CamelCase.{decode_camel_case}
use ldp.DbType.Const.{read_const, read_const-encode_string_const}
use ldp.DbType.Copy.{IsField, encode_copy-IsField, read_copy, read_copy-encode_copy}
use ldp.DbType.{postgresql, encode_copy, encode_string_const}
use ldp.Ident.Shape.{IsIdent, valid_ident_iff}
use ldp.Ident.{valid_ident}
use ldp.JsonText.RoundTrip.{plain, read_string, read_string-encode_json}
use ldp.JsonText.{encode_json}
use ldp.TextUtil.Split.{split-with_delim, with_delim}
use ldp.TextUtil.{split}
use ldp.Util.Uuid.{Shape, is_uuid_iff}
use ldp.Util.{is_uuid}

read_copy-encode_copy_example :
    read_copy false (encode_copy (codes "a\tb\\c")) ≡ some (c_str (codes "a\tb\\c"))
read_copy-encode_copy_example = read_copy-encode_copy (codes "a\tb\\c")

encode_copy-IsField_example :
    IsField (encode_copy (codes "\\N")) × (encode_copy (codes "\\N") ≢ codes "\\N")
encode_copy-IsField_example = encode_copy-IsField (codes "\\N")

read_const-encode_string_const_example :
    read_const (encode_string_const postgresql (codes "it's") ++ codes ");")
    ≡ some (c_str (codes "it's"), codes ");")
read_const-encode_string_const_example =
    read_const-encode_string_const (codes "it's") (codes ");") (ground arith)

read_string-encode_json_example :
    read_string plain (encode_json (codes "say \"x\"\n") [] ++ b'"' ∷ codes ",")
    ≡ some (c_str (codes "say \"x\"\n"), codes ",")
read_string-encode_json_example = read_string-encode_json (codes "say \"x\"\n") (codes ",")

is_uuid_iff_example :
    (is_uuid (codes "0d2b41f4-5c3b-4a3a-9f0e-6f3a1c2b7d8e") ≡ true)
    ↔ Shape (c_str (codes "0d2b41f4-5c3b-4a3a-9f0e-6f3a1c2b7d8e"))
is_uuid_iff_example = is_uuid_iff (codes "0d2b41f4-5c3b-4a3a-9f0e-6f3a1c2b7d8e")

decode_camel_case-spell_example :
    decode_camel_case (codes "permanentLocationId") ≡ spell (c_str (codes "permanentLocationId"))
decode_camel_case-spell_example = decode_camel_case-spell (codes "permanentLocationId")

-- The digit behind a run of uppercase letters makes the last of them a word.
digit_after_run : decode_camel_case (codes "ISBN1") ≡ codes "isb_n1"
unfolding decode_camel_case
digit_after_run = refl

valid_ident_iff_example : (valid_ident (codes "user_id") false ≡ true) ↔ IsIdent (codes "user_id")
valid_ident_iff_example = valid_ident_iff (codes "user_id")

varchar_valid : valid_ident (codes "varchar(10)") true ≡ true
unfolding valid_ident
varchar_valid = refl

blank-Lacks : Lacks 0 (codes " a b ")
blank-Lacks = ground arith

split-with_delim_example :
    (with_delim b',' (split (codes "a, b") b',') ≡ c_str (codes "a, b"))
    × All (Lacks b',') (split (codes "a, b") b',')
split-with_delim_example = split-with_delim (codes "a, b") b','
