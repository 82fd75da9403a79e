-- ===== src/Fields.antt =====
-- src/anonymize.h and src/anonymize.cpp: the set of fields to drop; and the tests of src/stage.cpp
-- on the names of fields and members.
use ldp.Base.{
  Bool, true, false, not, ◌&&◌, ◌||◌, List, [], ◌∷◌, ltb, leb, ◌==◌, if◌then◌else◌, Bytes, codes,
  c_str, equal, length, drop, ◌-◌, take,
}

-- `class field_set`: pairs of a table and the path of a field.
abbrev pub FieldSet : Type 0
FieldSet = List (Bytes × Bytes)

unfoldable pub find : FieldSet → Bytes → Bytes → Bool
find [] table field = false
find ((t, f) ∷ fields) table field = (equal t table && equal f field) || find fields table field

-- `fields.insert(p)` of a `std::set`.
unfoldable pub insert : Bytes → Bytes → FieldSet → FieldSet
insert table field fields = if find fields table field then fields else (table, field) ∷ fields

unfoldable pub ends_with : Bytes → Bytes → Bool
ends_with str suffix =
    if leb (length suffix) (length str)
    then equal (drop (length str - length suffix) str) suffix
    else false

member_of : Bytes → List Bytes → Bool
member_of name [] = false
member_of name (t ∷ ts) = equal name t || member_of name ts

-- The tables that `data_to_filter` names.
abbrev course_tables : List Bytes
course_tables =
    codes "course_copyrightstatuses"
    ∷ codes "course_courselistings"
    ∷ codes "course_courses"
    ∷ codes "course_coursetypes"
    ∷ codes "course_departments"
    ∷ codes "course_processingstatuses"
    ∷ codes "course_reserves"
    ∷ codes "course_roles"
    ∷ codes "course_terms"
    ∷ []

-- `strncmp(field.data(), "/instructorObjects", 18) == 0`, on the bytes up to the first zero.
unfoldable pub data_to_filter : Bytes → Bytes → Bool
unfolding member_of ends_with
data_to_filter table_name field =
    if not (member_of table_name course_tables)
    then false
    else if not (ends_with field (codes "Object")) && not (ends_with field (codes "Objects"))
    then false
    else if equal table_name (codes "course_courselistings")
        && equal (take 18 (c_str field)) (codes "/instructorObjects")
    then false
    else true

-- `strcmp(s, t) < 0` on texts without zero bytes, and `<` of `std::string`.
unfoldable pub less : Bytes → Bytes → Bool
less s [] = false
less [] (b ∷ t) = true
less (a ∷ s) (b ∷ t) = ltb a b || (a == b && less s t)

-- `name_comparator`.
unfoldable pub comes_before : Bytes → Bytes → Bool
unfolding less
comes_before s1 s2 =
    if equal s1 (codes "id") then true else if equal s2 (codes "id") then false else less s1 s2
