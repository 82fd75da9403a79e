-- ===== src/DropFields/Kept.antt =====
-- The fields that are to be dropped before the file is read.
use ldp.Base.{
  Bool, true, false, ◌&&◌, ◌||◌, List, [], ◌∷◌, Option, none, some, Bytes, equal, ok, >>=-eq-ok,
  ok-injective, Bool-cases, ◌≡◌, refl, subst, inl, inr,
}
use ldp.AddColumns.{split_space, two_parts}
use ldp.DropFields.{drop_line, drop_lines, read_drop_fields}
use ldp.Fields.{FieldSet, find, insert}
use ldp.TextUtil.{getline_tokens, lower_text, trim}

find-insert :
    (table field t f : Bytes) (fields : FieldSet)
    → find fields t f ≡ true
    → find (insert table field fields) t f ≡ true
unfolding insert
find-insert table field t f fields h = elim (Bool-cases (find fields table field)) [
  | inl e ↦ rw e h
  | inr e ↦ rw e (unfold find in behind (equal table t && equal field f) h)
]
  where
    behind : (b : Bool) {c : Bool} → c ≡ true → (b || c) ≡ true
    behind true h = refl
    behind false h = h

-- A result that still finds what is found in `fields`.
abbrev Keeps : FieldSet → FieldSet → Type 0
Keeps fields after = (t f : Bytes) → find fields t f ≡ true → find after t f ≡ true

drop_line-Keeps :
    (line : Bytes) (fields after : FieldSet) → drop_line line fields ≡ ok after → Keeps fields after
unfolding drop_line
drop_line-Keeps line fields after h =
    let ((table, field), e, h') = >>=-eq-ok (two_parts _ (split_space line)) _ h in
    λ t f found.
      subst (λ x. find x t f ≡ true) (ok-injective _ after h')
        (find-insert (lower_text table) field t f fields found)

drop_lines-Keeps :
    (lines : List Bytes) (fields after : FieldSet)
    → drop_lines lines fields ≡ ok after
    → Keeps fields after
unfolding drop_lines
drop_lines-Keeps [] fields after h t f found =
    subst (λ x. find x t f ≡ true) (ok-injective fields after h) found
drop_lines-Keeps (l ∷ lines) fields after h t f found = elim (Bool-cases (equal (trim l) [])) [
  | inl e ↦ drop_lines-Keeps lines fields after (rw e at h) t f found
  | inr e ↦
      let (next, e1, h1) = >>=-eq-ok (drop_line (trim l) fields) _ (rw e at h) in
      drop_lines-Keeps lines next after h1 t f (drop_line-Keeps (trim l) fields next e1 t f found)
]

-- Whatever the file holds: where reading it ends without an error, each field that was to be
-- dropped before, such as those that are anonymized, is still to be dropped.
pub read_drop_fields-Keeps :
    (file : Option Bytes) (fields after : FieldSet)
    → read_drop_fields file fields ≡ ok after
    → (t f : Bytes) → find fields t f ≡ true
    → find after t f ≡ true
unfolding read_drop_fields
read_drop_fields-Keeps none fields after h t f found =
    subst (λ x. find x t f ≡ true) (ok-injective fields after h) found
read_drop_fields-Keeps (some file) fields after h t f found =
    drop_lines-Keeps (getline_tokens b'\n' file []) fields after h t f found
