-- ===== src/Records/Clean.antt =====
-- What dropping fields leaves in a record.
use ldp.Base.{
  ℕ, zero, ◌+◌, Bool, true, false, [], Bytes, ◌≡◌, refl, sym, subst, ◌∙◌, ap, ap₂, arith,
  Bool-cases, inl, inr,
}
use ldp.Json.{
  pos, integer, Value, null, boolean, number, string, array, object, Items, nil, cons, Members, end,
  member,
}
use ldp.Records.Place.{SetsInPlace}
use ldp.Records.Replaced.{HasPlainNames, replace_value, replace_items, replace_members}
use ldp.Records.Sorted.{process_json_record-replaced}
use ldp.Records.{
  Job, FieldStats, is_dropped, is_removed, item_path, member_path, sort_value, process_json_record,
}

abbrev mutual
  -- At a dropped path there is no data: false, 0, the empty text or null. At a path that is
  -- dropped or filtered there is no array and no object. `v` stands at the path `field`.
  pub IsClean : Job → Bytes → Value → Type 0
  IsClean job field null = Unit
  IsClean job field (boolean b) = is_dropped job field ≡ true → b ≡ false
  IsClean job field (number n) = is_dropped job field ≡ true → n ≡ integer (pos 0)
  IsClean job field (string s) = is_dropped job field ≡ true → s ≡ []
  IsClean job field (array xs) = (is_removed job field ≡ false) × AreCleanItems job field zero xs
  IsClean job field (object ms) = (is_removed job field ≡ false) × AreCleanMembers job field ms

  pub AreCleanItems : Job → Bytes → ℕ → Items → Type 0
  AreCleanItems job field x nil = Unit
  AreCleanItems job field x (cons v xs) =
      IsClean job (item_path field x) v × AreCleanItems job field (x + 1) xs

  pub AreCleanMembers : Job → Bytes → Members → Type 0
  AreCleanMembers job field end = Unit
  AreCleanMembers job field (member k v ms) =
      IsClean job (member_path field k) v × AreCleanMembers job field ms

mutual
  unfolding replace_value replace_items replace_members

  replace_value-IsClean :
      (job : Job) (v : Value) (field : Bytes) (depth : ℕ) (obj : Bool) (stats : FieldStats)
      → IsClean job field (replace_value job v field depth obj stats).0
  replace_value-IsClean job null field depth obj stats = tt
  replace_value-IsClean job (boolean b) field depth obj stats = λ h. rw h
  replace_value-IsClean job (number n) field depth obj stats = λ h. rw h
  replace_value-IsClean job (string s) field depth obj stats = λ h. rw h
  replace_value-IsClean job (array xs) field depth obj stats =
      elim (Bool-cases (is_removed job field)) [
        | inl e ↦ rw e tt
        | inr e ↦ rw e (e, replace_items-AreClean job xs 0 field (depth + 1) stats)
      ]
  replace_value-IsClean job (object ms) field depth obj stats =
      elim (Bool-cases (is_removed job field)) [
        | inl e ↦ rw e tt
        | inr e ↦ rw e (e, replace_members-AreClean job ms field (depth + 1) stats)
      ]

  replace_items-AreClean :
      (job : Job) (xs : Items) (x : ℕ) (field : Bytes) (depth : ℕ) (stats : FieldStats)
      → AreCleanItems job field x (replace_items job xs x field depth stats).0
  replace_items-AreClean job nil x field depth stats = tt
  replace_items-AreClean job (cons v xs) x field depth stats = (
    replace_value-IsClean job v (item_path field x) depth false stats,
    replace_items-AreClean job xs (x + 1) field depth _,
  )

  replace_members-AreClean :
      (job : Job) (ms : Members) (field : Bytes) (depth : ℕ) (stats : FieldStats)
      → AreCleanMembers job field (replace_members job ms field depth stats).0
  replace_members-AreClean job end field depth stats = tt
  replace_members-AreClean job (member k v ms) field depth stats = (
    replace_value-IsClean job v (member_path field k) depth true stats,
    replace_members-AreClean job ms field depth _,
  )

mutual
  unfolding replace_value replace_items replace_members

  replace_value_self :
      (job : Job) (v : Value) (field : Bytes) (depth : ℕ) (obj : Bool) (stats : FieldStats)
      → IsClean job field v
      → (replace_value job v field depth obj stats).0 ≡ v
  replace_value_self job null field depth obj stats c = refl
  replace_value_self job (boolean b) field depth obj stats c = ground arith
  replace_value_self job (number n) field depth obj stats c = ground arith
  replace_value_self job (string s) field depth obj stats c = ground arith
  replace_value_self job (array xs) field depth obj stats c =
      rw c.0 (ap array (replace_items_self job xs 0 field (depth + 1) stats c.1))
  replace_value_self job (object ms) field depth obj stats c =
      rw c.0 (ap object (replace_members_self job ms field (depth + 1) stats c.1))

  replace_items_self :
      (job : Job) (xs : Items) (x : ℕ) (field : Bytes) (depth : ℕ) (stats : FieldStats)
      → AreCleanItems job field x xs
      → (replace_items job xs x field depth stats).0 ≡ xs
  replace_items_self job nil x field depth stats c = refl
  replace_items_self job (cons v xs) x field depth stats c =
      ap₂ cons (replace_value_self job v (item_path field x) depth false stats c.0)
        (replace_items_self job xs (x + 1) field depth _ c.1)

  replace_members_self :
      (job : Job) (ms : Members) (field : Bytes) (depth : ℕ) (stats : FieldStats)
      → AreCleanMembers job field ms
      → (replace_members job ms field depth stats).0 ≡ ms
  replace_members_self job end field depth stats c = refl
  replace_members_self job (member k v ms) field depth stats c =
      ap₂ (member k) (replace_value_self job v (member_path field k) depth true stats c.0)
        (replace_members_self job ms field depth _ c.1)

-- For a pointer that sets a value in its place, and a record in which the names of the members of
-- each object are different and hold no `/`, `~` or zero byte: the processed record is clean. A
-- value at a path that is to be dropped is false, 0, the empty text or null, and at a path that is
-- dropped or filtered stands no array and no object. A path has the names of members and the
-- indexes of items.
pub process_json_record-IsClean :
    (job : Job) (sets : SetsInPlace job.rapidjson) (root : Value) (stats : FieldStats)
    → HasPlainNames root
    → IsClean job [] (process_json_record job root stats).0
process_json_record-IsClean job sets root stats h =
    subst (λ p. IsClean job [] (p.0)) (sym (process_json_record-replaced job sets root stats h))
      (replace_value-IsClean job (sort_value job [] root) [] 0 true stats)

-- For such a pointer and such a record, nothing else is lost: a record that is clean once its
-- members are sorted is left as sorted.
process_json_record_self :
    (job : Job) (sets : SetsInPlace job.rapidjson) (root : Value) (stats : FieldStats)
    → HasPlainNames root
    → IsClean job [] (sort_value job [] root)
    → (process_json_record job root stats).0 ≡ sort_value job [] root
process_json_record_self job sets root stats h c =
    ap (λ p. p.0) (process_json_record-replaced job sets root stats h)
    ∙ replace_value_self job (sort_value job [] root) [] 0 true stats c
