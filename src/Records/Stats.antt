-- ===== src/Records/Stats.antt =====
-- The two passes over a record.
use ldp.Base.{
  ℕ, ◌+◌, Bool, true, false, List, [], ◌∷◌, ◌++◌, Bytes, ◌≡◌, refl, ap, ap₂, ◌∙◌, Bool-cases, inl,
  inr,
}
use ldp.Json.{
  Value, null, boolean, number, string, array, object, Items, nil, cons, Members, end, member,
}
use ldp.Records.{
  Job, FieldStats, is_removed, insert_member, sort_value, sort_items, sort_members, item_path,
  member_path, overwrite, collect, process_value, process_items, process_members,
  process_json_record,
}

abbrev pub counting : Job → Job
counting job = record job { collect_stats = true }

abbrev pub loading : Job → Job
loading job = record job { collect_stats = false }

mutual
  unfolding process_value process_items process_members overwrite

  process_value-passes :
      (job : Job) (v : Value) (node : List ℕ) (field : Bytes) (depth : ℕ) (obj : Bool)
      (root : Value) (s t : FieldStats)
      → (process_value (counting job) v node field depth obj root s).0
        ≡ (process_value (loading job) v node field depth obj root t).0
  process_value-passes job null node field depth obj root s t = refl
  process_value-passes job (boolean b) node field depth obj root s t = refl
  process_value-passes job (number n) node field depth obj root s t = refl
  process_value-passes job (string b) node field depth obj root s t = refl
  process_value-passes job (array xs) node field depth obj root s t =
      elim (Bool-cases (is_removed job field)) [
        | inl e ↦ rw e
        | inr e ↦ rw e (process_items-passes job xs 0 node field (depth + 1) root root s t refl)
      ]
  process_value-passes job (object ms) node field depth obj root s t =
      elim (Bool-cases (is_removed job field)) [
        | inl e ↦ rw e
        | inr e ↦ rw e (process_members-passes job ms 0 node field (depth + 1) root root s t refl)
      ]

  process_items-passes :
      (job : Job) (xs : Items) (x : ℕ) (node : List ℕ) (field : Bytes) (depth : ℕ)
      (root root' : Value) (s t : FieldStats)
      → root ≡ root'
      → (process_items (counting job) xs x node field depth root s).0
        ≡ (process_items (loading job) xs x node field depth root' t).0
  process_items-passes job nil x node field depth root root' s t e = e
  process_items-passes job (cons v xs) x node field depth root root' s t e =
      process_items-passes job xs (x + 1) node field depth _ _ _ _ (
        ap
          (λ y.
            (process_value (counting job) v (node ++ x ∷ []) (item_path field x) depth false y s).0)
          e
        ∙ process_value-passes job v (node ++ x ∷ []) (item_path field x) depth false root' s t)

  process_members-passes :
      (job : Job) (ms : Members) (i : ℕ) (node : List ℕ) (field : Bytes) (depth : ℕ)
      (root root' : Value) (s t : FieldStats)
      → root ≡ root'
      → (process_members (counting job) ms i node field depth root s).0
        ≡ (process_members (loading job) ms i node field depth root' t).0
  process_members-passes job end i node field depth root root' s t e = e
  process_members-passes job (member k v ms) i node field depth root root' s t e =
      process_members-passes job ms (i + 1) node field depth _ _ _ _ (
        ap
          (λ y.
            (process_value (counting job) v (node ++ i ∷ []) (member_path field k) depth true y
              s).0)
          e
        ∙ process_value-passes job v (node ++ i ∷ []) (member_path field k) depth true root' s t)

mutual
  unfolding process_value process_items process_members collect

  process_value-loading :
      (job : Job) (v : Value) (node : List ℕ) (field : Bytes) (depth : ℕ) (obj : Bool)
      (root : Value) (s : FieldStats)
      → (process_value (loading job) v node field depth obj root s).1 ≡ s
  process_value-loading job null node field depth obj root s = refl
  process_value-loading job (boolean b) node field depth obj root s = refl
  process_value-loading job (number n) node field depth obj root s = refl
  process_value-loading job (string b) node field depth obj root s = refl
  process_value-loading job (array xs) node field depth obj root s =
      elim (Bool-cases (is_removed job field)) [
        | inl e ↦ rw e
        | inr e ↦ rw e (process_items-loading job xs 0 node field (depth + 1) root s)
      ]
  process_value-loading job (object ms) node field depth obj root s =
      elim (Bool-cases (is_removed job field)) [
        | inl e ↦ rw e
        | inr e ↦ rw e (process_members-loading job ms 0 node field (depth + 1) root s)
      ]

  process_items-loading :
      (job : Job) (xs : Items) (x : ℕ) (node : List ℕ) (field : Bytes) (depth : ℕ) (root : Value)
      (s : FieldStats)
      → (process_items (loading job) xs x node field depth root s).1 ≡ s
  process_items-loading job nil x node field depth root s = refl
  process_items-loading job (cons v xs) x node field depth root s =
      process_items-loading job xs (x + 1) node field depth _ _
      ∙ process_value-loading job v (node ++ x ∷ []) (item_path field x) depth false root s

  process_members-loading :
      (job : Job) (ms : Members) (i : ℕ) (node : List ℕ) (field : Bytes) (depth : ℕ) (root : Value)
      (s : FieldStats)
      → (process_members (loading job) ms i node field depth root s).1 ≡ s
  process_members-loading job end i node field depth root s = refl
  process_members-loading job (member k v ms) i node field depth root s =
      process_members-loading job ms (i + 1) node field depth _ _
      ∙ process_value-loading job v (node ++ i ∷ []) (member_path field k) depth true root s

mutual
  unfolding sort_value sort_items sort_members

  sort_value-same :
      (job : Job) (field : Bytes) (v : Value)
      → sort_value (counting job) field v ≡ sort_value (loading job) field v
  sort_value-same job field null = refl
  sort_value-same job field (boolean b) = refl
  sort_value-same job field (number n) = refl
  sort_value-same job field (string s) = refl
  sort_value-same job field (array xs) = elim (Bool-cases (is_removed job field)) [
    | inl e ↦ rw e refl
    | inr e ↦ rw e (ap array (sort_items-same job field 0 xs))
  ]
  sort_value-same job field (object ms) = elim (Bool-cases (is_removed job field)) [
    | inl e ↦ rw e refl
    | inr e ↦ rw e (ap object (sort_members-same job field ms))
  ]

  sort_items-same :
      (job : Job) (field : Bytes) (x : ℕ) (xs : Items)
      → sort_items (counting job) field x xs ≡ sort_items (loading job) field x xs
  sort_items-same job field x nil = refl
  sort_items-same job field x (cons v xs) =
      ap₂ cons (sort_value-same job (item_path field x) v) (sort_items-same job field (x + 1) xs)

  sort_members-same :
      (job : Job) (field : Bytes) (ms : Members)
      → sort_members (counting job) field ms ≡ sort_members (loading job) field ms
  sort_members-same job field end = refl
  sort_members-same job field (member k v ms) =
      ap₂ (insert_member k) (sort_value-same job (member_path field k) v)
        (sort_members-same job field ms)

-- The records that the second pass loads are those that the first pass counted, from whatever
-- statistics each of them starts, and the second pass leaves the statistics as they are.
pub process_json_record_passes :
    (job : Job) (root : Value) (s t : FieldStats)
    → ((process_json_record (counting job) root s).0 ≡ (process_json_record (loading job) root t).0)
      × ((process_json_record (loading job) root t).1 ≡ t)
unfolding process_json_record
process_json_record_passes job root s t = (
  ap (λ r. (process_value (counting job) r [] [] 0 true r s).0) (sort_value-same job [] root)
      ∙ process_value-passes job (sort_value (loading job) [] root) [] [] 0 true
          (sort_value (loading job) [] root) s t,
  process_value-loading job (sort_value (loading job) [] root) [] [] 0 true
      (sort_value (loading job) [] root) t,
)
