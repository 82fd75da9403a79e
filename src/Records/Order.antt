-- ===== src/Records/Order.antt =====
-- The members of a processed record are sorted by their names.
use ldp.Base.{
  ℕ, ◌+◌, ◌==◌, Bool, true, false, [], ◌∷◌, Bytes, codes, equal, equal_iff, ◌≡◌, ◌⊎◌, refl, sym,
  subst, ◌∙◌, arith, Bool-cases, inl, inr,
}
use ldp.Fields.{comes_before, less}
use ldp.Json.{
  Value, null, boolean, number, string, array, object, Items, nil, cons, Members, end, member,
}
use ldp.Records.Place.{SetsInPlace, has_name}
use ldp.Records.Replaced.{
  HasPlainNames, ItemsHavePlainNames, MembersHavePlainNames, replace_value, replace_items,
  replace_members,
}
use ldp.Records.Sorted.{has_name-sort_members, process_json_record-replaced}
use ldp.Records.{
  Job, FieldStats, is_removed, item_path, member_path, insert_member, sort_value, sort_items,
  sort_members, process_json_record,
}

-- The order of two names: `id` is the first one, and the others are in the order of their bytes.
abbrev pub Precedes : Bytes → Bytes → Type 0
Precedes k j = (equal j (codes "id") ≡ false) × ((equal k (codes "id") ≡ true) ⊎ (less k j ≡ true))

abbrev Leads : Bytes → Members → Type 0
Leads k end = Unit
Leads k (member j w ms) = Precedes k j

-- Each name is in front of the next.
abbrev pub AreOrdered : Members → Type 0
AreOrdered end = Unit
AreOrdered (member k v ms) = Leads k ms × AreOrdered ms

abbrev mutual
  -- The members of each object are in order.
  pub IsSorted : Value → Type 0
  IsSorted (array xs) = ItemsAreSorted xs
  IsSorted (object ms) = AreOrdered ms × MembersAreSorted ms
  IsSorted _ = Unit

  pub ItemsAreSorted : Items → Type 0
  ItemsAreSorted nil = Unit
  ItemsAreSorted (cons v xs) = IsSorted v × ItemsAreSorted xs

  pub MembersAreSorted : Members → Type 0
  MembersAreSorted end = Unit
  MembersAreSorted (member k v ms) = IsSorted v × MembersAreSorted ms

less_total : (j k : Bytes) → equal k j ≡ false → less k j ≡ false → less j k ≡ true
unfolding less equal
less_total [] [] e h = cc
less_total [] (b ∷ k) e h = refl
less_total (a ∷ j) [] e h = cc
less_total (a ∷ j) (b ∷ k) e h = elim (Bool-cases (b == a)) [
  | inl q ↦ ground (arith, less_total j k (ground arith) (ground arith))
  | inr q ↦ ground arith
]

-- Both have the name `id`, or neither.
not_both_id :
    (k j : Bytes) → equal k j ≡ false → equal k (codes "id") ≡ true → equal j (codes "id") ≡ false
not_both_id k j e h = elim (Bool-cases (equal j (codes "id"))) [
  | inl q ↦ absurd (differ ((equal_iff k j).1 ((equal_iff k _).0 h ∙ sym ((equal_iff j _).0 q))))
  | inr q ↦ q
]
  where
    differ : equal k j ≡ true → ⊥
    differ q = ground (arith, e)

comes_before-Precedes : (k j : Bytes) → equal k j ≡ false → comes_before k j ≡ true → Precedes k j
unfolding comes_before
comes_before-Precedes k j e h = elim (Bool-cases (equal k (codes "id"))) [
  | inl q ↦ (not_both_id k j e q, inl q)
  | inr q ↦ elim (Bool-cases (equal j (codes "id"))) [
    | inl p ↦ absurd (wrong (rw (q, p) at h))
    | inr p ↦ (p, inr (rw (q, p) at h))
  ]
]
  where
    wrong : false ≡ true → ⊥
    wrong w = cc

not_before-Precedes : (k j : Bytes) → equal k j ≡ false → comes_before k j ≡ false → Precedes j k
unfolding comes_before
not_before-Precedes k j e h = elim (Bool-cases (equal k (codes "id"))) [
  | inl q ↦ absurd (wrong (rw q at h))
  | inr q ↦ elim (Bool-cases (equal j (codes "id"))) [
    | inl p ↦ (q, inl p)
    | inr p ↦ (q, inr (less_total j k e (rw (q, p) at h)))
  ]
]
  where
    wrong : true ≡ false → ⊥
    wrong w = cc

Leads-insert_member :
    (j k : Bytes) (v : Value) (ms : Members)
    → Precedes j k
    → Leads j ms
    → Leads j (insert_member k v ms)
unfolding insert_member
Leads-insert_member j k v end h l = h
Leads-insert_member j k v (member i w ms) h l = elim (Bool-cases (comes_before k i)) [
  | inl e ↦ rw e h
  | inr e ↦ rw e l
]

insert_member-AreOrdered :
    (k : Bytes) (v : Value) (ms : Members)
    → has_name k ms ≡ false
    → AreOrdered ms
    → AreOrdered (insert_member k v ms)
unfolding insert_member
insert_member-AreOrdered k v end h o = (tt, tt)
insert_member-AreOrdered k v (member j w ms) h o = elim (Bool-cases (comes_before k j)) [
  | inl e ↦ rw e (comes_before-Precedes k j (ground arith) e, o)
  | inr e ↦ rw e (
    Leads-insert_member j k v ms (not_before-Precedes k j (ground arith) e) o.0,
    insert_member-AreOrdered k v ms (ground arith) o.1,
  )
]

sort_members-AreOrdered :
    (job : Job) (field : Bytes) (ms : Members)
    → MembersHavePlainNames ms
    → AreOrdered (sort_members job field ms)
unfolding sort_members
sort_members-AreOrdered job field end h = tt
sort_members-AreOrdered job field (member k v ms) h =
    insert_member-AreOrdered k (sort_value job (member_path field k) v) (sort_members job field ms)
      (has_name-sort_members job field k ms ∙ h.1) (sort_members-AreOrdered job field ms h.3)

module _ (job : Job) where
  replace_members-Leads :
      (j : Bytes) (ms : Members) (field : Bytes) (depth : ℕ) (stats : FieldStats)
      → Leads j ms
      → Leads j (replace_members job ms field depth stats).0
  unfolding replace_members
  replace_members-Leads j end field depth stats h = tt
  replace_members-Leads j (member k v ms) field depth stats h = h

  replace_members-AreOrdered :
      (ms : Members) (field : Bytes) (depth : ℕ) (stats : FieldStats)
      → AreOrdered ms
      → AreOrdered (replace_members job ms field depth stats).0
  unfolding replace_members
  replace_members-AreOrdered end field depth stats h = tt
  replace_members-AreOrdered (member k v ms) field depth stats h = (
    replace_members-Leads k ms field depth _ h.0,
    replace_members-AreOrdered ms field depth _ h.1,
  )

  -- A value that is sorted once it is replaced, at its path.
  abbrev Sorts : Bytes → Value → Type 0
  Sorts field v =
      (depth : ℕ) (obj : Bool) (stats : FieldStats)
      → IsSorted (replace_value job v field depth obj stats).0

  abbrev AllSort : Bytes → Members → Type 0
  AllSort field end = Unit
  AllSort field (member k v ms) = Sorts (member_path field k) v × AllSort field ms

  insert_member-AllSort :
      (field k : Bytes) (v : Value) (ms : Members)
      → Sorts (member_path field k) v
      → AllSort field ms
      → AllSort field (insert_member k v ms)
  unfolding insert_member
  insert_member-AllSort field k v end h all = (h, tt)
  insert_member-AllSort field k v (member j w ms) h all = elim (Bool-cases (comes_before k j)) [
    | inl e ↦ rw e (h, all)
    | inr e ↦ rw e (all.0, insert_member-AllSort field k v ms h all.1)
  ]

  replace_members-AreSorted :
      (ms : Members) (field : Bytes) (depth : ℕ) (stats : FieldStats)
      → AllSort field ms
      → MembersAreSorted (replace_members job ms field depth stats).0
  unfolding replace_members
  replace_members-AreSorted end field depth stats h = tt
  replace_members-AreSorted (member k v ms) field depth stats h =
      (h.0 depth true stats, replace_members-AreSorted ms field depth _ h.1)

  mutual
    unfolding sort_value sort_items sort_members replace_value replace_items replace_members

    sort_value-Sorts :
        (v : Value) (field : Bytes) → HasPlainNames v → Sorts field (sort_value job field v)
    sort_value-Sorts null field h depth obj stats = tt
    sort_value-Sorts (boolean b) field h depth obj stats = tt
    sort_value-Sorts (number n) field h depth obj stats = tt
    sort_value-Sorts (string s) field h depth obj stats = tt
    sort_value-Sorts (array xs) field h depth obj stats = elim (Bool-cases (is_removed job field)) [
      | inl e ↦ rw (e, e) tt
      | inr e ↦ rw (e, e) (sort_items-AreSorted xs 0 field h (depth + 1) stats)
    ]
    sort_value-Sorts (object ms) field h depth obj stats =
        elim (Bool-cases (is_removed job field)) [
          | inl e ↦ rw (e, e) tt
          | inr e ↦
              rw (e, e)
                (
                  replace_members-AreOrdered (sort_members job field ms) field (depth + 1) stats
                      (sort_members-AreOrdered job field ms h),
                  replace_members-AreSorted (sort_members job field ms) field (depth + 1) stats
                      (sort_members-AllSort ms field h),
                )
        ]

    sort_items-AreSorted :
        (xs : Items) (x : ℕ) (field : Bytes)
        → ItemsHavePlainNames xs
        → (depth : ℕ) (stats : FieldStats)
        → ItemsAreSorted (replace_items job (sort_items job field x xs) x field depth stats).0
    sort_items-AreSorted nil x field h depth stats = tt
    sort_items-AreSorted (cons v xs) x field h depth stats = (
      sort_value-Sorts v (item_path field x) h.0 depth false stats,
      sort_items-AreSorted xs (x + 1) field h.1 depth _,
    )

    sort_members-AllSort :
        (ms : Members) (field : Bytes)
        → MembersHavePlainNames ms
        → AllSort field (sort_members job field ms)
    sort_members-AllSort end field h = tt
    sort_members-AllSort (member k v ms) field h =
        insert_member-AllSort field k (sort_value job (member_path field k) v)
          (sort_members job field ms) (sort_value-Sorts v (member_path field k) h.2)
          (sort_members-AllSort ms field h.3)

-- For a pointer that sets a value in its place, and a record in which the names of the members of
-- each object are different and hold no `/`, `~` or zero byte: in each object of the processed
-- record, the members are in order, `id` first and the others by the bytes of their names.
pub process_json_record-IsSorted :
    (job : Job) (sets : SetsInPlace job.rapidjson) (root : Value) (stats : FieldStats)
    → HasPlainNames root
    → IsSorted (process_json_record job root stats).0
process_json_record-IsSorted job sets root stats h =
    subst (λ p. IsSorted (p.0)) (sym (process_json_record-replaced job sets root stats h))
      (sort_value-Sorts job root [] h 0 true stats)
