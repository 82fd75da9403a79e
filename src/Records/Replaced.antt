-- ===== src/Records/Replaced.antt =====
-- Records whose values are replaced in their places, and that `process_json_record`, which overwrites
-- them by their paths, does the same.
use ldp.Base.{
  ℕ, ◌+◌, Bool, true, false, ◌||◌, List, [], ◌∷◌, ◌++◌, Bytes, equal, equal_iff, if◌then◌else◌, ◌≡◌,
  refl, sym, ap, ap₂, ◌∙◌, arith, Bool-cases, inl, inr,
}
use ldp.Json.{
  pos, integer, Value, null, boolean, number, string, array, object, Items, nil, cons, Members, end,
  member,
}
use ldp.Records.Place.{
  Place, in_items, in_members, plug, path, position, IsPlain, SetsInPlace, append_items,
  append_members, items_length, members_length, has_name, plain_name, node_at-plug,
}
use ldp.Records.{
  Job, FieldStats, item_path, member_path, is_dropped, is_removed, collect, overwrite, node_at,
  process_value, process_items, process_members,
}

abbrev pub scalar : Job → Bytes → ℕ → Bool → Value → FieldStats → Value × FieldStats
scalar job field depth obj v stats = (v, collect job field depth obj v stats)

-- Each value is replaced in its place: at a dropped path by false, 0, the empty text or null, and at
-- a filtered path by null.
unfoldable mutual
  pub replace_value : Job → Value → Bytes → ℕ → Bool → FieldStats → Value × FieldStats
  replace_value job null field depth obj stats = scalar job field depth obj null stats
  replace_value job (boolean b) field depth obj stats = (
    boolean (if is_dropped job field then false else b),
    collect job field depth obj (boolean b) stats,
  )
  replace_value job (number n) field depth obj stats =
      scalar job field depth obj (number (if is_dropped job field then integer (pos 0) else n))
        stats
  replace_value job (string s) field depth obj stats =
      scalar job field depth obj (string (if is_dropped job field then [] else s)) stats
  replace_value job (array xs) field depth obj stats =
      let (xs', stats') = replace_items job xs 0 field (depth + 1) stats in
      if is_removed job field then (null, stats) else (array xs', stats')
  replace_value job (object ms) field depth obj stats =
      let (ms', stats') = replace_members job ms field (depth + 1) stats in
      if is_removed job field then (null, stats) else (object ms', stats')

  pub replace_items : Job → Items → ℕ → Bytes → ℕ → FieldStats → Items × FieldStats
  replace_items job nil x field depth stats = (nil, stats)
  replace_items job (cons v xs) x field depth stats =
      let (v', stats') = replace_value job v (item_path field x) depth false stats in
      let (xs', stats'') = replace_items job xs (x + 1) field depth stats' in (cons v' xs', stats'')

  pub replace_members : Job → Members → Bytes → ℕ → FieldStats → Members × FieldStats
  replace_members job end field depth stats = (end, stats)
  replace_members job (member k v ms) field depth stats =
      let (v', stats') = replace_value job v (member_path field k) depth true stats in
      let (ms', stats'') = replace_members job ms field depth stats' in (member k v' ms', stats'')

abbrev mutual
  -- The names of members are plain, and no two members of an object have the same name.
  pub HasPlainNames : Value → Type 0
  HasPlainNames (array xs) = ItemsHavePlainNames xs
  HasPlainNames (object ms) = MembersHavePlainNames ms
  HasPlainNames _ = Unit

  pub ItemsHavePlainNames : Items → Type 0
  ItemsHavePlainNames nil = Unit
  ItemsHavePlainNames (cons v xs) = HasPlainNames v × ItemsHavePlainNames xs

  pub MembersHavePlainNames : Members → Type 0
  MembersHavePlainNames end = Unit
  MembersHavePlainNames (member k v ms) =
      (plain_name k ≡ true) × (has_name k ms ≡ false) × HasPlainNames v × MembersHavePlainNames ms

-- No name of the members stands before.
abbrev AreNew : Members → Members → Type 0
AreNew before end = Unit
AreNew before (member k v ms) = (has_name k before ≡ false) × AreNew before ms

append_items_assoc :
    (xs ys zs : Items) → append_items (append_items xs ys) zs ≡ append_items xs (append_items ys zs)
append_items_assoc nil ys zs = refl
append_items_assoc (cons v xs) ys zs = ap (cons v) (append_items_assoc xs ys zs)

append_members_assoc :
    (xs ys zs : Members)
    → append_members (append_members xs ys) zs ≡ append_members xs (append_members ys zs)
append_members_assoc end ys zs = refl
append_members_assoc (member k v xs) ys zs = ap (member k v) (append_members_assoc xs ys zs)

length_next :
    (xs : Items) (v : Value) → items_length xs + 1 ≡ items_length (append_items xs (cons v nil))
length_next nil v = refl
length_next (cons w xs) v = omega (arith, length_next xs v)

members_length_next :
    (ms : Members) (k : Bytes) (v : Value)
    → members_length ms + 1 ≡ members_length (append_members ms (member k v end))
members_length_next end k v = refl
members_length_next (member j w ms) k v = omega (arith, members_length_next ms k v)

has_name_next :
    (j k : Bytes) (v : Value) (before : Members)
    → has_name j (append_members before (member k v end)) ≡ (has_name j before || equal j k)
has_name_next j k v end = ground arith
has_name_next j k v (member i w before) = ground (arith, has_name_next j k v before)

pub equal_swap : (j k : Bytes) → equal k j ≡ false → equal j k ≡ false
equal_swap j k h = elim (Bool-cases (equal j k)) [
  | inl e ↦ absurd (ground (arith, (equal_iff k j).1 (sym ((equal_iff j k).0 e))))
  | inr e ↦ e
]

AreNew-next :
    (k : Bytes) (v : Value) (before ms : Members)
    → has_name k ms ≡ false
    → AreNew before ms
    → AreNew (append_members before (member k v end)) ms
AreNew-next k v before end h new = tt
AreNew-next k v before (member j w ms) h new = (
  has_name_next j k v before ∙ ground (arith, new.0, equal_swap j k (ground arith)),
  AreNew-next k v before ms (ground arith) new.1,
)

AreNew-end : (ms : Members) → AreNew end ms
AreNew-end end = tt
AreNew-end (member k v ms) = (refl, AreNew-end ms)

-- A test in front of a constructor, and behind it.
if_inside :
    {A : Type 0} (b : Bool) (f : A → Value) (x y : A)
    → (if b then f x else f y) ≡ f (if b then x else y)
if_inside true f x y = refl
if_inside false f x y = refl

-- What a call leaves: the record with the value in its place, and the statistics.
abbrev placed : Place → Value × FieldStats → Value × FieldStats
placed c p = (plug c (p.0), p.1)

module _ (job : Job) (sets : SetsInPlace job.rapidjson) where
  -- A value that is overwritten where it is to be dropped.
  overwritten :
      (c : Place) (new old : Value) (field : Bytes) (root : Value)
      → IsPlain c
      → field ≡ path c
      → root ≡ plug c old
      → overwrite job field new root ≡ plug c (if is_dropped job field then new else old)
  unfolding overwrite
  overwritten c new old field root plain f r = elim (Bool-cases (is_dropped job field)) [
    | inl e ↦ rw e (ap₂ (λ x y. job.rapidjson.pointer_set x new y) f r ∙ sets c old new plain)
    | inr e ↦ rw e r
  ]

  -- Such a value, counted as it is found at its position.
  counted :
      (c : Place) (v : Value) (node : List ℕ) (field : Bytes) (depth : ℕ) (obj : Bool)
      (root : Value) (stats : FieldStats)
      → node ≡ position c
      → root ≡ plug c v
      → ◌≡◌ {A = Value × FieldStats}
          (root, collect job field depth obj (node_at node root) stats)
          (placed c (scalar job field depth obj v stats))
  counted c v node field depth obj root stats n r =
      ap₂ (λ x y. (x, collect job field depth obj y stats)) r (ap₂ node_at n r ∙ node_at-plug c v)

  mutual
    unfolding process_value process_items process_members replace_value replace_items
        replace_members

    pub process_value-replaced :
        (v : Value) (c : Place) (node : List ℕ) (field : Bytes) (depth : ℕ) (obj : Bool)
        (root : Value) (stats : FieldStats)
        → IsPlain c
        → HasPlainNames v
        → node ≡ position c
        → field ≡ path c
        → root ≡ plug c v
        → process_value job v node field depth obj root stats
          ≡ placed c (replace_value job v field depth obj stats)
    process_value-replaced null c node field depth obj root stats plain names n f r =
        ap (λ x. (x, collect job field depth obj null stats)) r
    process_value-replaced (boolean b) c node field depth obj root stats plain names n f r =
        ap (λ x. (x, collect job field depth obj (boolean b) stats))
          (overwritten c (boolean false) (boolean b) field root plain f r
            ∙ ap (plug c) (if_inside (is_dropped job field) boolean false b))
    process_value-replaced (number m) c node field depth obj root stats plain names n f r =
        counted c _ node field depth obj _ stats n (
          overwritten c (number (integer (pos 0))) (number m) field root plain f r
          ∙ ap (plug c) (if_inside (is_dropped job field) number (integer (pos 0)) m))
    process_value-replaced (string s) c node field depth obj root stats plain names n f r =
        counted c _ node field depth obj _ stats n (
          overwritten c (string []) (string s) field root plain f r
          ∙ ap (plug c) (if_inside (is_dropped job field) string [] s))
    process_value-replaced (array xs) c node field depth obj root stats plain names n f r =
        elim (Bool-cases (is_removed job field)) [
          | inl e ↦ rw e (
              ap₂ (λ x y. (job.rapidjson.pointer_set x null y, stats)) f r
              ∙ ap (λ x. (x, stats)) (sets c (array xs) null plain))
          | inr e ↦ rw e (
              process_items-replaced xs c nil 0 node field (depth + 1) root stats plain names refl n
                f r)
        ]
    process_value-replaced (object ms) c node field depth obj root stats plain names n f r =
        elim (Bool-cases (is_removed job field)) [
          | inl e ↦ rw e (
              ap₂ (λ x y. (job.rapidjson.pointer_set x null y, stats)) f r
              ∙ ap (λ x. (x, stats)) (sets c (object ms) null plain))
          | inr e ↦ rw e (
              process_members-replaced ms c end 0 node field (depth + 1) root stats plain names
                (AreNew-end ms) refl n f r)
        ]

    process_items-replaced :
        (xs : Items) (c : Place) (before : Items) (x : ℕ) (node : List ℕ) (field : Bytes)
        (depth : ℕ) (root : Value) (stats : FieldStats)
        → IsPlain c
        → ItemsHavePlainNames xs
        → x ≡ items_length before
        → node ≡ position c
        → field ≡ path c
        → root ≡ plug c (array (append_items before xs))
        → process_items job xs x node field depth root stats
          ≡ placed c (
            array (append_items before (replace_items job xs x field depth stats).0),
            (replace_items job xs x field depth stats).1,
          )
    process_items-replaced nil c before x node field depth root stats plain names i n f r =
        ap (λ y. (y, stats)) r
    process_items-replaced (cons v xs) c before x node field depth root stats plain names i n f r =
        let (v', s') = replace_value job v (item_path field x) depth false stats in
        let next = append_items before (cons v' nil) in
        ap (λ p. process_items job xs (x + 1) node field depth (p.0) (p.1))
          (process_value-replaced v (in_items c before xs) (node ++ x ∷ []) (item_path field x)
            depth false root stats plain names.0 (ap₂ (λ a b. a ++ b ∷ []) n i) (ap₂ item_path f i)
            r)
        ∙ process_items-replaced xs c next (x + 1) node field depth _ s' plain names.1
            (ap (λ y. y + 1) i ∙ length_next before v') n f
            (ap (λ y. plug c (array y)) (sym (append_items_assoc before (cons v' nil) xs)))
        ∙ ap (λ y. placed c (array y, (replace_items job xs (x + 1) field depth s').1))
            (append_items_assoc before (cons v' nil) _)

    process_members-replaced :
        (ms : Members) (c : Place) (before : Members) (i : ℕ) (node : List ℕ) (field : Bytes)
        (depth : ℕ) (root : Value) (stats : FieldStats)
        → IsPlain c
        → MembersHavePlainNames ms
        → AreNew before ms
        → i ≡ members_length before
        → node ≡ position c
        → field ≡ path c
        → root ≡ plug c (object (append_members before ms))
        → process_members job ms i node field depth root stats
          ≡ placed c (
            object (append_members before (replace_members job ms field depth stats).0),
            (replace_members job ms field depth stats).1,
          )
    process_members-replaced end c before i node field depth root stats plain names new l n f r =
        ap (λ y. (y, stats)) r
    process_members-replaced (member k v ms) c before i node field depth root stats plain names new
          l n f r =
        let (v', s') = replace_value job v (member_path field k) depth true stats in
        let next = append_members before (member k v' end) in
        ap (λ p. process_members job ms (i + 1) node field depth (p.0) (p.1))
          (process_value-replaced v (in_members c before k ms) (node ++ i ∷ [])
            (member_path field k) depth true root stats (plain, names.0, new.0) names.2
            (ap₂ (λ a b. a ++ b ∷ []) n l) (ap (λ a. member_path a k) f) r)
        ∙ process_members-replaced ms c next (i + 1) node field depth _ s' plain names.3
            (AreNew-next k v' before ms names.1 new.1)
            (ap (λ y. y + 1) l ∙ members_length_next before k v') n f
            (ap (λ y. plug c (object y)) (sym (append_members_assoc before (member k v' end) ms)))
        ∙ ap (λ y. placed c (object y, (replace_members job ms field depth s').1))
            (append_members_assoc before (member k v' end) _)
