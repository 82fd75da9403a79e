-- ===== src/Records/Sorted.antt =====
-- The order of members, which keeps their names, and the record that `process_json_record` leaves.
use ldp.Base.{ℕ, ◌+◌, true, ◌||◌, [], Bytes, equal, ◌≡◌, refl, ap, ◌∙◌, arith, Bool-cases, inl, inr}
use ldp.Fields.{comes_before}
use ldp.Json.{
  Value, null, boolean, number, string, array, object, Items, nil, cons, Members, end, member,
}
use ldp.Records.Place.{SetsInPlace, top, has_name}
use ldp.Records.Replaced.{
  HasPlainNames, ItemsHavePlainNames, MembersHavePlainNames, equal_swap, replace_value,
  process_value-replaced,
}
use ldp.Records.{
  Job, FieldStats, is_removed, item_path, member_path, insert_member, sort_value, sort_items,
  sort_members, process_json_record,
}

has_name-insert_member :
    (j k : Bytes) (v : Value) (ms : Members)
    → has_name j (insert_member k v ms) ≡ (equal j k || has_name j ms)
unfolding insert_member
has_name-insert_member j k v end = refl
has_name-insert_member j k v (member i w ms) = elim (Bool-cases (comes_before k i)) [
  | inl e ↦ rw e refl
  | inr e ↦ rw e (ground (arith, has_name-insert_member j k v ms))
]

pub has_name-sort_members :
    (job : Job) (field j : Bytes) (ms : Members)
    → has_name j (sort_members job field ms) ≡ has_name j ms
unfolding sort_members
has_name-sort_members job field j end = refl
has_name-sort_members job field j (member k v ms) =
    has_name-insert_member j k _ (sort_members job field ms)
    ∙ ap (λ b. equal j k || b) (has_name-sort_members job field j ms)

insert_member-HavePlainNames :
    (k : Bytes) (v : Value) (ms : Members)
    → MembersHavePlainNames (member k v ms)
    → MembersHavePlainNames (insert_member k v ms)
unfolding insert_member
insert_member-HavePlainNames k v end h = h
insert_member-HavePlainNames k v (member i w ms) (plain, new, hv, (pi, ni, hw, hms)) =
    elim (Bool-cases (comes_before k i)) [
      | inl e ↦ rw e (plain, new, hv, (pi, ni, hw, hms))
      | inr e ↦ rw e (
        pi,
        has_name-insert_member i k v ms ∙ ground (arith, ni, equal_swap i k (ground arith)),
        hw,
        insert_member-HavePlainNames k v ms (plain, ground arith, hv, hms),
      )
    ]

mutual
  unfolding sort_value sort_items sort_members

  sort_value-HasPlainNames :
      (job : Job) (field : Bytes) (v : Value)
      → HasPlainNames v
      → HasPlainNames (sort_value job field v)
  sort_value-HasPlainNames job field null h = tt
  sort_value-HasPlainNames job field (boolean b) h = tt
  sort_value-HasPlainNames job field (number n) h = tt
  sort_value-HasPlainNames job field (string s) h = tt
  sort_value-HasPlainNames job field (array xs) h = elim (Bool-cases (is_removed job field)) [
    | inl e ↦ rw e h
    | inr e ↦ rw e (sort_items-HavePlainNames job field 0 xs h)
  ]
  sort_value-HasPlainNames job field (object ms) h = elim (Bool-cases (is_removed job field)) [
    | inl e ↦ rw e h
    | inr e ↦ rw e (sort_members-HavePlainNames job field ms h)
  ]

  sort_items-HavePlainNames :
      (job : Job) (field : Bytes) (x : ℕ) (xs : Items)
      → ItemsHavePlainNames xs
      → ItemsHavePlainNames (sort_items job field x xs)
  sort_items-HavePlainNames job field x nil h = tt
  sort_items-HavePlainNames job field x (cons v xs) h = (
    sort_value-HasPlainNames job (item_path field x) v h.0,
    sort_items-HavePlainNames job field (x + 1) xs h.1,
  )

  sort_members-HavePlainNames :
      (job : Job) (field : Bytes) (ms : Members)
      → MembersHavePlainNames ms
      → MembersHavePlainNames (sort_members job field ms)
  sort_members-HavePlainNames job field end h = tt
  sort_members-HavePlainNames job field (member k v ms) (plain, new, hv, hms) =
      insert_member-HavePlainNames k (sort_value job (member_path field k) v)
        (sort_members job field ms)
        (
          plain,
          has_name-sort_members job field k ms ∙ new,
          sort_value-HasPlainNames job (member_path field k) v hv,
          sort_members-HavePlainNames job field ms hms,
        )

-- For a pointer that sets a value in its place, and a record in which the names of the members of
-- each object are different and hold no `/`, `~` or zero byte: overwriting values by their paths
-- from the root gives the record, with its members sorted, and the statistics that replacing each
-- value in its place gives.
pub process_json_record-replaced :
    (job : Job) (sets : SetsInPlace job.rapidjson) (root : Value) (stats : FieldStats)
    → HasPlainNames root
    → process_json_record job root stats
      ≡ replace_value job (sort_value job [] root) [] 0 true stats
unfolding process_json_record
process_json_record-replaced job sets root stats h =
    process_value-replaced job sets (sort_value job [] root) top [] [] 0 true
      (sort_value job [] root) stats tt (sort_value-HasPlainNames job [] root h) refl refl refl
