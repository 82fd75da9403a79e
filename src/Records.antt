-- ===== src/Records.antt =====
-- `process_json_record` of src/stage.cpp: the statistics of a record's fields, the dropping of
-- fields, and the order of members.
--
-- `node` is a position in the record `root`, and the value that stands there when the function comes
-- to it. A value is overwritten by the pointer of its path, from the root, which is a function of
-- rapidjson; what is counted behind that is read at the position. The names of members are C
-- strings to the program, so a path holds no zero byte.
--
-- The source sorts the members of an object when it comes to the object. Here all objects that it
-- comes to are sorted first, by `sort_value`: what is overwritten has been passed by then.
pub mod Clean
pub mod Order
pub mod Place
pub mod Replaced
pub mod Sorted
pub mod Stats
use ldp.Base.{
  ℕ, zero, suc, ◌+◌, Bool, true, false, ◌&&◌, ◌||◌, List, [], ◌∷◌, ◌++◌, ◌==◌, if◌then◌else◌, Bytes,
  codes, equal, to_string, drop, c_str, Option, none, some,
}
use ldp.Columns.{TypeCounts, no_counts, count_value}
use ldp.Fields.{FieldSet, find, data_to_filter, less, comes_before}
use ldp.Json.{
  ℤ, pos, Number, integer, Value, null, boolean, number, string, array, object, Items, nil, cons,
  Members, end, member, Rapidjson,
}

-- Into its place among sorted members.
pub insert_member : Bytes → Value → Members → Members
insert_member k v end = member k v end
insert_member k v (member j w ms) =
    let later = member j w (insert_member k v ms) in
    if comes_before k j then member k v (member j w ms) else later

-- `map<string,type_counts>`, in the order of its keys.
abbrev pub FieldStats : Type 0
FieldStats = List (Bytes × TypeCounts)

-- `(*stats)[key]`, changed by `f`; a missing key begins with no counts.
unfoldable pub modify : Bytes → (TypeCounts → TypeCounts) → FieldStats → FieldStats
modify key f [] = (key, f no_counts) ∷ []
modify key f ((j, counts) ∷ m) =
    if equal key j
    then (j, f counts) ∷ m
    else if less key j
    then (key, f no_counts) ∷ (j, counts) ∷ m
    else (j, counts) ∷ modify key f m

-- The arguments that stay the same in the recursion.
pub record Job : Type 0 where
  pub rapidjson : Rapidjson
  pub table_name : Bytes
  pub collect_stats : Bool
  pub drop_fields : FieldSet

-- Only top-level fields and those of the record's nested objects are counted, under the path
-- without its first slash.
unfoldable pub collect : Job → Bytes → ℕ → Bool → Value → FieldStats → FieldStats
collect job field depth obj v stats =
    if job.collect_stats && (depth == 1 || (depth == 2 && obj))
    then modify (drop 1 field) (count_value v) stats
    else stats

abbrev pub is_dropped : Job → Bytes → Bool
is_dropped job field = find job.drop_fields job.table_name field

-- An array or an object that becomes null.
abbrev pub is_removed : Job → Bytes → Bool
is_removed job field = is_dropped job field || data_to_filter job.table_name field

-- The path of a member and of an item.
abbrev pub member_path : Bytes → Bytes → Bytes
member_path field k = field ++ b'/' ∷ c_str k

abbrev pub item_path : Bytes → ℕ → Bytes
item_path field x = field ++ b'/' ∷ to_string x

-- The members of an object that the function comes to, and of those in it.
unfoldable mutual
  unfolding insert_member

  pub sort_value : Job → Bytes → Value → Value
  sort_value job field null = null
  sort_value job field (boolean b) = boolean b
  sort_value job field (number n) = number n
  sort_value job field (string s) = string s
  sort_value job field (array xs) =
      let sorted = array (sort_items job field 0 xs) in
      if is_removed job field then array xs else sorted
  sort_value job field (object ms) =
      let sorted = object (sort_members job field ms) in
      if is_removed job field then object ms else sorted

  pub sort_items : Job → Bytes → ℕ → Items → Items
  sort_items job field x nil = nil
  sort_items job field x (cons v xs) =
      cons (sort_value job (item_path field x) v) (sort_items job field (x + 1) xs)

  pub sort_members : Job → Bytes → Members → Members
  sort_members job field end = end
  sort_members job field (member k v ms) =
      insert_member k (sort_value job (member_path field k) v) (sort_members job field ms)

item_at : ℕ → Items → Option Value
item_at i nil = none
item_at zero (cons v xs) = some v
item_at (suc i) (cons v xs) = item_at i xs

nth_member : ℕ → Members → Option Value
nth_member i end = none
nth_member zero (member k v ms) = some v
nth_member (suc i) (member k v ms) = nth_member i ms

child_at : ℕ → Value → Option Value
unfolding item_at nth_member
child_at i (array xs) = item_at i xs
child_at i (object ms) = nth_member i ms
child_at i _ = none

-- The value at a position: the indexes on the way from the root.
unfoldable pub node_at : List ℕ → Value → Value
unfolding child_at
node_at [] v = v
node_at (i ∷ at) v = elim (child_at i v) [ none ↦ null | some w ↦ node_at at w ]

-- `Pointer(field.c_str()).Set(*root, value)` where the field is to be dropped.
unfoldable pub overwrite : Job → Bytes → Value → Value → Value
overwrite job field value root =
    if is_dropped job field then job.rapidjson.pointer_set field value root else root

-- The node, its position and its path; the record and the statistics are what the call leaves.
unfoldable mutual
  unfolding overwrite node_at

  pub process_value :
      Job → Value → List ℕ → Bytes → ℕ → Bool → Value → FieldStats → Value × FieldStats
  process_value job null node field depth obj root stats =
      (root, collect job field depth obj null stats)
  process_value job (boolean b) node field depth obj root stats =
      (overwrite job field (boolean false) root, collect job field depth obj (boolean b) stats)
  process_value job (number n) node field depth obj root stats =
      let root' = overwrite job field (number (integer (pos 0))) root in
      (root', collect job field depth obj (node_at node root') stats)
  process_value job (string s) node field depth obj root stats =
      let root' = overwrite job field (string []) root in
      (root', collect job field depth obj (node_at node root') stats)
  process_value job (array xs) node field depth obj root stats =
      let processed = process_items job xs 0 node field (depth + 1) root stats in
      if is_removed job field then (job.rapidjson.pointer_set field null root, stats) else processed
  process_value job (object ms) node field depth obj root stats =
      let processed = process_members job ms 0 node field (depth + 1) root stats in
      if is_removed job field then (job.rapidjson.pointer_set field null root, stats) else processed

  pub process_items : Job → Items → ℕ → List ℕ → Bytes → ℕ → Value → FieldStats → Value × FieldStats
  process_items job nil x node field depth root stats = (root, stats)
  process_items job (cons v xs) x node field depth root stats =
      let (root', stats') =
        process_value job v (node ++ x ∷ []) (item_path field x) depth false root stats in
      process_items job xs (x + 1) node field depth root' stats'

  pub process_members :
      Job → Members → ℕ → List ℕ → Bytes → ℕ → Value → FieldStats → Value × FieldStats
  process_members job end i node field depth root stats = (root, stats)
  process_members job (member k v ms) i node field depth root stats =
      let (root', stats') =
        process_value job v (node ++ i ∷ []) (member_path field k) depth true root stats in
      process_members job ms (i + 1) node field depth root' stats'

-- The call for a whole record: no path, depth 0.
unfoldable pub process_json_record : Job → Value → FieldStats → Value × FieldStats
unfolding process_value process_items process_members sort_value sort_items sort_members
process_json_record job root stats =
    let sorted = sort_value job [] root in process_value job sorted [] [] 0 true sorted stats
