-- ===== src/Records/Place.antt =====
-- The places in a record: a value with all that is around it, and its path.
use ldp.Base.{
  ℕ, suc, Bool, true, false, not, ◌&&◌, ◌||◌, List, [], ◌∷◌, ◌++◌, ◌==◌, some, Bytes, equal,
  append_assoc, append-nil, ◌≡◌, refl, sym, ap, ◌∙◌,
}
use ldp.Json.{Value, array, object, Items, nil, cons, Members, end, member, Rapidjson}
use ldp.Records.{item_path, member_path, item_at, nth_member, child_at, node_at}

abbrev pub append_items : Items → Items → Items
append_items nil ys = ys
append_items (cons v xs) ys = cons v (append_items xs ys)

abbrev pub append_members : Members → Members → Members
append_members end ns = ns
append_members (member k v ms) ns = member k v (append_members ms ns)

abbrev pub items_length : Items → ℕ
items_length nil = 0
items_length (cons v xs) = suc (items_length xs)

abbrev pub members_length : Members → ℕ
members_length end = 0
members_length (member k v ms) = suc (members_length ms)

abbrev pub has_name : Bytes → Members → Bool
has_name k end = false
has_name k (member j v ms) = equal k j || has_name k ms

-- What is around a value, from the inside: the items or members on both sides of it.
pub data Place : Type 0 where
  top : Place
  in_items : Place → Items → Items → Place
  in_members : Place → Members → Bytes → Members → Place

abbrev pub plug : Place → Value → Value
plug top v = v
plug (in_items c before after) v = plug c (array (append_items before (cons v after)))
plug (in_members c before k after) v = plug c (object (append_members before (member k v after)))

abbrev pub path : Place → Bytes
path top = []
path (in_items c before after) = item_path (path c) (items_length before)
path (in_members c before k after) = member_path (path c) k

abbrev pub position : Place → List ℕ
position top = []
position (in_items c before after) = position c ++ items_length before ∷ []
position (in_members c before k after) = position c ++ members_length before ∷ []

-- A name without `/`, `~` and zero bytes, which a path holds as it is.
abbrev pub plain_name : Bytes → Bool
plain_name [] = true
plain_name (c ∷ k) = not (c == 0) && not (c == b'/') && not (c == b'~') && plain_name k

-- The path names no other place: the names are plain, and none of them stands before.
abbrev pub IsPlain : Place → Type 0
IsPlain top = Unit
IsPlain (in_items c before after) = IsPlain c
IsPlain (in_members c before k after) =
    IsPlain c × (plain_name k ≡ true) × (has_name k before ≡ false)

-- What the documentation of rapidjson says of `Pointer::Set` on a value that exists: it takes the
-- new value, and all around it stays.
abbrev pub SetsInPlace : Rapidjson → Type 0
SetsInPlace r =
    (c : Place) (old new : Value) → IsPlain c → r.pointer_set (path c) new (plug c old) ≡ plug c new

item_at-append :
    (before after : Items) (v : Value)
    → item_at (items_length before) (append_items before (cons v after)) ≡ some v
unfolding item_at
item_at-append nil after v = refl
item_at-append (cons w before) after v = item_at-append before after v

nth_member-append :
    (before after : Members) (k : Bytes) (v : Value)
    → nth_member (members_length before) (append_members before (member k v after)) ≡ some v
unfolding nth_member
nth_member-append end after k v = refl
nth_member-append (member j w before) after k v = nth_member-append before after k v

node_at-below :
    (c : Place) (rest : List ℕ) (v : Value)
    → node_at (position c ++ rest) (plug c v) ≡ node_at rest v
unfolding node_at child_at
node_at-below top rest v = refl
node_at-below (in_items c before after) rest v =
    ap (λ p. node_at p (plug (in_items c before after) v)) (append_assoc (position c) _ rest)
    ∙ node_at-below c (items_length before ∷ rest) (array (append_items before (cons v after)))
    ∙ rw (item_at-append before after v, node_at, child_at) refl
node_at-below (in_members c before k after) rest v =
    ap (λ p. node_at p (plug (in_members c before k after) v)) (append_assoc (position c) _ rest)
    ∙ node_at-below c (members_length before ∷ rest)
        (object (append_members before (member k v after)))
    ∙ rw (nth_member-append before after k v, node_at, child_at) refl

-- The value of a place is found at its position.
pub node_at-plug : (c : Place) (v : Value) → node_at (position c) (plug c v) ≡ v
unfolding node_at
node_at-plug c v =
    ap (λ p. node_at p (plug c v)) (sym (append-nil (position c))) ∙ node_at-below c [] v
