-- ===== src/Examples/Pointers.antt =====
-- The pointer of the examples sets a value in its place.
use ldp.Base.{
  ℕ, ◌+◌, ◌==◌, Bool, true, false, List, [], ◌∷◌, ◌++◌, append_assoc, append-nil, All, Bytes, c_str,
  equal, equal_iff, is_digit, to_string, to_string-digits, to_string-injective, if◌then◌else◌, ◌≡◌,
  refl, sym, ap, ◌∙◌, arith, Bool-cases, inl, inr,
}
use ldp.Examples.{parts, tokens, set_member, set_item, set_at, rapidjson_example}
use ldp.Json.{Value, array, object, Items, nil, cons, Members, end, member}
use ldp.Records.Place.{
  Place, top, in_items, in_members, plug, path, plain_name, has_name, IsPlain, SetsInPlace,
  append_items, append_members, items_length,
}

-- No byte of the text is a slash.
abbrev has_no_slash : Bytes → Bool
has_no_slash [] = true
has_no_slash (c ∷ s) = if c == b'/' then false else has_no_slash s

c_str-plain : (k : Bytes) → plain_name k ≡ true → c_str k ≡ k
unfolding c_str
c_str-plain [] h = refl
c_str-plain (c ∷ k) h = rw (zero_free, c_str-plain k (ground arith)) refl
  where
    zero_free : (c == 0) ≡ false
    zero_free = ground arith

plain-has_no_slash : (k : Bytes) → plain_name k ≡ true → has_no_slash k ≡ true
plain-has_no_slash [] h = refl
plain-has_no_slash (c ∷ k) h = ground (arith, plain-has_no_slash k (ground arith))

digits-has_no_slash : (s : Bytes) → All (λ c. is_digit c ≡ true) s → has_no_slash s ≡ true
digits-has_no_slash [] h = refl
digits-has_no_slash (c ∷ s) h = ground (arith, h.0, digits-has_no_slash s h.1)

parts-append :
    (k rest : Bytes)
    → has_no_slash k ≡ true
    → parts (k ++ rest) ≡ (k ++ (parts rest).0, (parts rest).1)
unfolding parts
parts-append [] rest h = refl
parts-append (c ∷ k) rest h = rw (no_slash, parts-append k rest (rw no_slash at h)) refl
  where
    no_slash : (c == b'/') ≡ false
    no_slash = ground arith

-- One token behind a slash.
tokens-token :
    (k rest : Bytes)
    → has_no_slash k ≡ true
    → (parts rest).0 ≡ []
    → tokens (b'/' ∷ (k ++ rest)) ≡ k ∷ tokens rest
unfolding parts
tokens-token k rest h e =
    rw (parts-append k rest h) (ap (λ x. x ∷ tokens rest) (ap (λ x. k ++ x) e ∙ append-nil k))

abbrev tokens_of : Place → List Bytes
tokens_of top = []
tokens_of (in_items c before after) = tokens_of c ++ to_string (items_length before) ∷ []
tokens_of (in_members c before k after) = tokens_of c ++ k ∷ []

-- The tokens of a place and of one below it.
tokens-path :
    (c : Place) (rest : Bytes)
    → IsPlain c
    → (parts rest).0 ≡ []
    → tokens (path c ++ rest) ≡ tokens_of c ++ tokens rest
tokens-path top rest plain e = refl
tokens-path (in_items c before after) rest plain e =
    ap tokens (append_assoc (path c) (b'/' ∷ to_string (items_length before)) rest)
    ∙ tokens-path c (b'/' ∷ (to_string (items_length before) ++ rest)) plain (unfold parts in refl)
    ∙ ap (λ x. tokens_of c ++ x)
        (tokens-token (to_string (items_length before)) rest
          (digits-has_no_slash _ (to_string-digits (items_length before))) e)
    ∙ sym (append_assoc (tokens_of c) _ (tokens rest))
tokens-path (in_members c before k after) rest (plain, name, new) e =
    ap tokens (
      append_assoc (path c) (b'/' ∷ c_str k) rest
      ∙ ap (λ x. path c ++ b'/' ∷ (x ++ rest)) (c_str-plain k name))
    ∙ tokens-path c (b'/' ∷ (k ++ rest)) plain (unfold parts in refl)
    ∙ ap (λ x. tokens_of c ++ x) (tokens-token k rest (plain-has_no_slash k name) e)
    ∙ sym (append_assoc (tokens_of c) _ (tokens rest))

equal_refl : (s : Bytes) → equal s s ≡ true
equal_refl s = (equal_iff s s).1 refl

set_member-append :
    (k : Bytes) (f : Value → Value) (before after : Members) (v : Value)
    → has_name k before ≡ false
    → set_member k f (append_members before (member k v after))
      ≡ append_members before (member k (f v) after)
set_member-append k f end after v h = rw (equal_refl k) refl
set_member-append k f (member j w before) after v h =
    rw first (ap (member j w) (set_member-append k f before after v (ground arith)))
  where
    first : equal k j ≡ false
    first = ground arith

set_item-append :
    (f : Value → Value) (x n : ℕ) (before after : Items) (v : Value)
    → x ≡ n + items_length before
    → set_item (to_string x) f n (append_items before (cons v after))
      ≡ append_items before (cons (f v) after)
set_item-append f x n nil after v h = rw here refl
  where
    here : equal (to_string x) (to_string n) ≡ true
    here = (equal_iff _ _).1 (ap to_string (omega arith))
set_item-append f x n (cons w before) after v h =
    elim (Bool-cases (equal (to_string x) (to_string n))) [
      | inl e ↦ absurd (differ (to_string-injective x n ((equal_iff _ _).0 e)))
      | inr e ↦ rw e (ap (cons w) (set_item-append f x (n + 1) before after v (omega arith)))
    ]
  where
    differ : x ≡ n → ⊥
    differ e = omega arith

set_at-plug :
    (c : Place) (ts : List Bytes) (new v : Value)
    → IsPlain c
    → set_at (tokens_of c ++ ts) new (plug c v) ≡ plug c (set_at ts new v)
set_at-plug top ts new v plain = refl
set_at-plug (in_items c before after) ts new v plain =
    ap (λ x. set_at x new (plug (in_items c before after) v)) (append_assoc (tokens_of c) _ ts)
    ∙ set_at-plug c (to_string (items_length before) ∷ ts) new
        (array (append_items before (cons v after))) plain
    ∙ ap (λ x. plug c (array x))
        (set_item-append (set_at ts new) (items_length before) 0 before after v (omega arith))
set_at-plug (in_members c before k after) ts new v (plain, name, is_new) =
    ap (λ x. set_at x new (plug (in_members c before k after) v)) (append_assoc (tokens_of c) _ ts)
    ∙ set_at-plug c (k ∷ ts) new (object (append_members before (member k v after))) plain
    ∙ ap (λ x. plug c (object x)) (set_member-append k (set_at ts new) before after v is_new)

pub example-SetsInPlace : SetsInPlace rapidjson_example
unfolding parts
example-SetsInPlace c old new plain =
    ap (λ x. set_at x new (plug c old))
      (ap tokens (sym (append-nil (path c))) ∙ tokens-path c [] plain refl)
    ∙ set_at-plug c (tokens []) new old plain
