-- ===== src/Handler/Text.antt =====
-- The text of a record is the record, printed with a comma behind each member and item.
use ldp.Base.{
  ◌+◌, ◌<◌, ◌^◌, true, List, [], ◌∷◌, ◌++◌, append_assoc, append-nil, ltb, if◌then◌else◌, Bytes,
  codes, ◌≡◌, ◌≢◌, refl, sym, ap, ◌∙◌, arith,
}
use ldp.Handler.{Event, Env, Handler, append_text, step, run}
use ldp.Json.{
  ℤ, pos, negsuc, integer_to_string, integer, double, Value, null, boolean, number, string, array,
  object, Items, nil, cons, Members, end, member,
}
use ldp.JsonText.{encode_json}

-- The reader calls `Uint` or `Uint64` for a number without a sign, by its size, and `Int` or
-- `Int64` for one with a sign.
abbrev pub integer_event : ℤ → Event
integer_event (pos n) = if ltb n (2 ^ 32) then Event.uint n else Event.uint64 n
integer_event (negsuc n) = if ltb n (2 ^ 31) then Event.int (negsuc n) else Event.int64 (negsuc n)

-- The reader's calls for a value, and then `rest`.
abbrev mutual
  pub value_onto : Value → List Event → List Event
  value_onto null rest = Event.null ∷ rest
  value_onto (boolean b) rest = Event.bool b ∷ rest
  value_onto (number (integer z)) rest = integer_event z ∷ rest
  value_onto (number (double d)) rest = Event.double d ∷ rest
  value_onto (string s) rest = Event.string s ∷ rest
  value_onto (array xs) rest = Event.start_array ∷ items_onto xs (Event.end_array ∷ rest)
  value_onto (object ms) rest = Event.start_object ∷ members_onto ms (Event.end_object ∷ rest)

  pub items_onto : Items → List Event → List Event
  items_onto nil rest = rest
  items_onto (cons v xs) rest = value_onto v (items_onto xs rest)

  pub members_onto : Members → List Event → List Event
  members_onto end rest = rest
  members_onto (member k v ms) rest = Event.key k ∷ value_onto v (members_onto ms rest)

abbrev mutual
  pub value_text : Value → Bytes
  value_text null = codes "null"
  value_text (boolean b) = if b then codes "true" else codes "false"
  value_text (number (integer z)) = integer_to_string z
  value_text (number (double d)) = d
  value_text (string s) = b'"' ∷ (encode_json s [] ++ codes "\"")
  value_text (array xs) = b'[' ∷ (items_text xs ++ codes "]")
  value_text (object ms) = b'{' ∷ (members_text ms ++ codes "}")

  pub items_text : Items → Bytes
  items_text nil = []
  items_text (cons v xs) = value_text v ++ b',' ∷ items_text xs

  pub members_text : Members → Bytes
  members_text end = []
  members_text (member k v ms) =
      b'"' ∷ (encode_json k [] ++ b'"' ∷ b':' ∷ (value_text v ++ b',' ∷ members_text ms))

module _ (env : Env) where
  -- Inside a record.
  abbrev Inside : Handler → Type 0
  Inside h = (h.active ≡ true) × (2 < h.level)

  -- The two bytes that close an item are written as one text.
  run-scalar :
      (v : Value) (rest : List Event) (h : Handler)
      → Inside h
      → ((xs : Items) → v ≢ array xs)
      → ((ms : Members) → v ≢ object ms)
      → run env (value_onto v rest) h ≡ run env rest (append_text h (value_text v ++ b',' ∷ []))
  unfolding run step
  run-scalar null rest h i _ _ = ground arith
  run-scalar (boolean b) rest h i _ _ = ground arith
  run-scalar (number (integer (pos n))) rest h i _ _ = unfold integer_to_string in ground arith
  run-scalar (number (integer (negsuc n))) rest h i _ _ = ground arith
  run-scalar (number (double d)) rest h i _ _ = ground arith
  run-scalar (string s) rest h i _ _ =
      ground (arith, append_assoc (encode_json s []) (codes "\"") (codes ","))
  run-scalar (array xs) rest h i a _ = absurd (a xs refl)
  run-scalar (object ms) rest h i _ o = absurd (o ms refl)

  run-start_array :
      (rest : List Event) (h : Handler)
      → Inside h
      → run env (Event.start_array ∷ rest) h
        ≡ run env rest (record h { level = h.level + 1; record_text = h.record_text ++ codes "[" })
  unfolding run step
  run-start_array rest h i = ground arith

  run-start_object :
      (rest : List Event) (h : Handler)
      → Inside h
      → run env (Event.start_object ∷ rest) h
        ≡ run env rest (record h { level = h.level + 1; record_text = h.record_text ++ codes "{" })
  unfolding run step
  run-start_object rest h i = ground arith

  run-end_array :
      (rest : List Event) (h : Handler) (t : Bytes)
      → Inside h
      → run env (Event.end_array ∷ rest) (record h { level = h.level + 1; record_text = t })
        ≡ run env rest (record h { record_text = t ++ codes "]," })
  unfolding run step
  run-end_array rest h t i = ground arith

  run-end_object :
      (rest : List Event) (h : Handler) (t : Bytes)
      → Inside h
      → run env (Event.end_object ∷ rest) (record h { level = h.level + 1; record_text = t })
        ≡ run env rest (record h { record_text = t ++ codes "}," })
  unfolding run step
  run-end_object rest h t i = ground arith

  run-key :
      (k : Bytes) (rest : List Event) (h : Handler)
      → run env (Event.key k ∷ rest) h
        ≡ run env rest (append_text h (b'"' ∷ (encode_json k [] ++ codes "\":")))
  unfolding run step
  run-key k rest h = refl

  mutual
    run-value :
        (v : Value) (rest : List Event) (h : Handler)
        → Inside h
        → run env (value_onto v rest) h ≡ run env rest (append_text h (value_text v ++ b',' ∷ []))
    run-value (array xs) rest h i =
        run-start_array _ h i
        ∙ run-items xs (Event.end_array ∷ rest) _ (i.0, omega arith)
        ∙ run-end_array rest h _ i
        ∙ ap (λ t. run env rest (record h { record_text = t })) (simp append_assoc)
    run-value (object ms) rest h i =
        run-start_object _ h i
        ∙ run-members ms (Event.end_object ∷ rest) _ (i.0, omega arith)
        ∙ run-end_object rest h _ i
        ∙ ap (λ t. run env rest (record h { record_text = t })) (simp append_assoc)
    run-value v rest h i = run-scalar v rest h i (λ xs. cc) (λ ms. cc)

    run-items :
        (xs : Items) (rest : List Event) (h : Handler)
        → Inside h
        → run env (items_onto xs rest) h ≡ run env rest (append_text h (items_text xs))
    run-items nil rest h i =
        ap (λ t. run env rest (record h { record_text = t })) (sym (append-nil h.record_text))
    run-items (cons v xs) rest h i =
        run-value v (items_onto xs rest) h i
        ∙ run-items xs rest (append_text h (value_text v ++ b',' ∷ [])) i
        ∙ ap (λ t. run env rest (record h { record_text = t })) (simp append_assoc)

    pub run-members :
        (ms : Members) (rest : List Event) (h : Handler)
        → Inside h
        → run env (members_onto ms rest) h ≡ run env rest (append_text h (members_text ms))
    run-members end rest h i =
        ap (λ t. run env rest (record h { record_text = t })) (sym (append-nil h.record_text))
    run-members (member k v ms) rest h i =
        run-key k _ h
        ∙ run-value v (members_onto ms rest) _ i
        ∙ run-members ms rest _ i
        ∙ ap (λ t. run env rest (record h { record_text = t })) (simp append_assoc)
