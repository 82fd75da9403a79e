-- ===== src/Tuple/Row.antt =====
-- The shape of the row that `writeTuple` appends.
use ldp.Base.{
  ℕ, suc, ◌-◌, true, List, [], ◌∷◌, ◌++◌, append_assoc, Option, none, some, ltb, leb, if◌then◌else◌,
  Bytes, codes, equal, map, length, All, is_digit, to_string, to_string-digits, ok, ◌≡◌, inl, inr,
  refl, ◌∙◌, arith, Bool-cases, Option-cases,
}
use ldp.Columns.{ColumnType, bigint, boolean, id, numeric, timestamptz, varchar}
use ldp.DbType.Copy.{IsField, encode_copy-IsField}
use ldp.DbType.{encode_copy}
use ldp.Json.{ℤ, pos, negsuc, Value, Rapidjson, integer_to_string}
use ldp.Table.{ColumnSchema}
use ldp.Tuple.{
  varchar_size, json_value_to_string, text_field, typed_field, present_field, column_value,
  column_field, column_loop, data_field, record_id, write_row, write_tuple,
}

-- The columns other than `id`, which comes first in the row.
abbrev pub other_columns : List ColumnSchema → List ColumnSchema
other_columns [] = []
other_columns (c ∷ cs) =
    if equal c.name (codes "id") then other_columns cs else c ∷ other_columns cs

-- Fields, each with a tab behind it, and a last field with a newline.
abbrev pub row_text : List Bytes → Bytes → Bytes
row_text [] last = last ++ b'\n' ∷ []
row_text (f ∷ fs) last = f ++ b'\t' ∷ row_text fs last

to_string-IsField : (n : ℕ) → IsField (to_string n)
to_string-IsField n = digits (to_string n) (to_string-digits n)
  where
    digits : (s : Bytes) → All (λ c. is_digit c ≡ true) s → IsField s
    digits [] h = tt
    digits (c ∷ s) h = (ground arith, digits s h.1)

integer_to_string-IsField : (z : ℤ) → IsField (integer_to_string z)
unfolding integer_to_string
integer_to_string-IsField (pos n) = to_string-IsField n
integer_to_string-IsField (negsuc n) = (ground arith, to_string-IsField (suc n))

module _ (r : Rapidjson) (double_field : (v : Value) → IsField (r.get_double v)) where
  null-IsField : IsField (codes "\\N")
  null-IsField = ground arith

  text_field-IsField : (v : Value) → IsField (text_field r v)
  unfolding text_field
  text_field-IsField v =
      let s = encode_copy (json_value_to_string r v) in
      elim (Bool-cases (leb (varchar_size - 1) (length s))) [
        | inl e ↦ rw e null-IsField
        | inr e ↦ rw e (encode_copy-IsField (json_value_to_string r v)).0
      ]

  typed_field-IsField : (t : ColumnType) (v : Value) → IsField (typed_field r t v)
  unfolding typed_field
  typed_field-IsField bigint v = integer_to_string-IsField (r.get_int v)
  typed_field-IsField boolean v = ground arith
  typed_field-IsField numeric v = elim (Bool-cases (r.exceeds_limit v)) [
    | inl e ↦ rw e (ground arith)
    | inr e ↦ rw e (double_field v)
  ]
  typed_field-IsField id v = text_field-IsField v
  typed_field-IsField timestamptz v = text_field-IsField v
  typed_field-IsField varchar v = text_field-IsField v

  present_field-IsField : (t : ColumnType) (v : Option Value) → IsField (present_field r t v)
  unfolding present_field
  present_field-IsField t none = null-IsField
  present_field-IsField t (some Value.null) = null-IsField
  present_field-IsField t (some v) = typed_field-IsField t v

  column_field-IsField : (doc : Value) (c : ColumnSchema) → IsField (column_field r doc c)
  unfolding column_field
  column_field-IsField doc c = present_field-IsField c.type (column_value r doc c)

  data_field-IsField : (doc : Value) → IsField (data_field r doc)
  unfolding data_field
  data_field-IsField doc =
      let indented = encode_copy (r.pretty doc) in
      let compacted = encode_copy (r.compact doc) in
      elim (Bool-cases (ltb (varchar_size - 1) (length indented))) [
        | inl e ↦ rw e (elim (Bool-cases (ltb (varchar_size - 1) (length compacted))) [
          | inl e' ↦ rw e' null-IsField
          | inr e' ↦ rw e' (encode_copy-IsField (r.compact doc)).0
        ])
        | inr e ↦ rw e (encode_copy-IsField (r.pretty doc)).0
      ]

  column_loop-row_text :
      (doc : Value) (cs : List ColumnSchema) (buffer last : Bytes)
      → column_loop r doc cs buffer ++ (last ++ b'\n' ∷ [])
        ≡ buffer ++ row_text (map (column_field r doc) (other_columns cs)) last
  unfolding column_loop
  column_loop-row_text doc [] buffer last = refl
  column_loop-row_text doc (c ∷ cs) buffer last = elim (Bool-cases (equal c.name (codes "id"))) [
    | inl e ↦ rw e (column_loop-row_text doc cs buffer last)
    | inr e ↦ rw e (column_loop-row_text doc cs _ last ∙ simp append_assoc)
  ]

  fields-IsField :
      (doc : Value) (cs : List ColumnSchema) → All IsField (map (column_field r doc) cs)
  fields-IsField doc [] = tt
  fields-IsField doc (c ∷ cs) = (column_field-IsField doc c, fields-IsField doc cs)

  written :
      (columns : List ColumnSchema) (doc : Value) (buffer : Bytes) {after : Bytes}
      → write_tuple r columns doc buffer ≡ ok after
      → (i : Bytes) × (record_id r doc ≡ some i) × (after ≡ write_row r doc columns buffer i)
  unfolding write_tuple
  written columns doc buffer h = elim (Option-cases (record_id r doc)) [
    | inl e ↦ absurd (ground arith)
    | inr (i, e) ↦ (i, e, ground arith)
  ]

  -- If the text of a double holds no tab and no line break, a record is written as one row behind
  -- what the buffer holds: its id, one field for each column but `id` in the order of the columns,
  -- and the record itself. The fields are parted by tabs, a newline ends the row, and no field holds
  -- a tab, a newline or a carriage return.
  pub write_tuple-row :
      (columns : List ColumnSchema) (doc : Value) (buffer : Bytes) {after : Bytes}
      → write_tuple r columns doc buffer ≡ ok after
      → (i : Bytes) × (record_id r doc ≡ some i)
        × (after
            ≡ buffer
              ++ row_text
                  (encode_copy i ∷ map (column_field r doc) (other_columns columns))
                  (data_field r doc))
        × All IsField (encode_copy i ∷ map (column_field r doc) (other_columns columns))
        × IsField (data_field r doc)
  unfolding write_row
  write_tuple-row columns doc buffer h =
      let (i, e, w) = written columns doc buffer h in
      (
        i,
        e,
        w ∙ column_loop-row_text doc columns _ (data_field r doc) ∙ simp append_assoc,
        ((encode_copy-IsField i).0, fields-IsField doc (other_columns columns)),
        data_field-IsField doc,
      )
