-- ===== src/Tuple/Append.antt =====
-- `writeTuple` only appends to the buffer.
use ldp.Base.{
  List, [], ◌∷◌, ◌++◌, append_assoc, Bytes, codes, equal, ok, ◌>>=◌, ◌≡◌, refl, Bool-cases,
  Option-cases, inl, inr, arith,
}
use ldp.Json.{Value, Rapidjson}
use ldp.Table.{ColumnSchema}
use ldp.Tuple.{column_loop, record_id, write_row, write_tuple}

module _ (r : Rapidjson) where
  column_loop-append :
      (doc : Value) (cs : List ColumnSchema) (buffer t : Bytes)
      → column_loop r doc cs (buffer ++ t) ≡ buffer ++ column_loop r doc cs t
  unfolding column_loop
  column_loop-append doc [] buffer t = refl
  column_loop-append doc (c ∷ cs) buffer t = elim (Bool-cases (equal c.name (codes "id"))) [
    | inl e ↦ rw e (column_loop-append doc cs buffer t)
    | inr e ↦ rw (e, append_assoc) (column_loop-append doc cs buffer _)
  ]

  write_row-append :
      (doc : Value) (cs : List ColumnSchema) (buffer i : Bytes)
      → write_row r doc cs buffer i ≡ buffer ++ write_row r doc cs [] i
  unfolding write_row
  write_row-append doc cs buffer i = simp (column_loop-append, append_assoc)

  -- The result does not depend on what the buffer holds: the same row is appended, or the same
  -- error is thrown.
  pub write_tuple-append :
      (cs : List ColumnSchema) (doc : Value) (buffer : Bytes)
      → write_tuple r cs doc buffer ≡ (write_tuple r cs doc [] >>= λ t. ok (buffer ++ t))
  unfolding write_tuple
  write_tuple-append cs doc buffer = elim (Option-cases (record_id r doc)) [
    | inl e ↦ ground arith
    | inr (i, e) ↦ ground (arith, write_row-append doc cs buffer i)
  ]
