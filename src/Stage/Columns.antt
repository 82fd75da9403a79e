-- ===== src/Stage/Columns.antt =====
-- The columns of a table: what its statistics say of them, and the fields of its rows.
use ldp.Base.{
  Bool, true, not, List, [], ◌∷◌, ◌++◌, leb, map, select, gather, In, here, there, Bytes, codes,
  equal, ok, ◌≡◌, refl, sym, subst, length, ◌<◌, ◌≤◌, ap, ◌∙◌, arith, Bool-cases, inl, inr,
}
use ldp.Columns.Select.{called_for, observe, select_type-observe}
use ldp.Columns.Width.{AreShort, text_length, observe-covers}
use ldp.Columns.{TypeCounts, no_counts, uint_mod, select_type}
use ldp.DbType.Copy.{IsField}
use ldp.DbType.{DbSys, encode_copy}
use ldp.Json.{Rapidjson, Value}
use ldp.Records.{FieldStats}
use ldp.Stage.LoadingTable.{
  skips_field, make_column, make_columns, min_varchar_size, column_line, column_lines,
  create_table_sql, create_table_start, create_table_end,
}
use ldp.Table.{ColumnSchema, DataSourceType, TableSchema}
use ldp.Tuple.Row.{other_columns, row_text, write_tuple-row}
use ldp.Tuple.{column_field, data_field, write_tuple}

-- What the statistics of a field say of its column.
abbrev Fits : FieldStats → ColumnSchema → Type 0
Fits stats c =
    (counts : TypeCounts) × In (c.source_name, counts) stats
    × (c.type ≡ select_type counts)
    × (leb counts.max_length (min_varchar_size c.length) ≡ true)

make_column-fits :
    (counts : TypeCounts) (field : Bytes)
    → leb counts.max_length (min_varchar_size (make_column field counts).length) ≡ true
unfolding make_column min_varchar_size
make_column-fits counts field = ground arith

Fits-later :
    (p : Bytes × TypeCounts) (stats : FieldStats) (c : ColumnSchema)
    → Fits stats c
    → Fits (p ∷ stats) c
Fits-later p stats c (counts, m, t, l) = (counts, there m, t, l)

Fits-first :
    (field : Bytes) (counts : TypeCounts) (stats : FieldStats) (c : ColumnSchema)
    (columns : List ColumnSchema)
    → (In c columns → Fits stats c)
    → In c (make_column field counts ∷ columns)
    → Fits ((field, counts) ∷ stats) c
unfolding make_column
Fits-first field counts stats c columns later (here q) = (
  counts,
  here (ap (λ x. (x.source_name, counts)) q),
  ap (λ x. x.type) q,
  ap (λ x. leb counts.max_length (min_varchar_size x.length)) q ∙ make_column-fits counts field,
)
Fits-first field counts stats c columns later (there m) = Fits-later _ stats c (later m)

-- Each column is made for a field of the statistics.
make_columns-Fits :
    (source_type : DataSourceType) (stats : FieldStats) (c : ColumnSchema)
    → In c (make_columns source_type stats)
    → Fits stats c
unfolding make_columns
make_columns-Fits source_type [] c m = elim m [ ]
make_columns-Fits source_type ((field, counts) ∷ stats) c m =
    elim (Bool-cases (skips_field source_type field)) [
      | inl e ↦ Fits-later _ stats c (make_columns-Fits source_type stats c (rw e at m))
      | inr e ↦
          Fits-first field counts stats c (make_columns source_type stats)
            (make_columns-Fits source_type stats c) (rw e at m)
    ]

-- The fields with the values that were counted for them.
abbrev pub Observed : Type 0
Observed = List (Bytes × List Value)

-- The statistics of a field with these values.
abbrev pub counted : Bytes × List Value → Bytes × TypeCounts
counted (field, vs) = (field, observe vs no_counts)

In-counted :
    (observed : Observed) (p : Bytes × TypeCounts)
    → In p (map counted observed)
    → (q : Bytes × List Value) × In q observed × (p ≡ counted q)
In-counted [] p m = elim m [ ]
In-counted (q ∷ observed) p (here e) = (q, here refl, e)
In-counted (q ∷ observed) p (there m) = let (r, n, e) = In-counted observed p m in (r, there n, e)

-- With fewer than 2^32 values of a field, and texts shorter than that: each column that
-- `stage_table_1` makes from the statistics is made for a field whose values were counted. Its type
-- is the one that these values call for, and the VARCHAR that would be declared for it is as wide
-- as each of their texts.
pub make_columns-observed :
    (source_type : DataSourceType) (observed : Observed)
    → ((field : Bytes) (vs : List Value)
        → In (field, vs) observed
        → (length vs < uint_mod) × AreShort vs)
    → (c : ColumnSchema) → In c (make_columns source_type (map counted observed))
    → (vs : List Value) × In (c.source_name, vs) observed
      × (c.type ≡ called_for vs)
      × ((v : Value) → In v vs → text_length v ≤ min_varchar_size c.length)
make_columns-observed source_type observed bounded c m =
    let (counts, n, type, wide) = make_columns-Fits source_type (map counted observed) c m in
    let ((field, vs), q, e) = In-counted observed (c.source_name, counts) n in
    let few = (bounded field vs q).0 in
    let same = ap (λ p. p.1) e in
    (
      vs,
      subst (λ f. In (f, vs) observed) (sym (ap (λ p. p.0) e)) q,
      type ∙ ap select_type same ∙ select_type-observe vs few,
      λ v i. covered v vs same wide (observe-covers vs no_counts v (bounded field vs q).1 i),
    )
  where
    covered :
        {counts : TypeCounts} (v : Value) (vs : List Value)
        → counts ≡ observe vs no_counts
        → leb counts.max_length (min_varchar_size c.length) ≡ true
        → text_length v ≤ (observe vs no_counts).max_length
        → text_length v ≤ min_varchar_size c.length
    covered v vs same wide h = ground (arith, ap (λ x. x.max_length) same)

-- The columns are those of the fields that the source does not leave out, in their order.
pub make_columns-source_names :
    (source_type : DataSourceType) (stats : FieldStats)
    → map (λ c. c.source_name) (make_columns source_type stats)
      ≡ select (λ field. not (skips_field source_type field)) (map (λ p. p.0) stats)
unfolding make_columns make_column
make_columns-source_names source_type [] = refl
make_columns-source_names source_type ((field, counts) ∷ stats) =
    let ih = make_columns-source_names source_type stats in
    elim (Bool-cases (skips_field source_type field)) [
      | inl e ↦ rw e ih
      | inr e ↦ rw e (ap (λ xs. field ∷ xs) ih)
    ]

column_lines-other_columns :
    (lz4 : Bool) (columns : List ColumnSchema)
    → column_lines lz4 columns ≡ gather (column_line lz4) (other_columns columns)
unfolding column_lines
column_lines-other_columns lz4 [] = refl
column_lines-other_columns lz4 (c ∷ columns) = elim (Bool-cases (equal c.name (codes "id"))) [
  | inl e ↦ rw e (column_lines-other_columns lz4 columns)
  | inr e ↦ rw e (ap (λ x. column_line lz4 c ++ x) (column_lines-other_columns lz4 columns))
]

-- If the text of a double holds no tab and no line break: the loading table is created with the
-- columns `id`, the ones of a list, and `data`; and a row that is written has a field for `id`, one
-- for each column of the same list in the same order, and one for `data`.
pub create_table_sql-write_tuple :
    (r : Rapidjson) (double_field : (v : Value) → IsField (r.get_double v)) (table : TableSchema)
    (dbt : DbSys) (lz4 : Bool) (doc : Value) (buffer : Bytes) {after : Bytes}
    → write_tuple r table.columns doc buffer ≡ ok after
    → (i : Bytes) × (others : List ColumnSchema) × (create_table_sql table dbt lz4
        ≡ create_table_start table ++ (gather (column_line lz4) others ++ create_table_end dbt lz4))
      × (after
          ≡ buffer ++ row_text (encode_copy i ∷ map (column_field r doc) others) (data_field r doc))
unfolding create_table_sql
create_table_sql-write_tuple r double_field table dbt lz4 doc buffer h =
    let (i, e, row, fields, last) = write_tuple-row r double_field table.columns doc buffer h in
    (
      i,
      other_columns table.columns,
      ap (λ x. create_table_start table ++ (x ++ create_table_end dbt lz4))
          (column_lines-other_columns lz4 table.columns),
      row,
    )
