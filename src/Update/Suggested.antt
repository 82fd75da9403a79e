-- ===== src/Update/Suggested.antt =====
-- What the suggested foreign keys stand for.
use ldp.Base.{
  true, List, [], ◌∷◌, ◌++◌, In, here, there, In-append, if◌then◌else◌, equal, equal_iff, ◌≡◌, refl,
  sym, ap, subst, Bool-cases, inl, inr, ◌⊎◌, Bytes, Result, ok, runtime_error,
}
use ldp.Fields.{less}
use ldp.Init.{Connection, Rows}
use ldp.Table.{TableSchema, ColumnSchema}
use ldp.Update.ForeignKeys.{Reference}
use ldp.Update.Suggest.{
  References, foreign_key_query, has_rows, push_reference, make_reference, column_key, may_refer,
  is_foreign_key, search_column, search_table_foreign_keys, search_all,
}

-- The server has answered the query for the reference with a row.
abbrev pub IsAnswered :
    {S : Type 0} → Connection S → TableSchema → ColumnSchema → TableSchema → Type 0
IsAnswered {S} conn table column table1 =
    (s : S) × (s' : S) × (row : List Bytes) × (rows : Rows) × (conn.exec s
        (foreign_key_query table column table1)
      ≡ (s', ok (row ∷ rows)))

-- The reference is one of a column of `tables` that may refer to another table, leads to one of
-- `tables` for which the server has answered with a row, and is kept under the key of that column.
abbrev pub Stands : {S : Type 0} → Connection S → List TableSchema → Bytes → Reference → Type 0
Stands {S} conn tables key r =
    (table : TableSchema) × (column : ColumnSchema) × (table1 : TableSchema) × In table tables
    × In column table.columns
    × In table1 tables
    × (may_refer column ≡ true)
    × IsAnswered conn table column table1
    × (r ≡ make_reference table column table1)
    × (key ≡ column_key table column)

abbrev pub AllStand : {S : Type 0} → Connection S → List TableSchema → References → Type 0
AllStand conn tables refs =
    (key : Bytes) (found : List Reference) (r : Reference)
    → In (key, found) refs
    → In r found
    → Stands conn tables key r

one-Stands :
    {S : Type 0} (conn : Connection S) (tables : List TableSchema) (key : Bytes) (ref r : Reference)
    → Stands conn tables key ref
    → In r (ref ∷ [])
    → Stands conn tables key r
one-Stands conn tables key ref r h (here e) = subst (Stands conn tables key) (sym e) h
one-Stands conn tables key ref r h (there m) = elim m [ ]

AllStand-cons :
    {S : Type 0} (conn : Connection S) (tables : List TableSchema) (key : Bytes)
    (found : List Reference) (refs : References)
    → ((r : Reference) → In r found → Stands conn tables key r)
    → AllStand conn tables refs
    → AllStand conn tables ((key, found) ∷ refs)
AllStand-cons conn tables key found refs h all k fs r (here e) m =
    subst (λ x. Stands conn tables x r) (sym (ap (λ p. p.0) e))
      (h r (subst (λ x. In r x) (ap (λ p. p.1) e) m))
AllStand-cons conn tables key found refs h all k fs r (there n) m = all k fs r n m

either {ℓ} : {A B : Type 0} {C : Type ℓ} → A ⊎ B → (A → C) → (B → C) → C
either (inl a) f g = f a
either (inr b) f g = g b

push_reference-AllStand :
    {S : Type 0} (conn : Connection S) (tables : List TableSchema) (key : Bytes) (ref : Reference)
    (refs : References)
    → Stands conn tables key ref
    → AllStand conn tables refs
    → AllStand conn tables (push_reference key ref refs)
unfolding push_reference
push_reference-AllStand conn tables key ref [] h all =
    AllStand-cons conn tables key (ref ∷ []) [] (λ r m. one-Stands conn tables key ref r h m) all
push_reference-AllStand conn tables key ref ((k, found) ∷ refs) h all =
    let first = λ (r : Reference) (m : In r found). all k found r (here refl) m in
    let rest : AllStand conn tables refs = λ k' fs r n m. all k' fs r (there n) m in
    elim (Bool-cases (equal key k)) [
      | inl e ↦ rw e (
          AllStand-cons conn tables k (found ++ ref ∷ []) refs
            (λ r m. either (In-append found (ref ∷ []) m) (first r) (λ n.
              one-Stands conn tables k ref r
                (subst (λ x. Stands conn tables x ref) ((equal_iff key k).0 e) h) n))
            rest)
      | inr e ↦ rw e (elim (Bool-cases (less key k)) [
        | inl l ↦ rw l (
            AllStand-cons conn tables key (ref ∷ []) ((k, found) ∷ refs)
              (λ r m. one-Stands conn tables key ref r h m) all)
        | inr l ↦ rw l (
            AllStand-cons conn tables k found (push_reference key ref refs) first
              (push_reference-AllStand conn tables key ref refs h rest))
      ])
    ]

module _ {S : Type 0} (conn : Connection S) (tables : List TableSchema) where
  search_column-AllStand :
      (table : TableSchema) (column : ColumnSchema) (others : List TableSchema) (s : S)
      (refs : References)
      → In table tables
      → In column table.columns
      → ((t : TableSchema) → In t others → In t tables)
      → may_refer column ≡ true
      → AllStand conn tables refs
      → AllStand conn tables ((search_column conn table column others s refs).1)
  unfolding search_column is_foreign_key
  search_column-AllStand table column [] s refs m n within q all = all
  search_column-AllStand table column (table1 ∷ others) s refs m n within q all =
      search_column-AllStand table column others _ _ m n (λ t i. within t (there i)) q
        (pushed (conn.exec s (foreign_key_query table column table1)) refl)
    where
      pushed :
          (answer : S × Result Rows)
          → conn.exec s (foreign_key_query table column table1) ≡ answer
          → AllStand conn tables (
              if has_rows (answer.1)
              then push_reference
                  (column_key table column)
                  (make_reference table column table1)
                  refs
              else refs)
      pushed (s', ok (row ∷ rows)) e =
          push_reference-AllStand conn tables (column_key table column)
            (make_reference table column table1) refs
            (
              table,
              column,
              table1,
              m,
              n,
              within table1 (here refl),
              q,
              (s, s', row, rows, e),
              refl,
              refl,
            )
            all
      pushed (s', ok []) e = all
      pushed (s', runtime_error f) e = all

  search_table-AllStand :
      (table : TableSchema) (columns : List ColumnSchema) (s : S) (refs : References)
      → In table tables
      → ((c : ColumnSchema) → In c columns → In c table.columns)
      → AllStand conn tables refs
      → AllStand conn tables ((search_table_foreign_keys conn tables table columns s refs).1)
  unfolding search_table_foreign_keys
  search_table-AllStand table [] s refs m within all = all
  search_table-AllStand table (column ∷ columns) s refs m within all =
      elim (Bool-cases (may_refer column)) [
        | inl q ↦
            rw (q, search_table_foreign_keys)
              (search_table-AllStand table columns _ _ m (λ c n. within c (there n))
                (search_column-AllStand table column tables s refs m (within column (here refl))
                  (λ t i. i) q all))
        | inr q ↦
            rw (q, search_table_foreign_keys)
              (search_table-AllStand table columns s refs m (λ c n. within c (there n)) all)
      ]

  search_all-AllStand :
      (rest : List TableSchema) (s : S) (refs : References)
      → ((t : TableSchema) → In t rest → In t tables)
      → AllStand conn tables refs
      → AllStand conn tables ((search_all conn tables rest s refs).1)
  unfolding search_all
  search_all-AllStand [] s refs within all = all
  search_all-AllStand (table ∷ rest) s refs within all =
      search_all-AllStand rest _ _ (λ t n. within t (there n))
        (search_table-AllStand table table.columns s refs (within table (here refl)) (λ c n. n) all)

  -- Each key that is suggested leads from a column of a table of the schema that has the type of an
  -- id and is not named `id`, to the column `id` of a table of the schema, and the server has
  -- answered the query that joins the two with a row; and the list that the key is kept in, whose
  -- length decides if it is enabled, is the list of the name of that column.
  pub search_all-suggested : (s : S) → AllStand conn tables ((search_all conn tables tables s []).1)
  search_all-suggested s =
      search_all-AllStand tables s [] (λ t m. m) (λ key found r m n. elim m [ ])
