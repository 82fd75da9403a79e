-- ===== src/Commands/Privileges.antt =====
-- The privileges of the tables of the program.
use ldp.Base.{
  Bool, true, false, ◌&&◌, List, [], ◌∷◌, ◌++◌, In, here, there, Bytes, codes, equal, equal_iff,
  Result, ok, runtime_error, ◌≡◌, refl, sym, ap, subst, arith, Bool-cases, inl, inr, ◌⊎◌,
}
use ldp.Commands.{
  compare_table, insert_table, sort_tables, usage_line, select_line, split_dot, contains,
  privilege_lines, cmd_list_privileges,
}
use ldp.DefaultSchema.{make_default_schema}
use ldp.DefaultSchema.Entry.{entry}
use ldp.DefaultSchema.Front.{front_tables}
use ldp.DefaultSchema.Circulation.{circulation_tables}
use ldp.DefaultSchema.Finance.{finance_tables}
use ldp.DefaultSchema.Inventory.{inventory_tables}
use ldp.DefaultSchema.Rest.{rest_tables}
use ldp.Table.{TableSchema}
use ldp.TextUtil.{getline_tokens}

is_ok : {A : Type 0} → Result A → Bool
is_ok (ok a) = true
is_ok (runtime_error e) = false

all_split : List TableSchema → Bool
all_split [] = true
all_split (t ∷ tables) = is_ok (split_dot t) && all_split tables

default_split : all_split make_default_schema ≡ true
unfolding all_split is_ok split_dot getline_tokens make_default_schema front_tables
    circulation_tables finance_tables inventory_tables rest_tables entry
default_split = refl

-- The two parts of the name of a source's table.
abbrev pub Splits : TableSchema → Type 0
Splits t = (p : Bytes × Bytes) × (split_dot t ≡ ok p)

is_ok-witness : {A : Type 0} (r : Result A) → is_ok r ≡ true → (a : A) × (r ≡ ok a)
unfolding is_ok
is_ok-witness (ok a) h = (a, refl)
is_ok-witness (runtime_error e) h = absurd cc

all_split-Splits :
    (tables : List TableSchema)
    → all_split tables ≡ true
    → (t : TableSchema) → In t tables
    → Splits t
unfolding all_split
all_split-Splits [] h t m = elim m [ ]
all_split-Splits (u ∷ tables) h t (here e) =
    subst Splits (sym e) (is_ok-witness (split_dot u) (ground arith))
all_split-Splits (u ∷ tables) h t (there m) = all_split-Splits tables (ground arith) t m

In-swap : {A : Type 0} {x : A} (a b : A) (xs : List A) → In x (a ∷ b ∷ xs) → In x (b ∷ a ∷ xs)
In-swap a b xs (here e) = there (here e)
In-swap a b xs (there (here e)) = here e
In-swap a b xs (there (there m)) = there (there m)

In-tail :
    {A : Type 0} {x : A} (a : A) (xs ys : List A)
    → (In x xs → In x ys)
    → In x (a ∷ xs)
    → In x (a ∷ ys)
In-tail a xs ys f (here e) = here e
In-tail a xs ys f (there m) = there (f m)

In-insert_table :
    (t u : TableSchema) (tables : List TableSchema)
    → (In u (insert_table t tables) → In u (t ∷ tables))
      × (In u (t ∷ tables) → In u (insert_table t tables))
unfolding insert_table
In-insert_table t u [] = (λ m. m, λ m. m)
In-insert_table t u (v ∷ tables) = elim (Bool-cases (compare_table v t)) [
  | inl e ↦
      let (back, forth) = In-insert_table t u tables in
      rw e (
        λ m. In-swap v t tables (In-tail v (insert_table t tables) (t ∷ tables) back m),
        λ m. In-tail v (t ∷ tables) (insert_table t tables) forth (In-swap t v tables m),
      )
  | inr e ↦ rw e (λ m. m, λ m. m)
]

In-sort_tables :
    (u : TableSchema) (tables : List TableSchema)
    → (In u (sort_tables tables) → In u tables) × (In u tables → In u (sort_tables tables))
unfolding sort_tables
In-sort_tables u [] = (λ m. m, λ m. m)
In-sort_tables u (t ∷ tables) =
    let (back, forth) = In-sort_tables u tables in
    let (out, into) = In-insert_table t u (sort_tables tables) in
    (
      λ m. In-tail t (sort_tables tables) tables back (out m),
      λ m. into (In-tail t tables (sort_tables tables) forth m),
    )

In-cases {ℓ} :
    {A : Type 0} (a : A) (xs : List A) (P : A → Type ℓ)
    → P a
    → ((x : A) → In x xs → P x)
    → (x : A) → In x (a ∷ xs)
    → P x
In-cases a xs P h f x (here e) = subst P (sym e) h
In-cases a xs P h f x (there m) = f x m

nothing : (p : Bytes × Bytes) → contains (p.0) [] ≡ true → ⊥
unfolding contains
nothing p h = cc

module _ (okapi_tenant database_user : Bytes) where
  -- The lines grant the user what reading the table takes; a schema that was granted before is not
  -- granted again.
  abbrev pub Granted : List Bytes → List Bytes → TableSchema → Type 0
  Granted schema_names lines t =
      (p : Bytes × Bytes) × (split_dot t ≡ ok p)
      × In (select_line okapi_tenant database_user (p.0) (p.1)) lines
      × (In (usage_line okapi_tenant database_user (p.0)) lines
          ⊎ (contains (p.0) schema_names ≡ true))

  abbrev pub AllGranted : List Bytes → List TableSchema → Type 0
  AllGranted schema_names tables =
      (lines : List Bytes) × (privilege_lines okapi_tenant database_user tables schema_names
        ≡ ok lines)
      × ((t : TableSchema) → In t tables → Granted schema_names lines t)

  -- The lines of a schema that was granted before.
  later_seen :
      (schema_names lines : List Bytes) (line : Bytes) (t : TableSchema)
      → Granted schema_names lines t
      → Granted schema_names (line ∷ lines) t
  later_seen schema_names lines line t (p, e, m, inl n) = (p, e, there m, inl (there n))
  later_seen schema_names lines line t (p, e, m, inr c) = (p, e, there m, inr c)

  -- The lines of a schema that is granted now.
  later_new :
      (schema_names lines : List Bytes) (comment line schema_name : Bytes) (t : TableSchema)
      → Granted (schema_name ∷ schema_names) lines t
      → Granted schema_names
          (comment ∷ usage_line okapi_tenant database_user schema_name ∷ line ∷ lines)
          t
  unfolding contains
  later_new schema_names lines comment line schema_name t (p, e, m, inl n) =
      (p, e, there (there (there m)), inl (there (there (there n))))
  later_new schema_names lines comment line schema_name t (p, e, m, inr c) =
      elim (Bool-cases (equal schema_name (p.0))) [
        | inl q ↦ (
          p,
          e,
          there (there (there m)),
          inl (
              there
                (here (ap (usage_line okapi_tenant database_user) (sym ((equal_iff _ _).0 q))))),
        )
        | inr q ↦ (p, e, there (there (there m)), inr (rw q at c))
      ]

  privilege_lines-AllGranted :
      (tables : List TableSchema) (schema_names : List Bytes)
      → ((t : TableSchema) → In t tables → Splits t)
      → AllGranted schema_names tables
  unfolding privilege_lines
  privilege_lines-AllGranted [] schema_names h = ([], refl, λ t m. elim m [ ])
  privilege_lines-AllGranted (u ∷ tables) schema_names h =
      let ((schema_name, table_name), e) = h u (here refl) in
      elim (Bool-cases (contains schema_name schema_names)) [
        | inl seen ↦
            let (lines, q, all) =
              privilege_lines-AllGranted tables schema_names (λ t m. h t (there m)) in
            let line = select_line okapi_tenant database_user schema_name table_name in
            (
              line ∷ lines,
              rw (e, seen, q) refl,
              In-cases u tables (Granted schema_names (line ∷ lines))
                  ((schema_name, table_name), e, here refl, inr seen)
                  (λ t m. later_seen schema_names lines line t (all t m)),
            )
        | inr new ↦
            let (lines, q, all) =
              privilege_lines-AllGranted tables (schema_name ∷ schema_names)
                (λ t m. h t (there m)) in
            let line = select_line okapi_tenant database_user schema_name table_name in
            let comment = codes "-- " ++ (u.module_name ++ codes "\n") in
            let usage = usage_line okapi_tenant database_user schema_name in
            (
              comment ∷ usage ∷ line ∷ lines,
              rw (e, new, q) refl,
              In-cases u tables (Granted schema_names (comment ∷ usage ∷ line ∷ lines))
                  ((schema_name, table_name), e, there (there (here refl)), inl (there (here refl)))
                  (λ t m. later_new schema_names lines comment line schema_name t (all t m)),
            )
      ]

  -- For every tenant and user, `list-privileges` prints its lines and never ends in its parsing
  -- error: for each table of the default schema, the name of its source is a schema and a table, and
  -- the lines grant the user the use of that schema and the reading of that table.
  pub cmd_list_privileges-AllGranted :
      (lines : List Bytes) × (cmd_list_privileges okapi_tenant database_user ≡ ok lines)
      × ((t : TableSchema)
          → In t make_default_schema
          → (p : Bytes × Bytes) × (split_dot t ≡ ok p)
            × In (select_line okapi_tenant database_user (p.0) (p.1)) lines
            × In (usage_line okapi_tenant database_user (p.0)) lines)
  unfolding cmd_list_privileges
  cmd_list_privileges-AllGranted =
      let (lines, q, all) = privilege_lines-AllGranted (sort_tables make_default_schema) [] (λ t m.
        all_split-Splits make_default_schema default_split t
          ((In-sort_tables t make_default_schema).0 m)) in
      (lines, q, λ t m. granted lines t (all t ((In-sort_tables t make_default_schema).1 m)))
    where
      granted :
          (lines : List Bytes) (t : TableSchema)
          → Granted [] lines t
          → (p : Bytes × Bytes) × (split_dot t ≡ ok p)
            × In (select_line okapi_tenant database_user (p.0) (p.1)) lines
            × In (usage_line okapi_tenant database_user (p.0)) lines
      granted lines t (p, e, m, inl n) = (p, e, m, n)
      granted lines t (p, e, m, inr c) = absurd (nothing p c)
