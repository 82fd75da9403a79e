-- ===== src/Update/ForeignKeys.antt =====
-- The foreign keys of src/update.cpp: the constraints that an update removes and makes again, and
-- the keys that it suggests. What is written to the log is left out.
use ldp.Base.{
  Bool, List, [], ◌∷◌, ◌++◌, map, ◌==◌, if◌then◌else◌, Bytes, codes, c_str, Result, ok,
  runtime_error, ◌>>=◌,
}
use ldp.Init.{Connection, Rows, then_run, exec_all}

pub record Reference : Type 0 where
  pub referencing_table : Bytes
  pub referencing_column : Bytes
  pub referenced_table : Bytes
  pub referenced_column : Bytes
  pub constraint_name : Bytes

-- A field that `PQgetvalue` does not find is a null pointer, of which no string can be made.
abbrev pub null_value : Bytes
null_value = codes "basic_string: construction from null"

-- The loop over the rows of constraints.
pub constraints_of : Rows → Result (List Reference)
constraints_of [] = ok []
constraints_of ((a ∷ b ∷ c ∷ d ∷ e ∷ fields) ∷ rows) = do
  refs ← constraints_of rows
  ok (
      record {
        referencing_table = a;
        referencing_column = b;
        referenced_table = c;
        referenced_column = d;
        constraint_name = e;
      }
      ∷ refs)
constraints_of (_ ∷ rows) = runtime_error null_value

-- The loop over the rows of enabled keys, which have no name.
enabled_of : Rows → Result (List Reference)
enabled_of [] = ok []
enabled_of ((a ∷ b ∷ c ∷ d ∷ fields) ∷ rows) = do
  refs ← enabled_of rows
  ok (
      record {
        referencing_table = a;
        referencing_column = b;
        referenced_table = c;
        referenced_column = d;
        constraint_name = [];
      }
      ∷ refs)
enabled_of (_ ∷ rows) = runtime_error null_value

abbrev pub select_constraints_sql : Bytes
select_constraints_sql =
    codes
      "SELECT referencing_table,\n       referencing_column,\n       referenced_table,\n       referenced_column,\n       constraint_name\n    FROM dbsystem.foreign_key_constraints;"

abbrev pub select_enabled_sql : Bytes
select_enabled_sql =
    codes
      "SELECT referencing_table,\n       referencing_column,\n       referenced_table,\n       referenced_column\n    FROM dbconfig.foreign_keys\n    WHERE enable_constraint = TRUE;"

abbrev pub drop_constraint_sql : Reference → Bytes
drop_constraint_sql ref =
    codes "ALTER TABLE "
    ++ (ref.referencing_table
        ++ (codes "\n    DROP CONSTRAINT " ++ (ref.constraint_name ++ codes " CASCADE;")))

abbrev pub delete_constraints_sql : Bytes
delete_constraints_sql = codes "DELETE FROM dbsystem.foreign_key_constraints;"

-- The name without what stands before its first underscore; nothing, if it has none.
unfoldable pub after_underscore : Bytes → Bytes
after_underscore [] = []
after_underscore (c ∷ s) = let rest = after_underscore s in if c == b'_' then s else rest

unfoldable pub make_foreign_key_constraint_name : Bytes → Bytes → Bytes
unfolding after_underscore
make_foreign_key_constraint_name referencing_table referencing_column =
    after_underscore (c_str referencing_table) ++ (codes "_" ++ (referencing_column ++ codes "_fk"))

-- The table of the rows whose key is not there.
abbrev exceptions_sql : Reference → List Bytes
exceptions_sql ref =
    (codes
        "CREATE TEMPORARY TABLE temp_foreign_key_exceptions AS\nSELECT id AS referencing_pkey,\n       \""
      ++ (ref.referencing_column
          ++ (codes "\"\n               AS referencing_fkey\n    FROM "
              ++ (ref.referencing_table
                  ++ (codes "\n    WHERE \""
                      ++ (ref.referencing_column
                          ++ (codes "\"\n    NOT IN (\n        SELECT \""
                              ++ (ref.referenced_column
                                  ++ (codes "\"\n            FROM "
                                      ++ (ref.referenced_table ++ codes "\n    );"))))))))))
    ∷ codes "CREATE INDEX ON temp_foreign_key_exceptions\n    (referencing_fkey);"
    ∷ codes "VACUUM ANALYZE temp_foreign_key_exceptions;"
    ∷ []

abbrev exceptions_query : Bytes
exceptions_query =
    codes "SELECT referencing_pkey,\n       referencing_fkey\n    FROM temp_foreign_key_exceptions;"

abbrev delete_exceptions_sql : Reference → Bytes
delete_exceptions_sql ref =
    codes "DELETE\n    FROM "
    ++ (ref.referencing_table
        ++ (codes "\n    WHERE \""
            ++ (ref.referencing_column
                ++ codes
                    "\"\n    IN (\n        SELECT referencing_fkey\n            FROM temp_foreign_key_exceptions\n    );")))

abbrev constraint_sql : Reference → Bytes → List Bytes
constraint_sql ref constraint_name =
    (codes "ALTER TABLE "
      ++ (ref.referencing_table
          ++ (codes "\n    ADD CONSTRAINT\n    "
              ++ (constraint_name
                  ++ (codes "\n    FOREIGN KEY (\""
                      ++ (ref.referencing_column
                          ++ (codes "\")\n    REFERENCES "
                              ++ (ref.referenced_table
                                  ++ (codes " (" ++ (ref.referenced_column ++ codes ");"))))))))))
    ∷ (codes
          "INSERT INTO dbsystem.foreign_key_constraints\n    (referencing_table, referencing_column,\n     referenced_table, referenced_column, constraint_name)\n    VALUES\n    ('"
        ++ (ref.referencing_table
            ++ (codes "',\n     '"
                ++ (ref.referencing_column
                    ++ (codes "',\n     '"
                        ++ (ref.referenced_table
                            ++ (codes "',\n     '"
                                ++ (ref.referenced_column
                                    ++ (codes "',\n     '"
                                        ++ (constraint_name ++ codes "');"))))))))))
    ∷ []

-- Statements in one `try`: the first error ends them, and is dropped.
abbrev pub try_all : {S : Type 0} → Connection S → S → List Bytes → S
try_all conn s sqls = (exec_all conn s sqls).0

module _ {S : Type 0} (conn : Connection S) where
  unfoldable pub select_foreign_key_constraints : S → S × Result (List Reference)
  unfolding then_run constraints_of
  select_foreign_key_constraints s =
      then_run (conn.exec s select_constraints_sql) (λ s' rows. (s', constraints_of rows))

  unfoldable pub remove_foreign_key_constraints : S → S × Result (Unit {0})
  unfolding then_run select_foreign_key_constraints
  remove_foreign_key_constraints s =
      then_run (select_foreign_key_constraints s)
        (λ s' refs. exec_all conn s' (map drop_constraint_sql refs ++ delete_constraints_sql ∷ []))

  select_enabled_foreign_keys : S → S × Result (List Reference)
  unfolding then_run enabled_of
  select_enabled_foreign_keys s =
      then_run (conn.exec s select_enabled_sql) (λ s' rows. (s', enabled_of rows))

  -- The loop of `process_foreign_keys`, for one reference.
  process_foreign_key : Bool → Bool → Reference → S → S × Result (Unit {0})
  unfolding then_run make_foreign_key_constraint_name
  process_foreign_key enable_foreign_key_warnings force_foreign_key_constraints ref s =
      let s1 = try_all conn s (exceptions_sql ref) in
      let s2 =
        if enable_foreign_key_warnings then try_all conn s1 (exceptions_query ∷ []) else s1 in
      let s3 =
        if force_foreign_key_constraints
        then try_all conn s2 (delete_exceptions_sql ref ∷ [])
        else s2 in
      then_run (conn.exec s3 (codes "DROP TABLE IF EXISTS temp_foreign_key_exceptions;"))
        (λ s4 rows.
          if force_foreign_key_constraints
          then (
            try_all conn s4 (
                constraint_sql ref
                  (make_foreign_key_constraint_name ref.referencing_table ref.referencing_column)),
            ok tt,
          )
          else (s4, ok tt))

  process_all : Bool → Bool → List Reference → S → S × Result (Unit {0})
  unfolding then_run process_foreign_key
  process_all warnings force [] s = (s, ok tt)
  process_all warnings force (ref ∷ refs) s =
      then_run (process_foreign_key warnings force ref s)
        (λ s' u. process_all warnings force refs s')

  unfoldable pub process_foreign_keys : Bool → Bool → S → S × Result (Unit {0})
  unfolding then_run process_all select_enabled_foreign_keys
  process_foreign_keys warnings force s =
      then_run (select_enabled_foreign_keys s) (λ s' refs. process_all warnings force refs s')
