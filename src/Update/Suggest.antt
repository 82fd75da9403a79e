-- ===== src/Update/Suggest.antt =====
-- The foreign keys that an update suggests, and the end of `run_update` of src/update.cpp behind
-- the loop over the tables. What is written to the log is left out.
use ldp.Base.{
  Bool, true, false, not, ◌&&◌, ◌||◌, List, [], ◌∷◌, ◌++◌, map, gather, ◌==◌, length, if◌then◌else◌,
  Bytes, codes, equal, Result, ok, runtime_error,
}
use ldp.Fields.{less}
use ldp.Init.{Connection, Rows, then_run, exec_all}
use ldp.Stage.LoadingTable.{is_id}
use ldp.Table.{TableSchema, ColumnSchema}
use ldp.Update.ForeignKeys.{Reference, process_foreign_keys, null_value}
use ldp.Util.{comment_sql}

-- `map<string, vector<reference>>`, in the order of its keys.
abbrev pub References : Type 0
References = List (Bytes × List Reference)

-- `(*refs)[key].push_back(ref)`
unfoldable pub push_reference : Bytes → Reference → References → References
push_reference key ref [] = (key, ref ∷ []) ∷ []
push_reference key ref ((k, found) ∷ refs) =
    let rest = push_reference key ref refs in
    if equal key k
    then (k, found ++ ref ∷ []) ∷ refs
    else if less key k
    then (key, ref ∷ []) ∷ (k, found) ∷ refs
    else (k, found) ∷ rest

abbrev pub foreign_key_query : TableSchema → ColumnSchema → TableSchema → Bytes
foreign_key_query table2 column2 table1 =
    codes "SELECT 1\n    FROM "
    ++ table2.name
    ++ codes " AS r2\n        JOIN "
    ++ table1.name
    ++ codes " AS r1\n            ON r2."
    ++ column2.name
    ++ codes " = r1.id\n    LIMIT 1;"

abbrev pub make_reference : TableSchema → ColumnSchema → TableSchema → Reference
make_reference table column table1 = record {
  referencing_table = table.name;
  referencing_column = column.name;
  referenced_table = table1.name;
  referenced_column = codes "id";
  constraint_name = [];
}

abbrev pub column_key : TableSchema → ColumnSchema → Bytes
column_key table column = table.name ++ (codes "." ++ column.name)

-- A row was found; an error counts as none.
abbrev pub has_rows : Result Rows → Bool
has_rows (ok []) = false
has_rows (ok (row ∷ rows)) = true
has_rows (runtime_error e) = false

-- The columns that may hold the key of another table.
abbrev pub may_refer : ColumnSchema → Bool
may_refer column = is_id column.type && not (equal column.name (codes "id"))

module _ {S : Type 0} (conn : Connection S) where
  unfoldable pub is_foreign_key : S → TableSchema → ColumnSchema → TableSchema → S × Bool
  is_foreign_key s table2 column2 table1 =
      let (s', result) = conn.exec s (foreign_key_query table2 column2 table1) in
      (s', has_rows result)

  -- The loop over the tables that a column may refer to.
  unfoldable pub search_column :
      TableSchema → ColumnSchema → List TableSchema → S → References → S × References
  unfolding is_foreign_key push_reference
  search_column table column [] s refs = (s, refs)
  search_column table column (table1 ∷ tables) s refs =
      let (s', found) = is_foreign_key s table column table1 in
      search_column table column tables s' (
        if found
        then push_reference (column_key table column) (make_reference table column table1) refs
        else refs)

  unfoldable pub search_table_foreign_keys :
      List TableSchema → TableSchema → List ColumnSchema → S → References → S × References
  unfolding search_column
  search_table_foreign_keys tables table [] s refs = (s, refs)
  search_table_foreign_keys tables table (column ∷ columns) s refs =
      let (s', refs') =
        if may_refer column then search_column table column tables s refs else (s, refs) in
      search_table_foreign_keys tables table columns s' refs'

  -- The loop over the tables of the schema.
  unfoldable pub search_all : List TableSchema → List TableSchema → S → References → S × References
  unfolding search_table_foreign_keys
  search_all tables [] s refs = (s, refs)
  search_all tables (table ∷ rest) s refs =
      let (s', refs') = search_table_foreign_keys tables table table.columns s refs in
      search_all tables rest s' refs'

suggest_sql : Bool → Reference → Bytes
suggest_sql enable r =
    codes
      "INSERT INTO dbsystem.suggested_foreign_keys\n    (enable_constraint,\n        referencing_table, referencing_column,\n        referenced_table, referenced_column)\nVALUES\n    ("
    ++ (if enable then codes "TRUE" else codes "FALSE")
    ++ codes ",\n        '"
    ++ r.referencing_table
    ++ codes "',\n        '"
    ++ r.referencing_column
    ++ codes "',\n        '"
    ++ r.referenced_table
    ++ codes "',\n        '"
    ++ r.referenced_column
    ++ codes "');"

-- A key is enabled where its column refers to one table only.
unfoldable pub suggestions : References → List Bytes
unfolding suggest_sql
suggestions refs = gather (λ p. map (suggest_sql (length (p.1) == 1)) (p.1)) refs

-- `detect_foreign_keys`, `force_foreign_key_constraints` and `enable_foreign_key_warnings`.
config_of : Rows → Result (Bool × Bool × Bool)
config_of ((s1 ∷ s2 ∷ s3 ∷ fields) ∷ rows) =
    ok (equal s1 (codes "t"), equal s2 (codes "t"), equal s3 (codes "t"))
config_of _ = runtime_error null_value

module _ {S : Type 0} (conn : Connection S) where
  select_config_general : S → S × Result (Bool × Bool × Bool)
  unfolding then_run config_of
  select_config_general s =
      then_run
        (conn.exec s (
          codes
            "SELECT detect_foreign_keys,\n       force_foreign_key_constraints,\n       enable_foreign_key_warnings\n    FROM dbconfig.general;"))
        (λ s' rows. (s', config_of rows))

  detect : Bool → List TableSchema → S → S × Result (Unit {0})
  unfolding then_run search_all suggestions exec_all
  detect false tables s = (s, ok tt)
  detect true tables s = then_run (conn.exec s (codes "BEGIN;")) (λ s1 rows.
      let (s2, refs) = search_all conn tables tables s1 [] in
      exec_all conn s2 (suggestions refs ++ codes "COMMIT;" ∷ []))

  -- The keys are searched in the tables with the columns that they have when the loop is over.
  unfoldable pub analyze_foreign_keys : List TableSchema → S → S × Result (Unit {0})
  unfolding then_run select_config_general detect
  analyze_foreign_keys tables s = then_run (select_config_general s) (λ s1 (detects, forces, warns).
      then_run (conn.exec s1 (codes "DELETE FROM dbsystem.suggested_foreign_keys;")) (λ s2 rows.
        then_run (detect detects tables s2) (λ s3 u.
          if warns || forces then process_foreign_keys conn warns forces s3 else (s3, ok tt))))

  -- The comments on all tables, but where only an extraction was asked for.
  unfoldable pub comment_tables : Bool → List TableSchema → S → S × Result (Unit {0})
  unfolding exec_all
  comment_tables extract_only tables s =
      if extract_only
      then (s, ok tt)
      else exec_all conn s (map (λ t. comment_sql t.name t.module_name) tables)

  unfoldable pub is_lz4_available : S → S × Bool
  is_lz4_available s =
      tested (conn.exec s (codes "CREATE TEMP TABLE lz4test (c text COMPRESSION lz4);"))
    where
      tested : S × Result Rows → S × Bool
      tested (s', ok rows) = ((conn.exec s' (codes "DROP TABLE lz4test;")).0, true)
      tested (s', runtime_error e) = (s', false)
