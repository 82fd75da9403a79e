-- ===== src/Update/StageMerge.antt =====
-- `stage_merge` of src/update.cpp: one table is staged, merged into its history and put in place of
-- the table that there was, in one transaction. What is written to the log is left out.
use ldp.Base.{
  Bool, true, false, ◌&&◌, List, [], ◌∷◌, ◌++◌, if◌then◌else◌, Bytes, codes, Result, ok,
  runtime_error,
}
use ldp.DbType.{current_timestamp}
use ldp.Init.{Connection, Rows, then_run, exec_all}
use ldp.Merge.Statements.{
  create_latest_history_table, drop_latest_history_table, merge_table_sql, drop_table_sql,
  place_table_sql,
}
use ldp.Stage.LoadingTable.{add_pkey_and_indexes}
use ldp.Stage.{Copy, Staging, stage_table_1, stage_table_2}
use ldp.Table.{TableSchema, DataSourceType, srs_records, srs_marc_records, srs_error_records}
use ldp.Update.ForeignKeys.{remove_foreign_key_constraints, null_value}

-- The kinds of tables whose records are not merged into a history.
unfoldable pub merges : DataSourceType → Bool
merges srs_marc_records = false
merges srs_records = false
merges srs_error_records = false
merges _ = true

-- `PQgetvalue(r.result, 0, 0)`
abbrev first_value : Rows → Result Bytes
first_value ((v ∷ fields) ∷ rows) = ok v
first_value _ = runtime_error null_value

abbrev pub count_sql : Bytes → Bytes
count_sql table = codes "SELECT COUNT(*) FROM\n    " ++ (table ++ codes ";")

abbrev pub begin_sql : Bytes
begin_sql = codes "BEGIN;"

abbrev pub commit_sql : Bytes
commit_sql = codes "COMMIT;"

module _ {S : Type 0} (conn : Connection S) (copy : Copy S) (g : Staging) where
  count_rows : S → Bytes → S × Result Bytes
  unfolding then_run
  count_rows s table = then_run (conn.exec s (count_sql table)) (λ s' rows. (s', first_value rows))

  update_catalog_sql : TableSchema → Bytes → Bytes → Bytes
  update_catalog_sql table row_count history_row_count =
      codes "UPDATE dbsystem.tables\n    SET updated = "
      ++ current_timestamp g.dbt
      ++ codes ",\n        row_count = "
      ++ row_count
      ++ codes ",\n        history_row_count = "
      ++ history_row_count
      ++ codes ",\n        documentation = '"
      ++ table.source_spec
      ++ codes " in "
      ++ table.module_name
      ++ codes "',\n        documentation_url = 'https://dev.folio.org/reference/api/#"
      ++ table.module_name
      ++ codes "'\n    WHERE table_name = '"
      ++ table.name
      ++ codes "';"

  -- The statements whose errors are caught one by one.
  attempt_all : S → List Bytes → S
  attempt_all s [] = s
  attempt_all s (sql ∷ sqls) = attempt_all ((conn.exec s sql).0) sqls

  -- The merge, where the history is recorded and the table is of a kind that has one.
  unfoldable pub merge_statements : Bool → TableSchema → List Bytes
  unfolding merges merge_table_sql
  merge_statements record_history table =
      if record_history && merges table.source_type then merge_table_sql table g.dbt ∷ [] else []

  -- The transaction between its BEGIN and its COMMIT: the table with its columns.
  unfoldable pub replace_table : Bool → TableSchema → S → S × Result TableSchema
  unfolding then_run merge_statements remove_foreign_key_constraints exec_all stage_table_1
      stage_table_2
  replace_table record_history table s = then_run (stage_table_1 conn copy g table s) (λ s1 staged.
      then_run (stage_table_2 conn copy g staged s1) (λ s2 u.
        then_run (exec_all conn s2 (merge_statements record_history staged)) (λ s3 u.
          then_run (remove_foreign_key_constraints conn s3) (λ s4 u.
            then_run (exec_all conn s4 (drop_table_sql staged.name ∷ place_table_sql staged ∷ []))
              (λ s5 u. (s5, ok staged))))))

  -- What follows the transaction.
  after_commit : Bool → Bool → TableSchema → S → S × Result (Unit {0})
  unfolding then_run count_rows update_catalog_sql attempt_all exec_all add_pkey_and_indexes
      drop_latest_history_table
  after_commit record_history all_indexes staged s =
      let indexed = attempt_all s (add_pkey_and_indexes staged all_indexes) in
      then_run
        (exec_all conn indexed (if record_history then drop_latest_history_table staged else []))
        (λ s1 u. then_run (count_rows s1 staged.name) (λ s2 row_count.
          then_run (count_rows s2 (codes "history." ++ staged.name)) (λ s3 history_row_count.
            exec_all conn s3 (update_catalog_sql staged row_count history_row_count ∷ []))))

  -- The transaction, with its COMMIT.
  unfoldable pub run_transaction : Bool → TableSchema → S → S × Result TableSchema
  unfolding then_run replace_table
  run_transaction record_history table s = then_run (conn.exec s begin_sql) (λ s1 rows.
      then_run (replace_table record_history table s1)
        (λ s2 staged. then_run (conn.exec s2 commit_sql) (λ s3 rows. (s3, ok staged))))

  -- The latest history is collected before the transaction.
  unfoldable pub stage_merge : Bool → Bool → TableSchema → S → S × Result (Unit {0})
  unfolding then_run run_transaction after_commit exec_all create_latest_history_table
  stage_merge record_history all_indexes table s =
      then_run (exec_all conn s (if record_history then create_latest_history_table table else []))
        (λ s1 u.
          then_run (run_transaction record_history table s1)
            (λ s2 staged. after_commit record_history all_indexes staged s2))
