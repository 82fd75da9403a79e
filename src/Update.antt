-- ===== src/Update.antt =====
-- `run_update` of src/update.cpp: the update of the tables, one after another. The databases of the
-- sources, the files on the disk and the server are parameters. The forked worker of a parallel
-- update is left out, and so is what is written to the log.
pub mod ForeignKeys
pub mod StageMerge
pub mod Atomic
pub mod Selected
pub mod Suggest
pub mod Suggested
use ldp.Base.{
  ℕ, Bool, true, false, not, ◌&&◌, ◌||◌, List, [], ◌∷◌, ◌++◌, Option, none, some, if◌then◌else◌,
  map, Bytes, codes, equal, Result, ok, runtime_error, ◌>>=◌,
}
use ldp.Anonymize.{load_anonymize_field_list}
use ldp.DropFields.{read_drop_fields}
use ldp.Extract.{Answer, WrittenFiles, retrieve_direct}
use ldp.Fields.{FieldSet}
use ldp.Init.{Connection, then_run}
use ldp.Options.{Options, DataSource}
use ldp.Stage.{Copy, Files, Staging}
use ldp.Table.{TableSchema}
use ldp.Update.StageMerge.{stage_merge}

-- What an update is given: the databases of the sources, what the disk holds once these files have
-- been written, and the file of the fields to drop; `staging` has what the arguments of a staging
-- have in common.
pub record Surroundings : Type 0 where
  pub query : DataSource → Bytes → Answer
  pub disk : WrittenFiles → Files
  pub drop_fields_file : Option Bytes
  pub staging : Staging

-- The tables that an update does not leave out.
unfoldable pub is_selected : Options → TableSchema → Bool
is_selected opt table =
    not (not (equal opt.table []) && not (equal opt.table table.name))
    && not (opt.anonymize && table.anonymize)

table_drop_fields : Options → Surroundings → Result FieldSet
table_drop_fields opt around =
    read_drop_fields around.drop_fields_file
      (if opt.anonymize then load_anonymize_field_list [] else [])

-- The sources that are staged: a directory that is given counts as one source without a name.
staging_of : Options → Surroundings → FieldSet → WrittenFiles → Staging
staging_of opt around fields written = record around.staging {
  files = around.disk written;
  drop_fields = fields;
  load_dir = if equal opt.load_from_dir [] then around.staging.load_dir else opt.load_from_dir;
  load_from_dir = opt.load_from_dir;
  source_names =
      if equal opt.load_from_dir []
      then map (λ source. source.source_name) opt.enable_sources
      else [] ∷ [];
}

-- A table after its extraction: as the code has changed it, if it is skipped, and its files.
pub record Extracted : Type 0 where
  pub table : TableSchema
  pub written : WrittenFiles

module _ {S : Type 0} (conn : Connection S) (copy : Copy S) (opt : Options)
    (around : Surroundings) where
  -- One source has been read: a table of which it has no row is cleared, and will be skipped.
  extracted : WrittenFiles → Result (TableSchema × Bool × WrittenFiles) → S → S × Result Extracted
  unfolding then_run
  extracted before (runtime_error e) s = (s, runtime_error e)
  extracted before (ok (table, true, written)) s =
      (s, ok (record { table = table; written = before ++ written }))
  extracted before (ok (table, false, written)) s =
      then_run (conn.exec s (codes "DELETE FROM " ++ (table.name ++ codes ";"))) (λ s' rows.
        (s', ok (record { table = record table { skip = true }; written = before ++ written })))

  -- The loop over the sources.
  extract_sources : List DataSource → TableSchema → WrittenFiles → S → S × Result Extracted
  unfolding then_run extracted
  extract_sources [] table written s = (s, ok (record { table = table; written = written }))
  extract_sources (source ∷ sources) table written s =
      then_run
        (extracted written
          (retrieve_direct (around.query source) source table around.staging.load_dir) s)
        (λ s' e. extract_sources sources e.table e.written s')

  -- A directory that is given has the files already.
  unfoldable pub extract_table : TableSchema → S → S × Result Extracted
  unfolding extract_sources
  extract_table table s =
      if equal opt.load_from_dir []
      then extract_sources opt.enable_sources table [] s
      else (s, ok (record { table = table; written = [] }))

  -- The error of the staging is caught, and so is that of the extraction.
  staged_table : FieldSet → S × Result Extracted → S
  unfolding staging_of stage_merge
  staged_table fields (s, runtime_error e) = s
  staged_table fields (s, ok e) =
      if e.table.skip || opt.extract_only
      then s
      else (stage_merge conn copy (staging_of opt around fields e.written) opt.record_history
          opt.all_indexes e.table s).0

  update_fields : TableSchema → S → Result FieldSet → S
  unfolding extract_table staged_table
  update_fields table s (runtime_error e) = s
  update_fields table s (ok fields) =
      if opt.anonymize && table.anonymize then s else staged_table fields (extract_table table s)

  -- One table of the loop.
  unfoldable pub update_table : TableSchema → S → S
  unfolding update_fields table_drop_fields
  update_table table s =
      if not (equal opt.table []) && not (equal opt.table table.name)
      then s
      else update_fields table s (table_drop_fields opt around)

  unfoldable pub update_tables : List TableSchema → S → S
  unfolding update_table
  update_tables [] s = s
  update_tables (table ∷ tables) s = update_tables tables (update_table table s)
