-- ===== src/Stage.antt =====
-- src/stage.cpp: the staging of a table from the files that an extraction left. The files are a
-- parameter: what they contain, and the events that the reader of rapidjson makes of a page. The
-- server is the state of a connection; the COPY of a page is a parameter too. What is written to
-- the log is left out.
pub mod LoadingTable
pub mod Loaded
pub mod Inside
pub mod Columns
use ldp.Base.{
  ℕ, zero, suc, ◌+◌, Bool, true, false, not, ◌&&◌, List, [], ◌∷◌, ◌++◌, ◌==◌, Option, none, some,
  if◌then◌else◌, Bytes, codes, equal, to_string, Result, ok, runtime_error, ◌>>=◌,
}
use ldp.DbType.{DbSys}
use ldp.Fields.{FieldSet}
use ldp.Handler.{Env, Event, Handler, initial, run}
use ldp.Init.{Connection, Rows, then_run, exec_all}
use ldp.Json.{Rapidjson}
use ldp.Records.{FieldStats}
use ldp.Stage.LoadingTable.{make_columns, create_loading_table}
use ldp.Table.{TableSchema}
use ldp.TextUtil.{join}
use ldp.Util.{loading_table_name}

-- `page_count` is what `fscanf` reads from a file that exists; `page_events` opens a page, which
-- may throw, and gives the calls that the reader makes up to its end or its first error, which the
-- code does not look at.
pub record Files : Type 0 where
  pub exists : Bytes → Bool
  pub page_count : Bytes → Option ℕ
  pub page_events : Bytes → Result (List Event)

-- The COPY of one page: a piece that is sent, the state behind what was sent, and the end, which is
-- `PQputCopyEnd` with the result that follows.
pub record Copy (S : Type 0) : Type 0 where
  pub put_copy_data : Bytes → Result (Unit {0})
  pub copied : S → Bytes → S
  pub copy_end : S → S × Result (Unit {0})

-- The arguments that the functions pass on.
pub record Staging : Type 0 where
  pub rapidjson : Rapidjson
  pub files : Files
  pub load_dir : Bytes
  pub load_from_dir : Bytes
  pub source_names : List Bytes
  pub drop_fields : FieldSet
  pub ldp_user : Bytes
  pub ldpconfig_user : Bytes
  pub users : List Bytes
  pub dbt : DbSys
  pub lz4 : Bool

abbrev source_suffix : Bytes → Bytes
source_suffix source_name = if not (equal source_name []) then b'_' ∷ source_name else []

unfoldable pub compose_data_file_path : Bytes → TableSchema → Bytes → Bytes → Bytes
compose_data_file_path load_dir table source_name suffix =
    join load_dir table.name ++ (source_suffix source_name ++ suffix)

-- A file that does not exist has no pages.
unfoldable pub read_page_count : Files → Bytes → Bytes → Bytes → Result ℕ
read_page_count files source_name load_dir table_name =
    let filename = join load_dir table_name ++ (source_suffix source_name ++ codes "_count.txt") in
    if not (files.exists filename) then ok 0 else elim (files.page_count filename) [
      | none ↦ runtime_error (codes "unable to read page count from " ++ filename)
      | some count ↦ ok count
    ]

abbrev pub page_path : Staging → TableSchema → Bytes → ℕ → Bytes
page_path g table source_name page =
    compose_data_file_path g.load_dir table source_name (b'_' ∷ (to_string page ++ codes ".json"))

abbrev pub test_path : Staging → TableSchema → Bytes
test_path g table = compose_data_file_path g.load_dir table [] (codes "_test.json")

-- The handler of one page.
abbrev pub page_env : {S : Type 0} → Copy S → Staging → TableSchema → ℕ → Env
page_env copy g table pass = record {
  rapidjson = g.rapidjson;
  put_copy_data = copy.put_copy_data;
  pass = pass;
  table_name = table.name;
  columns = table.columns;
  drop_fields = g.drop_fields;
}

module _ {S : Type 0} (conn : Connection S) (copy : Copy S) (g : Staging) where
  -- The end of the second pass over a page. The pieces are given to COPY together, at the end: where
  -- a page ends in an error, those that the source has sent before it are left out, and the error
  -- ends the COPY and the transaction that they are part of.
  finish_page : S → Result Handler → S × Result FieldStats
  unfolding then_run
  finish_page s (ok h) = then_run (copy.copy_end (copy.copied s h.sent)) (λ s' u. (s', ok h.stats))
  finish_page s (runtime_error e) = (s, runtime_error e)

  stage_events : TableSchema → ℕ → S → FieldStats → List Event → S × Result FieldStats
  unfolding then_run finish_page run
  stage_events table pass s stats events =
      let result = run (page_env copy g table pass) events (initial stats) in
      if pass == 2
      then then_run
          (conn.exec s (codes "COPY " ++ (loading_table_name table.name ++ codes " FROM STDIN;")))
          (λ s' rows. finish_page s' result)
      else (s, result >>= λ h. ok h.stats)

  -- A page that has been opened, or could not be.
  unfoldable pub stage_opened :
      TableSchema → ℕ → S → FieldStats → Result (List Event) → S × Result FieldStats
  unfolding stage_events
  stage_opened table pass s stats (ok events) = stage_events table pass s stats events
  stage_opened table pass s stats (runtime_error e) = (s, runtime_error e)

  unfoldable pub stage_page : TableSchema → ℕ → S → FieldStats → Bytes → S × Result FieldStats
  unfolding stage_opened
  stage_page table pass s stats filename =
      stage_opened table pass s stats (g.files.page_events filename)

  -- The pages from `page` on, `n` of them.
  unfoldable pub stage_pages :
      TableSchema → ℕ → Bytes → ℕ → ℕ → S → FieldStats → S × Result FieldStats
  unfolding stage_page then_run
  stage_pages table pass source_name page zero s stats = (s, ok stats)
  stage_pages table pass source_name page (suc n) s stats =
      then_run (stage_page table pass s stats (page_path g table source_name page))
        (λ s' stats'. stage_pages table pass source_name (page + 1) n s' stats')

  -- The pages of a source, as many as were counted.
  unfoldable pub stage_counted :
      TableSchema → ℕ → Bytes → S → FieldStats → Result ℕ → S × Result FieldStats
  unfolding stage_pages
  stage_counted table pass source_name s stats (ok n) =
      stage_pages table pass source_name 0 n s stats
  stage_counted table pass source_name s stats (runtime_error e) = (s, runtime_error e)

  unfoldable pub stage_source : TableSchema → ℕ → Bytes → S → FieldStats → S × Result FieldStats
  unfolding stage_counted read_page_count
  stage_source table pass source_name s stats =
      stage_counted table pass source_name s stats
        (read_page_count g.files source_name g.load_dir table.name)

  unfoldable pub stage_sources :
      TableSchema → ℕ → List Bytes → S → FieldStats → S × Result FieldStats
  unfolding stage_source then_run
  stage_sources table pass [] s stats = (s, ok stats)
  stage_sources table pass (source_name ∷ names) s stats =
      then_run (stage_source table pass source_name s stats)
        (λ s' stats'. stage_sources table pass names s' stats')

  -- A file of tests is staged behind the pages of a directory.
  unfoldable pub stage_test_file : TableSchema → ℕ → S → FieldStats → S × Result FieldStats
  unfolding stage_page
  stage_test_file table pass s stats =
      if not (equal g.load_from_dir []) && g.files.exists (test_path g table)
      then stage_page table pass s stats (test_path g table)
      else (s, ok stats)

  -- The loops of one pass over all files of the table.
  unfoldable pub stage_files : TableSchema → ℕ → S → S × Result FieldStats
  unfolding stage_sources stage_test_file then_run
  stage_files table pass s =
      then_run (stage_sources table pass g.source_names s [])
        (λ s' stats. stage_test_file table pass s' stats)

  -- The first pass: the table with its columns, whose loading table is created.
  unfoldable pub stage_table_1 : TableSchema → S → S × Result TableSchema
  unfolding stage_files then_run
  stage_table_1 table s = then_run (stage_files table 1 s) (λ s' stats.
      let staged = record table {
        columns = table.columns ++ make_columns table.source_type stats;
      } in
      then_run
        (exec_all conn s'
          (create_loading_table g.ldp_user g.ldpconfig_user staged g.dbt g.users g.lz4))
        (λ s'' u. (s'', ok staged)))

  -- The second pass, on the table that the first one returns.
  unfoldable pub stage_table_2 : TableSchema → S → S × Result (Unit {0})
  unfolding stage_files then_run
  stage_table_2 table s = then_run (stage_files table 2 s) (λ s' stats. (s', ok tt))
