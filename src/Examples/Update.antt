-- ===== src/Examples/Update.antt =====
-- Examples on the staging and the update of a table, and on its extraction.
use ldp.Base.{
  ℕ, true, false, List, [], ◌∷◌, ◌++◌, Option, In, length, subst, ◌<◌, ◌≤◌, none, some,
  if◌then◌else◌, here, there, Bytes, codes, equal, equal_iff, to_string, gather, map, select, c_str,
  Result, ok, runtime_error, ◌≡◌, ◌≢◌, refl, sym, ap, ◌∙◌, arith, Bool-cases, inl, inr,
}
use ldp.Columns.{no_counts}
use ldp.DbType.{postgresql, encode_copy}
use ldp.DbType.Copy.{IsField}
use ldp.Examples.{rapidjson_example, user, columns_example, drop_example}
use ldp.Extract.Files.{Holds, try_retrieve_direct-stage_source}
use ldp.Extract.Notes.{answers, note_members, retrieve_direct_notes-answers}
use ldp.Extract.{
  Answer, WrittenFiles, output_path, print_rows, try_retrieve_direct, retrieve_direct_notes,
  select_list, object_text, value_at,
}
use ldp.Handler.Page.{page_events}
use ldp.Handler.{Event}
use ldp.Init.Transaction.{is_plain, PlainInside}
use ldp.Init.{Connection, then_run}
use ldp.Init.Upgrade.{differ}
use ldp.Json.{pos, Value, string, object, get_member}
use ldp.Options.{Options, DataSource, default_options, update, production}
use ldp.Records.{FieldStats}
use ldp.Columns.Select.{called_for, observe}
use ldp.Columns.Width.{AreShort, text_length}
use ldp.Columns.{uint_mod}
use ldp.Json.{null}
use ldp.Stage.LoadingTable.{min_varchar_size}
use ldp.Stage.Columns.{Observed, make_columns-observed, create_table_sql-write_tuple}
use ldp.Stage.Inside.{CopyInside}
use ldp.Stage.LoadingTable.{
  make_columns, make_column, create_table_sql, create_table_start, create_table_end, column_line,
}
use ldp.Stage.Loaded.{Loads, table_rows, stage_table_2-Loads}
use ldp.Stage.{Copy, Files, Staging, stage_table_2, stage_source, stage_opened}
use ldp.Table.{ColumnSchema, TableSchema, rmb, notes}
use ldp.TextUtil.{join}
use ldp.Tuple.Row.{row_text}
use ldp.Tuple.{column_field, data_field, record_id, write_row, write_tuple}
use ldp.Update.Atomic.{Atomic, BeginOpens, CommitFails, run_transaction-Atomic}
use ldp.Update.Selected.{update_tables-select}
use ldp.Update.StageMerge.{commit_sql, run_transaction}
use ldp.Update.{Surroundings, is_selected, update_tables}

abbrev users_table : TableSchema
users_table = record {
  skip = false;
  anonymize = true;
  name = codes "user_users";
  source_spec = codes "/users";
  source_type = rmb;
  columns = columns_example;
  module_name = codes "mod-users";
  direct_source_table = codes "mod_users.users";
}

-- A directory with one page for each source.
abbrev files_example : Files
files_example = record {
  exists = λ path. true;
  page_count = λ path. some 1;
  page_events = λ path. ok (page_events (codes "users") (user ∷ []));
}

abbrev staging_example : Staging
staging_example = record {
  rapidjson = rapidjson_example;
  files = files_example;
  load_dir = codes "tmp/update";
  load_from_dir = [];
  source_names = codes "folio" ∷ [];
  drop_fields = drop_example;
  ldp_user = codes "ldp";
  ldpconfig_user = codes "ldpconfig";
  users = [];
  dbt = postgresql;
  lz4 = false;
}

-- A server that answers everything, and keeps what COPY gives it.
abbrev copy_server : Connection Bytes
copy_server = record { exec = λ s sql. (s, ok []) }

abbrev copy_example : Copy Bytes
copy_example = record {
  put_copy_data = λ b. ok tt;
  copied = λ s b. s ++ b;
  copy_end = λ s. (s, ok tt);
}

abbrev taken_example : Bytes → Bytes
taken_example s = s

stage_table_2-Loads_example :
    Loads copy_example staging_example users_table copy_server taken_example []
      (table_rows copy_example staging_example users_table)
      (stage_table_2 copy_server copy_example staging_example users_table [])
stage_table_2-Loads_example =
    stage_table_2-Loads copy_example staging_example users_table copy_server taken_example
      (λ s. (s, [], refl, refl)) (λ s b. refl) (λ s. (s, refl, refl)) []

abbrev stats_example : FieldStats
stats_example =
    (codes "id", record no_counts { string = 1; uuid = 1; max_length = 36 })
    ∷ (codes "personalName", record no_counts { string = 2; max_length = 40 })
    ∷ []

-- The names that were counted for one field.
abbrev observed_example : Observed
observed_example = (codes "personalName", string (codes "Anna Karenina") ∷ null ∷ []) ∷ []

observed_bounded :
    (field : Bytes) (vs : List Value)
    → In (field, vs) observed_example
    → (length vs < uint_mod) × AreShort vs
unfolding c_str
observed_bounded field vs (here e) =
    subst (λ xs. (length xs < uint_mod) × AreShort xs) (sym (ap (λ p. p.1) e)) (omega arith, short)
  where
    short : AreShort (string (codes "Anna Karenina") ∷ null ∷ [])
    short v (here q) = omega (arith, ap text_length q)
    short v (there (here q)) = omega (arith, ap text_length q)
    short v (there (there m)) = elim m [ ]
observed_bounded field vs (there m) = elim m [ ]

abbrev personal_name : ColumnSchema
personal_name =
    make_column (codes "personalName")
      (observe (string (codes "Anna Karenina") ∷ null ∷ []) no_counts)

make_columns-observed_example :
    (vs : List Value) × In (personal_name.source_name, vs) observed_example
    × (personal_name.type ≡ called_for vs)
    × ((v : Value) → In v vs → text_length v ≤ min_varchar_size personal_name.length)
make_columns-observed_example =
    make_columns-observed rmb observed_example observed_bounded personal_name
      (unfold make_columns in here refl)

double_IsField : (v : Value) → IsField (rapidjson_example.get_double v)
double_IsField v = ground arith

abbrev user_row : Bytes
user_row = write_row rapidjson_example (object user) columns_example [] (codes "u1")

user_written : write_tuple rapidjson_example columns_example (object user) [] ≡ ok user_row
unfolding write_tuple record_id get_member equal c_str
user_written = refl

create_table_sql-write_tuple_example :
    (i : Bytes) × (others : List ColumnSchema) × (create_table_sql users_table postgresql true
      ≡ create_table_start users_table
        ++ (gather (column_line true) others ++ create_table_end postgresql true))
    × (user_row
        ≡ []
          ++ row_text
              (encode_copy i ∷ map (column_field rapidjson_example (object user)) others)
              (data_field rapidjson_example (object user)))
create_table_sql-write_tuple_example =
    create_table_sql-write_tuple rapidjson_example double_IsField users_table postgresql true
      (object user) [] user_written

-- The statements of the transaction that is open, and those that are committed.
abbrev Store : Type 0
Store = List Bytes × List Bytes

-- A server that does not let the constraints be deleted.
abbrev guarded_server : Connection Store
guarded_server = record {
  exec = λ s sql.
      if equal sql commit_sql
      then (([], s.0 ++ s.1), ok [])
      else if equal sql (codes "DELETE FROM dbsystem.foreign_key_constraints;")
      then (s, runtime_error (codes "permission denied"))
      else ((sql ∷ s.0, s.1), ok []);
}

abbrev store_copy : Copy Store
store_copy = record {
  put_copy_data = λ b. ok tt;
  copied = λ s b. (b ∷ s.0, s.1);
  copy_end = λ s. (s, ok tt);
}

abbrev committed_example : Store → List Bytes
committed_example s = s.1

abbrev AlwaysOpen : Store → Type 0
AlwaysOpen s = Unit {0}

commit_plain : is_plain commit_sql ≡ true → ⊥
commit_plain h = cc

guarded-PlainInside : PlainInside guarded_server committed_example AlwaysOpen
guarded-PlainInside s sql h o = elim (Bool-cases (equal sql commit_sql)) [
  | inl e ↦ absurd (commit_plain (ap is_plain (sym ((equal_iff _ _).0 e)) ∙ h))
  | inr e ↦ elim (Bool-cases (equal sql (codes "DELETE FROM dbsystem.foreign_key_constraints;"))) [
    | inl d ↦ rw (e, d) (refl, tt)
    | inr d ↦ rw (e, d) (refl, tt)
  ]
]

guarded-BeginOpens : BeginOpens guarded_server committed_example AlwaysOpen
unfolding equal
guarded-BeginOpens s = (refl, tt)

guarded-CommitFails : CommitFails guarded_server committed_example AlwaysOpen
unfolding equal
guarded-CommitFails s t e h = absurd (differ e _ (sym (ap (λ x. x.1) h)))

store_copy-CopyInside : CopyInside guarded_server store_copy committed_example AlwaysOpen
store_copy-CopyInside = (λ s b o. (refl, tt), λ s o. (refl, tt))

-- One statement is committed before the update.
abbrev before_update : Store
before_update = ([], codes "INSERT" ∷ [])

run_transaction-Atomic_example :
    Atomic guarded_server committed_example AlwaysOpen before_update
      (run_transaction guarded_server store_copy staging_example true users_table before_update)
run_transaction-Atomic_example =
    run_transaction-Atomic guarded_server store_copy committed_example AlwaysOpen
      guarded-PlainInside store_copy-CopyInside staging_example guarded-BeginOpens
      guarded-CommitFails true users_table before_update

-- A source that has one user.
abbrev source_example : DataSource
source_example = record {
  source_name = codes "folio";
  okapi_tenant = codes "diku";
  direct = record {
    table_names = [];
    database_name = codes "okapi";
    database_host = codes "localhost";
    database_port = pos 5432;
    database_user = codes "ldp";
    database_password = codes "secret";
  };
}

abbrev query_example : Bytes → Answer
query_example sql = record { rows = (some [] ∷ some (codes "{}") ∷ []) ∷ []; failure = none }

abbrev written_example : WrittenFiles
written_example =
    (codes "tmp/update/user_users_folio_0.json", codes "{\n  \"a\": [\n{}\n\n  ]\n}\n")
    ∷ (codes "tmp/update/user_users_folio_count.txt", codes "1\n")
    ∷ []

-- The count of a file, and the reader's calls for its text.
abbrev counts_example : Bytes → Option ℕ
counts_example text = if equal text (codes "1\n") then some 1 else none

abbrev reads_example : Bytes → Result (List Event)
reads_example text = ok (page_events (codes "a") [])

abbrev disk_example : WrittenFiles → Files
disk_example written = record {
  exists = λ path. true;
  page_count =
      λ path. if equal path (codes "tmp/update/user_users_folio_count.txt") then some 1 else none;
  page_events = λ path. ok (page_events (codes "a") []);
}

abbrev disk_staging : Staging
disk_staging = record staging_example { files = disk_example written_example }

retrieved :
    try_retrieve_direct query_example source_example users_table (codes "tmp/update") []
    ≡ ok (true, written_example)
unfolding try_retrieve_direct print_rows equal to_string join c_str select_list value_at
retrieved = refl

disk-Holds : Holds counts_example reads_example (disk_example written_example) written_example
unfolding equal
disk-Holds = ((refl, refl, refl), ((refl, refl, refl), tt))

named : codes "folio" ≢ []
named h = cc

try_retrieve_direct-stage_source_example :
    (text : Bytes) × (written_example
      ≡ (output_path source_example users_table (codes "tmp/update") (codes "_0.json"), text)
        ∷ (
          output_path source_example users_table (codes "tmp/update") (codes "_count.txt"),
          codes "1\n",
        )
        ∷ [])
    × (stage_source copy_server copy_example disk_staging users_table 1 (codes "folio") [] []
        ≡ then_run
            (stage_opened copy_server copy_example disk_staging users_table 1 [] []
              (reads_example text))
            (λ s' stats'. (s', ok stats')))
try_retrieve_direct-stage_source_example =
    try_retrieve_direct-stage_source copy_server copy_example disk_staging query_example
      source_example users_table [] 1 counts_example reads_example written_example [] [] named
      (unfold equal in refl) retrieved disk-Holds

-- Each column holds a text, and only one of the two flags is set.
abbrev column_example : Bytes → Option Bytes
column_example name =
    if equal name (codes "pop_up_on_check_out") then some (codes "t") else some (codes "f")

retrieve_direct_notes-answers_example :
    retrieve_direct_notes (answers column_example (select_list notes []))
    ≡ object_text (note_members column_example)
retrieve_direct_notes-answers_example = retrieve_direct_notes-answers column_example

abbrev surroundings_example : Surroundings
surroundings_example = record {
  query = λ source. query_example;
  disk = disk_example;
  drop_fields_file = none;
  staging = staging_example;
}

abbrev anonymized : Options
anonymized = record (default_options update production) {
  anonymize = true;
  enable_sources = source_example ∷ [];
}

update_tables-select_example :
    update_tables copy_server copy_example anonymized surroundings_example (users_table ∷ []) []
    ≡ update_tables copy_server copy_example anonymized surroundings_example
        (select (is_selected anonymized) (users_table ∷ []))
        []
update_tables-select_example =
    update_tables-select copy_server copy_example anonymized surroundings_example (users_table ∷ [])
      []
