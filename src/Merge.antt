-- ===== src/Merge.antt =====
-- src/merge.cpp: the history of a table's records. The rows of the tables stand in lists, and the
-- two statements of SQL are read as functions on these. The column `data` stands as its text, which
-- is what the statement compares.
pub mod Rows
pub mod Statements
pub mod Current
pub mod Again
use ldp.Base.{
  ℕ, Bool, true, false, not, ◌&&◌, List, [], ◌∷◌, ◌++◌, Option, none, some, ltb, if◌then◌else◌,
  Bytes, codes, equal, select, exists_in, gather,
}
use ldp.Table.{DataSourceType, srs_marc_records, srs_error_records}

pub record HistoryRow : Type 0 where
  pub id : Bytes
  pub data_text : Bytes
  pub updated : ℕ

pub record LoadingRow : Type 0 where
  pub id : Bytes
  pub data_text : Option Bytes

-- `NOT EXISTS`: no row of the same id has been updated later.
abbrev pub is_latest : List HistoryRow → HistoryRow → Bool
is_latest history h1 =
    not (exists_in (λ h2. equal h1.id h2.id && ltb h1.updated h2.updated) history)

-- The temporary table of `create_latest_history_table`.
unfoldable pub latest_history : List HistoryRow → List HistoryRow
latest_history history = select (is_latest history) history

-- No latest history is written for two kinds of tables.
abbrev pub writes_latest : DataSourceType → Bool
writes_latest srs_marc_records = false
writes_latest srs_error_records = false
writes_latest _ = true

-- The matching rows whose data differ.
changed : HistoryRow → List HistoryRow → List HistoryRow
changed row [] = []
changed row (h ∷ hs) =
    if equal row.data_text h.data_text then changed row hs else row ∷ changed row hs

-- `h.id IS NULL`: the left join has no match; or a match whose data differ.
pub joined : HistoryRow → List HistoryRow → List HistoryRow
unfolding changed
joined row [] = row ∷ []
joined row (h ∷ hs) = changed row (h ∷ hs)

-- The rows that one row of the loading table adds; `data IS NOT NULL` comes first.
pub inserted_data : ℕ → List HistoryRow → Bytes → Option Bytes → List HistoryRow
inserted_data now latest id none = []
inserted_data now latest id (some d) =
    joined (record { id = id; data_text = d; updated = now }) (select (λ h. equal id h.id) latest)

pub inserted : ℕ → List HistoryRow → LoadingRow → List HistoryRow
unfolding inserted_data joined
inserted now latest s = inserted_data now latest s.id s.data_text

-- The history table after `merge_table`, at the time `now`.
unfoldable pub merge_table : ℕ → List HistoryRow → List LoadingRow → List HistoryRow
unfolding inserted latest_history
merge_table now history loading = history ++ gather (inserted now (latest_history history)) loading
