-- ===== src/Merge/Again.antt =====
-- A merge of what the history already holds adds nothing.
use ldp.Base.{
  ℕ, List, [], ◌∷◌, ◌++◌, append-nil, some, Bytes, equal, equal_iff, In, here, there, select,
  In-select, select-In, gather, ◌≡◌, refl, sym, ap, ap₂, ◌∙◌, Option-cases, inl, inr,
}
use ldp.Merge.{
  HistoryRow, LoadingRow, latest_history, changed, joined, inserted_data, inserted, merge_table,
}
use ldp.Merge.Current.{IsCurrent, IsPast, HasDistinctIds, merge_table-IsCurrent}

changed-same :
    (row : HistoryRow) (hs : List HistoryRow)
    → ((k : HistoryRow) → In k hs → k.data_text ≡ row.data_text)
    → changed row hs ≡ []
unfolding changed
changed-same row [] same = refl
changed-same row (h ∷ hs) same =
    rw (same h (here refl), (equal_iff row.data_text row.data_text).1 refl)
      (changed-same row hs (λ k m. same k (there m)))

joined-same :
    (row h : HistoryRow) (hs : List HistoryRow)
    → In h hs
    → ((k : HistoryRow) → In k hs → k.data_text ≡ row.data_text)
    → joined row hs ≡ []
unfolding joined
joined-same row h [] m same = elim m [ ]
joined-same row h (k ∷ hs) m same = changed-same row (k ∷ hs) same

-- Each row of the loading table that has data is current in the history.
abbrev pub HoldsAll : List HistoryRow → List LoadingRow → Type 0
HoldsAll history loading =
    (s : LoadingRow) (d : Bytes) → In s loading → s.data_text ≡ some d → IsCurrent history s.id d

inserted_data-current :
    (now : ℕ) (history : List HistoryRow) (id d : Bytes)
    → IsCurrent history id d
    → inserted_data now (latest_history history) id (some d) ≡ []
unfolding inserted_data
inserted_data-current now history id d c =
    joined-same (record { id = id; data_text = d; updated = now }) c.row
      (select (λ k. equal id k.id) (latest_history history))
      (select-In (λ k. equal id k.id) (latest_history history) c.row_in
        ((equal_iff id c.row.id).1 (sym c.row_id)))
      same
  where
    same :
        (k : HistoryRow)
        → In k (select (λ k. equal id k.id) (latest_history history))
        → k.data_text ≡ d
    same k m =
        let (l, e) = In-select (λ k. equal id k.id) (latest_history history) m in
        c.holds k l (sym ((equal_iff id k.id).0 e))

gather-current :
    (now : ℕ) (history : List HistoryRow) (loading : List LoadingRow)
    → HoldsAll history loading
    → gather (inserted now (latest_history history)) loading ≡ []
unfolding inserted
gather-current now history [] all = refl
gather-current now history (s ∷ loading) all =
    ap₂ (λ x y. x ++ y) first (gather-current now history loading (λ t d m. all t d (there m)))
  where
    first : inserted_data now (latest_history history) s.id s.data_text ≡ []
    first = elim (Option-cases s.data_text) [
      | inl e ↦ rw e refl
      | inr (d, e) ↦ rw e (inserted_data-current now history s.id d (all s d (here refl) e))
    ]

-- A merge of a loading table whose rows are all current leaves the history as it is.
merge_table-current :
    (now : ℕ) (history : List HistoryRow) (loading : List LoadingRow)
    → HoldsAll history loading
    → merge_table now history loading ≡ history
unfolding merge_table
merge_table-current now history loading all =
    ap (λ x. history ++ x) (gather-current now history loading all) ∙ append-nil history

-- For a history of which every row is older than the first merge, and a loading table with one row
-- for an id: a second merge of the same loading table, at any time, adds no row to the history.
pub merge_table-again :
    (now later : ℕ) (history : List HistoryRow) (loading : List LoadingRow)
    → IsPast now history
    → HasDistinctIds loading
    → merge_table later (merge_table now history loading) loading ≡ merge_table now history loading
merge_table-again now later history loading past distinct =
    merge_table-current later (merge_table now history loading) loading
      (merge_table-IsCurrent now history loading past distinct)
