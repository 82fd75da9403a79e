-- ===== src/Merge/Current.antt =====
-- After a merge the latest history is what was loaded.
use ldp.Base.{
  ℕ, ◌<◌, ◌≤◌, true, List, [], ◌++◌, some, Bytes, equal, equal_iff, In, select, In-select,
  select-In, In-append, In-append_left, In-append_right, gather, In-gather, gather-In, ◌≡◌, ◌⊎◌,
  inl, inr, refl, sym, ap, ◌∙◌, arith, subst, some-injective,
}
use ldp.Merge.{
  HistoryRow, LoadingRow, is_latest, latest_history, joined, inserted_data, inserted, merge_table,
}
use ldp.Merge.Rows.{
  In-latest, from_latest, inserted_data-row, is_latest_intro, is_latest_top, joined-cases,
}

-- Every row of the history is older than `now`.
abbrev pub IsPast : ℕ → List HistoryRow → Type 0
IsPast now history = (h : HistoryRow) → In h history → h.updated < now

-- The loading table has one row for an id.
abbrev pub HasDistinctIds : List LoadingRow → Type 0
HasDistinctIds loading = (s t : LoadingRow) → In s loading → In t loading → s.id ≡ t.id → s ≡ t

-- There is a latest row for the id, and each holds the data `d`.
pub record IsCurrent (history : List HistoryRow) (id : Bytes) (d : Bytes) : Type 0 where
  pub row : HistoryRow
  pub row_in : In row (latest_history history)
  pub row_id : row.id ≡ id
  pub holds : (h : HistoryRow) → In h (latest_history history) → h.id ≡ id → h.data_text ≡ d

module _ (now : ℕ) (history : List HistoryRow) (loading : List LoadingRow)
    (past : IsPast now history) (distinct : HasDistinctIds loading) where
  latest : List HistoryRow
  latest = latest_history history

  new_rows : List HistoryRow
  new_rows = gather (inserted now latest) loading

  merged : List HistoryRow
  merged = history ++ new_rows

  -- A new row comes from a row of the loading table.
  new_row :
      (h : HistoryRow)
      → In h new_rows
      → (s : LoadingRow) × In s loading
        × (h.id ≡ s.id)
        × (h.updated ≡ now)
        × (s.data_text ≡ some h.data_text)
        × In h (inserted now latest s)
  unfolding new_rows inserted
  new_row h m =
      let (s, ms, mh) = In-gather (inserted now latest) loading m in
      let (i, u, d) = inserted_data-row now latest s.id s.data_text h mh in (s, ms, i, u, d, mh)

  In-merged : (h : HistoryRow) → In h merged → In h history ⊎ In h new_rows
  unfolding merged
  In-merged h m = In-append history new_rows m

  old-In-merged : (h : HistoryRow) → In h history → In h merged
  unfolding merged
  old-In-merged h m = In-append_left history new_rows m

  -- No row is newer than `now`.
  merged_le : (h : HistoryRow) → In h merged → h.updated ≤ now
  unfolding merged
  merged_le h m = elim (In-append history new_rows m) [
    | inl old ↦ omega (arith, past h old)
    | inr new ↦ let (s, ms, i, u, d, mh) = new_row h new in omega arith
  ]

  module _ (s : LoadingRow) (d : Bytes) (loaded : In s loading)
      (has_data : s.data_text ≡ some d) where
    new : HistoryRow
    new = record { id = s.id; data_text = d; updated = now }

    matches : List HistoryRow
    unfolding latest
    matches = select (λ h. equal s.id h.id) latest

    inserted_is : inserted now latest s ≡ joined new matches
    unfolding inserted new matches
    inserted_is = rw (has_data, inserted_data)

    matches-In :
        (h : HistoryRow)
        → In h matches
        → In h history × (is_latest history h ≡ true) × (h.id ≡ s.id)
    unfolding matches latest
    matches-In h m =
        let (l, e) = In-select (λ k. equal s.id k.id) latest m in
        let (mh, t) = from_latest history h l in (mh, t, sym ((equal_iff s.id h.id).0 e))

    In-matches :
        (h : HistoryRow) → In h history → is_latest history h ≡ true → h.id ≡ s.id → In h matches
    unfolding matches latest
    In-matches h m l e =
        select-In (λ k. equal s.id k.id) latest (In-latest history h m l)
          ((equal_iff s.id h.id).1 (sym e))

    -- A new row of this id is one that `s` adds.
    new_row_of :
        (h : HistoryRow)
        → In h new_rows
        → h.id ≡ s.id
        → In h (joined new matches) × (h.data_text ≡ d)
    new_row_of h m e =
        let (t, mt, i, u, text, mh) = new_row h m in
        let same : t ≡ s = distinct t s mt loaded (sym i ∙ e) in
        (
          subst (In h) (ap (inserted now latest) same ∙ inserted_is) mh,
          some-injective _ _ (sym text ∙ ap (λ r. r.data_text) same ∙ has_data),
        )

    new_is_id : new.id ≡ s.id
    unfolding new
    new_is_id = refl

    new_is_now : new.updated ≡ now
    unfolding new
    new_is_now = refl

    new_is_data : new.data_text ≡ d
    unfolding new
    new_is_data = refl

    -- The row is added: it is the latest one.
    added : In new (joined new matches) → IsCurrent merged s.id d
    added m = record {
      row = new;
      row_in = In-latest merged new m' new_latest;
      row_id = new_is_id;
      holds = holds';
    }
      where
        m' : In new merged
        m' =
            unfold merged new_rows in
            In-append_right history new_rows
              (gather-In (inserted now latest) loading loaded (subst (In new) (sym inserted_is) m))

        new_latest : is_latest merged new ≡ true
        new_latest = is_latest_intro merged new (λ k mk e. rw new_is_now (merged_le k mk))

        holds' : (h : HistoryRow) → In h (latest_history merged) → h.id ≡ s.id → h.data_text ≡ d
        holds' h mh e =
            let (i, l) = from_latest merged h mh in
            elim (In-merged h i) [
              | inl old ↦ absurd (
                  omega (
                    arith,
                    past h old,
                    new_is_now,
                    is_latest_top merged h new l m' (e ∙ sym new_is_id),
                  ))
              | inr fresh ↦ (new_row_of h fresh e).1
            ]

    -- Nothing is added: the history's latest row stays the latest one.
    kept :
        (h : HistoryRow)
        → In h matches
        → joined new matches ≡ []
        → ((k : HistoryRow) → In k matches → k.data_text ≡ new.data_text)
        → IsCurrent merged s.id d
    kept h mh none_added all = record {
      row = h;
      row_in = In-latest merged h m' h_latest;
      row_id = (matches-In h mh).2;
      holds = holds';
    }
      where
        no_new : (k : HistoryRow) → In k new_rows → k.id ≡ s.id → ⊥
        no_new k fresh e = elim (subst (In k) none_added (new_row_of k fresh e).0) [ ]

        m' : In h merged
        m' = old-In-merged h (matches-In h mh).0

        h_latest : is_latest merged h ≡ true
        h_latest = is_latest_intro merged h top
          where
            top : (k : HistoryRow) → In k merged → h.id ≡ k.id → k.updated ≤ h.updated
            top k mk e = elim (In-merged k mk) [
              | inl old ↦ is_latest_top history h k (matches-In h mh).1 old e
              | inr fresh ↦ absurd (no_new k fresh (sym e ∙ (matches-In h mh).2))
            ]

        holds' : (k : HistoryRow) → In k (latest_history merged) → k.id ≡ s.id → k.data_text ≡ d
        holds' k mk e =
            let (i, l) = from_latest merged k mk in
            elim (In-merged k i) [
              | inl old ↦ all k (In-matches k old (old_latest k l) e) ∙ new_is_data
              | inr fresh ↦ absurd (no_new k fresh e)
            ]
          where
            old_latest : (k : HistoryRow) → is_latest merged k ≡ true → is_latest history k ≡ true
            old_latest k l =
                is_latest_intro history k (λ j mj. is_latest_top merged k j l (old-In-merged j mj))

    current : IsCurrent merged s.id d
    current = elim (joined-cases new matches) [
      | inl m ↦ added m
      | inr (h, mh, none_added, all) ↦ kept h mh none_added all
    ]

-- For a history of which every row is older than the time of the merge, and a loading table with
-- one row for an id: after the merge, each record of the loading table that has data has a latest
-- row in the history, and every latest row of its id holds these data.
pub merge_table-IsCurrent :
    (now : ℕ) (history : List HistoryRow) (loading : List LoadingRow)
    → IsPast now history
    → HasDistinctIds loading
    → (s : LoadingRow) (d : Bytes) → In s loading
    → s.data_text ≡ some d
    → IsCurrent (merge_table now history loading) s.id d
unfolding merge_table merged new_rows latest
merge_table-IsCurrent now history loading past distinct s d loaded has_data =
    current now history loading past distinct s d loaded has_data
