-- ===== src/Merge/Rows.antt =====
-- What the two statements of a merge select and insert.
use ldp.Base.{
  ℕ, ◌≤◌, true, ◌&&◌, List, [], ◌∷◌, Option, none, some, ltb, Bytes, equal, equal_iff, In, here,
  there, select, In-select, select-In, exists_in, exists_in-true, exists_in-witness, ◌≡◌, ◌⊎◌, inl,
  inr, refl, sym, ap, ◌∙◌, arith, Bool-cases, subst,
}
use ldp.Merge.{HistoryRow, is_latest, latest_history, changed, joined, inserted_data}

changed-row : (row h : HistoryRow) (hs : List HistoryRow) → In h (changed row hs) → h ≡ row
unfolding changed
changed-row row h [] m = elim m [ ]
changed-row row h (k ∷ hs) m = elim (Bool-cases (equal row.data_text k.data_text)) [
  | inl e ↦ changed-row row h hs (rw e at m)
  | inr e ↦ pick (rw e at m) (changed-row row h hs)
]
  where
    pick : In h (row ∷ changed row hs) → (In h (changed row hs) → h ≡ row) → h ≡ row
    pick (here e) f = e
    pick (there n) f = f n

joined-row : (row h : HistoryRow) (hs : List HistoryRow) → In h (joined row hs) → h ≡ row
unfolding joined
joined-row row h [] (here e) = e
joined-row row h [] (there m) = elim m [ ]
joined-row row h (k ∷ hs) m = changed-row row h (k ∷ hs) m

changed-nil :
    (row h : HistoryRow) (hs : List HistoryRow)
    → changed row hs ≡ []
    → In h hs
    → h.data_text ≡ row.data_text
unfolding changed
changed-nil row h [] e m = elim m [ ]
changed-nil row h (k ∷ hs) e (here q) =
    ap (λ r. r.data_text) q ∙ sym ((equal_iff row.data_text k.data_text).0 (ground arith))
changed-nil row h (k ∷ hs) e (there m) = changed-nil row h hs (ground arith) m

-- The row is added, or there is a match and all matches hold its data.
pub joined-cases :
    (row : HistoryRow) (hs : List HistoryRow)
    → In row (joined row hs)
      ⊎ ((h : HistoryRow) × In h hs
          × (joined row hs ≡ [])
          × ((k : HistoryRow) → In k hs → k.data_text ≡ row.data_text))
joined-cases row [] = unfold joined in inl (here refl)
joined-cases row (h ∷ hs) = elim (list_cases (changed row (h ∷ hs))) [
  | inl e ↦ inr (h, here refl, unfold joined in e, λ k m. changed-nil row k (h ∷ hs) e m)
  | inr (k, m) ↦
      inl
        (unfold joined in subst (λ x. In x (changed row (h ∷ hs))) (changed-row row k (h ∷ hs) m) m)
]
  where
    list_cases : (l : List HistoryRow) → (l ≡ []) ⊎ ((k : HistoryRow) × In k l)
    list_cases [] = inl refl
    list_cases (k ∷ l) = inr (k, here refl)

pub inserted_data-row :
    (now : ℕ) (latest : List HistoryRow) (id : Bytes) (o : Option Bytes) (h : HistoryRow)
    → In h (inserted_data now latest id o)
    → (h.id ≡ id) × (h.updated ≡ now) × (o ≡ some h.data_text)
unfolding inserted_data
inserted_data-row now latest id none h m = elim m [ ]
inserted_data-row now latest id (some d) h m =
    let e = joined-row _ h (select (λ k. equal id k.id) latest) m in
    (ap (λ r. r.id) e, ap (λ r. r.updated) e, ap (λ r. some r.data_text) (sym e))

pub is_latest_intro :
    (rows : List HistoryRow) (h : HistoryRow)
    → ((k : HistoryRow) → In k rows → h.id ≡ k.id → k.updated ≤ h.updated)
    → is_latest rows h ≡ true
is_latest_intro rows h top =
    elim (Bool-cases (exists_in (λ k. equal h.id k.id && ltb h.updated k.updated) rows)) [
      | inl e ↦
          let (k, m, q) = exists_in-witness _ rows e in
          absurd (ground (arith, top k m, equal_iff h.id k.id))
      | inr e ↦ rw e
    ]

pub is_latest_top :
    (rows : List HistoryRow) (h k : HistoryRow)
    → is_latest rows h ≡ true
    → In k rows
    → h.id ≡ k.id
    → k.updated ≤ h.updated
is_latest_top rows h k l m e = elim (Bool-cases (ltb h.updated k.updated)) [
  | inl lt ↦ absurd (
      ground (
        arith,
        equal_iff h.id k.id,
        exists_in-true (λ r. equal h.id r.id && ltb h.updated r.updated) rows m,
      ))
  | inr ge ↦ ground arith
]

pub In-latest :
    (rows : List HistoryRow) (h : HistoryRow)
    → In h rows
    → is_latest rows h ≡ true
    → In h (latest_history rows)
unfolding latest_history
In-latest rows h m l = select-In (is_latest rows) rows m l

pub from_latest :
    (rows : List HistoryRow) (h : HistoryRow)
    → In h (latest_history rows)
    → In h rows × (is_latest rows h ≡ true)
unfolding latest_history
from_latest rows h m = In-select (is_latest rows) rows m
