-- ===== src/Update/Selected.antt =====
-- The tables that an update changes.
use ldp.Base.{
  false, not, ◌&&◌, List, [], ◌∷◌, select, equal, Result, ok, runtime_error, ◌≡◌, refl, ap, ◌∙◌,
  arith, Bool-cases, inl, inr,
}
use ldp.Fields.{FieldSet}
use ldp.Init.{Connection}
use ldp.Options.{Options}
use ldp.Stage.{Copy}
use ldp.Table.{TableSchema}
use ldp.Update.{
  Surroundings, is_selected, table_drop_fields, update_fields, update_table, update_tables,
}

module _ {S : Type 0} (conn : Connection S) (copy : Copy S) (opt : Options)
    (around : Surroundings) where
  update_table-unselected :
      (table : TableSchema) (s : S)
      → is_selected opt table ≡ false
      → update_table conn copy opt around table s ≡ s
  unfolding update_table is_selected
  update_table-unselected table s h =
      elim (Bool-cases (not (equal opt.table []) && not (equal opt.table table.name))) [
        | inl e ↦ rw e refl
        | inr e ↦ rw e (anonymized (rw e at h) (table_drop_fields opt around))
      ]
    where
      anonymized :
          (not false && not (opt.anonymize && table.anonymize)) ≡ false
          → (fields : Result FieldSet) → update_fields conn copy opt around table s fields ≡ s
      anonymized h' (runtime_error e) = refl
      anonymized h' (ok fields) = elim (Bool-cases (opt.anonymize && table.anonymize)) [
        | inl e ↦ rw e refl
        | inr e ↦ absurd (ground (arith, e, h'))
      ]

  -- An update is the update of the selected tables alone: those that `--table` names, if it is
  -- given, without those that are anonymized as a whole, if data are anonymized. The others are left
  -- as they are.
  pub update_tables-select :
      (tables : List TableSchema) (s : S)
      → update_tables conn copy opt around tables s
        ≡ update_tables conn copy opt around (select (is_selected opt) tables) s
  unfolding update_tables
  update_tables-select [] s = refl
  update_tables-select (table ∷ tables) s = elim (Bool-cases (is_selected opt table)) [
    | inl e ↦ rw e (update_tables-select tables (update_table conn copy opt around table s))
    | inr e ↦ rw e (
        ap (update_tables conn copy opt around tables) (update_table-unselected table s e)
        ∙ update_tables-select tables s)
  ]
