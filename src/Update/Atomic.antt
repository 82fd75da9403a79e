-- ===== src/Update/Atomic.antt =====
-- What an error in the middle of an update leaves of a table.
use ldp.Base.{
  Bool, true, ◌&&◌, List, [], ◌∷◌, ◌++◌, map, All, Bytes, Result, ok, runtime_error, ◌≡◌, refl, ◌∙◌,
  Bool-cases, inl, inr,
}
use ldp.Init.Transaction.{is_plain, Inside, PlainInside, Inside-then_run, Inside-exec_all}
use ldp.Init.{Connection, Rows, then_run}
use ldp.Merge.Statements.{merge_table_sql, drop_table_sql, place_table_sql}
use ldp.Stage.Inside.{CopyInside, stage_table_1-Inside, stage_table_2-Inside}
use ldp.Stage.{Copy, Staging}
use ldp.Table.{TableSchema}
use ldp.Update.ForeignKeys.{
  Reference, drop_constraint_sql, delete_constraints_sql, select_constraints_sql, constraints_of,
  select_foreign_key_constraints, remove_foreign_key_constraints,
}
use ldp.Update.StageMerge.{
  begin_sql, commit_sql, merges, merge_statements, replace_table, run_transaction,
}

drop_constraints-plain :
    (refs : List Reference)
    → All (λ sql. is_plain sql ≡ true) (map drop_constraint_sql refs ++ delete_constraints_sql ∷ [])
drop_constraints-plain [] = (refl, tt)
drop_constraints-plain (ref ∷ refs) = (refl, drop_constraints-plain refs)

module _ {S D : Type 0} (conn : Connection S) (committed : S → D) (IsOpen : S → Type 0) where
  -- A BEGIN that is answered opens a transaction, and commits nothing.
  abbrev pub BeginOpens : Type 0
  BeginOpens = (s : S) → Inside conn committed IsOpen s (conn.exec s begin_sql)

  -- A COMMIT that fails commits nothing.
  abbrev pub CommitFails : Type 0
  CommitFails =
      (s t : S) (e : Bytes)
      → conn.exec s commit_sql ≡ (t, runtime_error e)
      → committed t ≡ committed s

  -- An error leaves what was committed; a run that returns has ended in a COMMIT, up to which
  -- nothing was committed.
  abbrev pub Atomic : S → S × Result TableSchema → Type 0
  Atomic s (t, runtime_error e) = committed t ≡ committed s
  Atomic s (t, ok staged) =
      (s1 : S) × (rows : Rows) × (conn.exec s1 commit_sql ≡ (t, ok rows))
      × (committed s1 ≡ committed s)

module _ {S D : Type 0} (conn : Connection S) (copy : Copy S) (committed : S → D)
    (IsOpen : S → Type 0) (plain : PlainInside conn committed IsOpen)
    (copies : CopyInside conn copy committed IsOpen) (g : Staging) where
  remove_foreign_key_constraints-Inside :
      (s : S) → IsOpen s → Inside conn committed IsOpen s (remove_foreign_key_constraints conn s)
  unfolding remove_foreign_key_constraints select_foreign_key_constraints
  remove_foreign_key_constraints-Inside s o =
      Inside-then_run conn committed IsOpen s _ _
        (Inside-then_run conn committed IsOpen s _ _ (plain s select_constraints_sql refl o)
          (λ t rows o'. read t (constraints_of rows) o'))
        (λ t refs o'.
          Inside-exec_all conn committed IsOpen plain t _ (drop_constraints-plain refs) o')
    where
      read :
          (t : S) (refs : Result (List Reference))
          → IsOpen t
          → Inside conn committed IsOpen t (t, refs)
      read t (ok refs) o' = (refl, o')
      read t (runtime_error e) o' = (refl, tt)

  merge_statements-plain :
      (record_history : Bool) (table : TableSchema)
      → All (λ sql. is_plain sql ≡ true) (merge_statements conn copy g record_history table)
  unfolding merge_statements merge_table_sql
  merge_statements-plain record_history table =
      elim (Bool-cases (record_history && merges table.source_type)) [
        | inl b ↦ rw b (refl, tt)
        | inr b ↦ rw b tt
      ]

  replace_table-Inside :
      (record_history : Bool) (table : TableSchema) (s : S)
      → IsOpen s
      → Inside conn committed IsOpen s (replace_table conn copy g record_history table s)
  unfolding replace_table drop_table_sql place_table_sql
  replace_table-Inside record_history table s o =
      Inside-then_run conn committed IsOpen s _ _
        (stage_table_1-Inside conn copy committed IsOpen plain copies g table s o)
        (λ s1 staged o1.
          Inside-then_run conn committed IsOpen s1 _ _
            (stage_table_2-Inside conn copy committed IsOpen plain copies g staged s1 o1)
            (λ s2 u o2.
              Inside-then_run conn committed IsOpen s2 _ _
                (Inside-exec_all conn committed IsOpen plain s2 _
                  (merge_statements-plain record_history staged) o2)
                (λ s3 u o3.
                  Inside-then_run conn committed IsOpen s3 _ _
                    (remove_foreign_key_constraints-Inside s3 o3)
                    (λ s4 u o4.
                      Inside-then_run conn committed IsOpen s4 _ _
                        (Inside-exec_all conn committed IsOpen plain s4
                          (drop_table_sql staged.name ∷ place_table_sql staged ∷ [])
                          (refl, (refl, tt)) o4)
                        (λ s5 u o5. (refl, o5))))))

  -- On a server that keeps the rules of transactions: the staging of a table, its merge and its
  -- placing are atomic. When any of them ends in an error, on the files, in a record or on the
  -- server, what was committed before is what is committed; and a run that returns has committed
  -- once, at its end.
  pub run_transaction-Atomic :
      (begins : BeginOpens conn committed IsOpen) (fails : CommitFails conn committed IsOpen)
      (record_history : Bool) (table : TableSchema) (s : S)
      → Atomic conn committed IsOpen s (run_transaction conn copy g record_history table s)
  unfolding run_transaction then_run
  run_transaction-Atomic begins fails record_history table s =
      after_begin (conn.exec s begin_sql) (begins s)
    where
      after_commit :
          (s2 : S) (staged : TableSchema) (m : S × Result Rows)
          → committed s2 ≡ committed s
          → conn.exec s2 commit_sql ≡ m
          → Atomic conn committed IsOpen s (then_run m (λ s3 rows. (s3, ok staged)))
      after_commit s2 staged (s3, ok rows) k q = (s2, rows, q, k)
      after_commit s2 staged (s3, runtime_error e) k q = fails s2 s3 e q ∙ k

      after_replace :
          (s1 : S) (m : S × Result TableSchema)
          → committed s1 ≡ committed s
          → Inside conn committed IsOpen s1 m
          → Atomic conn committed IsOpen s (
              then_run m
                (λ s2 staged. then_run (conn.exec s2 commit_sql) (λ s3 rows. (s3, ok staged))))
      after_replace s1 (s2, ok staged) k (k', o) =
          after_commit s2 staged (conn.exec s2 commit_sql) (k' ∙ k) refl
      after_replace s1 (s2, runtime_error e) k (k', o) = k' ∙ k

      after_begin :
          (m : S × Result Rows)
          → Inside conn committed IsOpen s m
          → Atomic conn committed IsOpen s (
              then_run m (λ s1 rows.
                then_run
                  (replace_table conn copy g record_history table s1)
                  (λ s2 staged. then_run (conn.exec s2 commit_sql) (λ s3 rows. (s3, ok staged)))))
      after_begin (s1, ok rows) (k, o) =
          after_replace s1 (replace_table conn copy g record_history table s1) k
            (replace_table-Inside record_history table s1 o)
      after_begin (s1, runtime_error e) (k, o) = k
