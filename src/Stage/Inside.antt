-- ===== src/Stage/Inside.antt =====
-- The staging of a table inside a transaction.
use ldp.Base.{
  ℕ, zero, suc, ◌+◌, Bool, true, not, ◌&&◌, List, [], ◌∷◌, ◌++◌, gather, All, ◌==◌, Bytes, equal,
  Result, ok, runtime_error, ◌>>=◌, ◌≡◌, refl, ◌∙◌, Bool-cases, inl, inr,
}
use ldp.DbType.{DbSys}
use ldp.Handler.{Event, Handler, initial, run}
use ldp.Init.Transaction.{is_plain, Inside, PlainInside, Inside-then_run, Inside-exec_all}
use ldp.Init.{Connection}
use ldp.Records.{FieldStats}
use ldp.Stage.LoadingTable.{grant_loading, create_loading_table, create_table_sql, make_columns}
use ldp.Stage.{
  Copy, Staging, read_page_count, page_path, test_path, page_env, finish_page, stage_events,
  stage_opened, stage_page, stage_pages, stage_counted, stage_source, stage_sources,
  stage_test_file, stage_files, stage_table_1, stage_table_2,
}
use ldp.Table.{TableSchema}
use ldp.Util.{loading_table_name}

create_loading_table-plain :
    (ldp_user ldpconfig_user : Bytes) (table : TableSchema) (dbt : DbSys) (users : List Bytes)
    (lz4 : Bool)
    → All
        (λ sql. is_plain sql ≡ true)
        (create_loading_table ldp_user ldpconfig_user table dbt users lz4)
unfolding create_loading_table create_table_sql
create_loading_table-plain ldp_user ldpconfig_user table dbt users lz4 =
    (refl, (refl, (refl, (refl, grants users))))
  where
    grants :
        (users : List Bytes)
        → All
            (λ sql. is_plain sql ≡ true)
            (gather
              (λ u.
                grant_loading (loading_table_name table.name) u
                ∷ grant_loading (loading_table_name table.name) u
                ∷ [])
              users)
    grants [] = tt
    grants (u ∷ users) = (refl, (refl, grants users))

module _ {S D : Type 0} (conn : Connection S) (copy : Copy S) (committed : S → D)
    (IsOpen : S → Type 0) where
  -- What is sent in a COPY is not committed by that, and neither is it by the end of the COPY.
  abbrev pub CopyInside : Type 0
  CopyInside =
      ((s : S) (b : Bytes) → IsOpen s → Inside conn committed IsOpen s (copy.copied s b, ok b))
      × ((s : S) → IsOpen s → Inside conn committed IsOpen s (copy.copy_end s))

  module _ (plain : PlainInside conn committed IsOpen) (copies : CopyInside) (g : Staging) where
    stage_page-Inside :
        (table : TableSchema) (pass : ℕ) (s : S) (stats : FieldStats) (filename : Bytes)
        → IsOpen s
        → Inside conn committed IsOpen s (stage_page conn copy g table pass s stats filename)
    unfolding stage_page stage_opened stage_events finish_page
    stage_page-Inside table pass s stats filename o = by_events (g.files.page_events filename)
      where
        by_result :
            (t : S) (result : Result Handler)
            → IsOpen t
            → Inside conn committed IsOpen t (finish_page conn copy g t result)
        by_result t (runtime_error e) o' = (refl, tt)
        by_result t (ok h) o' =
            let (k, o1) = copies.0 t h.sent o' in
            let (k', o2) =
              Inside-then_run conn committed IsOpen (copy.copied t h.sent)
                (copy.copy_end (copy.copied t h.sent)) (λ s' u. (s', ok h.stats))
                (copies.1 (copy.copied t h.sent) o1) (λ u v o3. (refl, o3)) in
            (k' ∙ k, o2)

        first_pass :
            (result : Result Handler)
            → Inside conn committed IsOpen s (s, result >>= λ h. ok h.stats)
        first_pass (ok h) = (refl, o)
        first_pass (runtime_error e) = (refl, tt)

        by_events :
            (events : Result (List Event))
            → Inside conn committed IsOpen s (stage_opened conn copy g table pass s stats events)
        by_events (runtime_error e) = (refl, tt)
        by_events (ok events) = elim (Bool-cases (pass == 2)) [
          | inl b ↦ rw b (
              Inside-then_run conn committed IsOpen s _ _ (plain s _ refl o) (λ t rows o'.
                by_result t (run (page_env copy g table pass) events (initial stats)) o'))
          | inr b ↦ rw b (first_pass (run (page_env copy g table pass) events (initial stats)))
        ]

    stage_pages-Inside :
        (table : TableSchema) (pass : ℕ) (source_name : Bytes) (page n : ℕ) (s : S)
        (stats : FieldStats)
        → IsOpen s
        → Inside conn committed IsOpen s
            (stage_pages conn copy g table pass source_name page n s stats)
    unfolding stage_pages
    stage_pages-Inside table pass source_name page zero s stats o = (refl, o)
    stage_pages-Inside table pass source_name page (suc n) s stats o =
        Inside-then_run conn committed IsOpen s _ _
          (stage_page-Inside table pass s stats (page_path g table source_name page) o)
          (stage_pages-Inside table pass source_name (page + 1) n)

    stage_source-Inside :
        (table : TableSchema) (pass : ℕ) (source_name : Bytes) (s : S) (stats : FieldStats)
        → IsOpen s
        → Inside conn committed IsOpen s (stage_source conn copy g table pass source_name s stats)
    unfolding stage_source stage_counted
    stage_source-Inside table pass source_name s stats o =
        by_count (read_page_count g.files source_name g.load_dir table.name)
      where
        by_count :
            (count : Result ℕ)
            → Inside conn committed IsOpen s
                (stage_counted conn copy g table pass source_name s stats count)
        by_count (ok n) = stage_pages-Inside table pass source_name 0 n s stats o
        by_count (runtime_error e) = (refl, tt)

    stage_sources-Inside :
        (table : TableSchema) (pass : ℕ) (names : List Bytes) (s : S) (stats : FieldStats)
        → IsOpen s
        → Inside conn committed IsOpen s (stage_sources conn copy g table pass names s stats)
    unfolding stage_sources
    stage_sources-Inside table pass [] s stats o = (refl, o)
    stage_sources-Inside table pass (source_name ∷ names) s stats o =
        Inside-then_run conn committed IsOpen s _ _
          (stage_source-Inside table pass source_name s stats o)
          (stage_sources-Inside table pass names)

    stage_test_file-Inside :
        (table : TableSchema) (pass : ℕ) (s : S) (stats : FieldStats)
        → IsOpen s
        → Inside conn committed IsOpen s (stage_test_file conn copy g table pass s stats)
    unfolding stage_test_file
    stage_test_file-Inside table pass s stats o =
        elim (Bool-cases (not (equal g.load_from_dir []) && g.files.exists (test_path g table))) [
          | inl b ↦ rw b (stage_page-Inside table pass s stats (test_path g table) o)
          | inr b ↦ rw b (refl, o)
        ]

    stage_files-Inside :
        (table : TableSchema) (pass : ℕ) (s : S)
        → IsOpen s
        → Inside conn committed IsOpen s (stage_files conn copy g table pass s)
    unfolding stage_files
    stage_files-Inside table pass s o =
        Inside-then_run conn committed IsOpen s _ _
          (stage_sources-Inside table pass g.source_names s [] o)
          (stage_test_file-Inside table pass)

    pub stage_table_1-Inside :
        (table : TableSchema) (s : S)
        → IsOpen s
        → Inside conn committed IsOpen s (stage_table_1 conn copy g table s)
    unfolding stage_table_1
    stage_table_1-Inside table s o =
        Inside-then_run conn committed IsOpen s _ _ (stage_files-Inside table 1 s o) (λ t stats o'.
          Inside-then_run conn committed IsOpen t _ _
            (Inside-exec_all conn committed IsOpen plain t _
              (create_loading_table-plain g.ldp_user g.ldpconfig_user
                (record table { columns = table.columns ++ make_columns table.source_type stats })
                g.dbt g.users g.lz4)
              o')
            (λ u v o2. (refl, o2)))

    pub stage_table_2-Inside :
        (table : TableSchema) (s : S)
        → IsOpen s
        → Inside conn committed IsOpen s (stage_table_2 conn copy g table s)
    unfolding stage_table_2
    stage_table_2-Inside table s o =
        Inside-then_run conn committed IsOpen s _ _ (stage_files-Inside table 2 s o)
          (λ t stats o'. (refl, o'))
