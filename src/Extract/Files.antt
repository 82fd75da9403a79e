-- ===== src/Extract/Files.antt =====
-- The files that an extraction leaves, as the staging looks for them.
use ldp.Base.{
  ℕ, Bool, true, false, List, [], ◌∷◌, ◌++◌, All, Option, some, Bytes, codes, equal, to_string,
  Result, ok, >>=-eq-ok, ok-injective, ◌≡◌, ◌≢◌, refl, sym, ap, ◌∙◌, subst, Bool-cases, inl, inr,
}
use ldp.Extract.{
  Row, Answer, WrittenFiles, query_sql, print_rows, finish_files, output_path, file_start,
  try_retrieve_direct,
}
use ldp.Handler.{Event}
use ldp.Init.{Connection, then_run}
use ldp.Options.{DataSource}
use ldp.Records.{FieldStats}
use ldp.Stage.{
  Files, Copy, Staging, compose_data_file_path, read_page_count, stage_opened, stage_page,
  stage_pages, stage_counted, stage_source,
}
use ldp.Table.{TableSchema}
use ldp.TextUtil.{join}

-- The files are there, with what `fscanf` and the reader of rapidjson make of their contents.
abbrev pub Holds :
    (Bytes → Option ℕ) → (Bytes → Result (List Event)) → Files → WrittenFiles → Type 0
Holds counts reads files written =
    All
      (λ w.
        (files.exists (w.0) ≡ true)
        × (files.page_count (w.0) ≡ counts (w.1))
        × (files.page_events (w.0) ≡ reads (w.1)))
      written

-- The names that the extraction gives are the ones that the staging composes.
path_agrees :
    (source : DataSource) (table : TableSchema) (load_dir suffix : Bytes)
    → source.source_name ≢ []
    → output_path source table load_dir suffix
      ≡ compose_data_file_path load_dir table source.source_name suffix
unfolding compose_data_file_path equal
path_agrees source table load_dir suffix h = by_name source.source_name h
  where
    by_name :
        (name : Bytes)
        → name ≢ []
        → join load_dir table.name ++ (codes "_" ++ (name ++ suffix))
          ≡ compose_data_file_path load_dir table name suffix
    by_name [] h = absurd (h refl)
    by_name (c ∷ name) h = refl

false_true : ◌≢◌ {A = Bool} false true
false_true h = cc

-- `found` is told only with both files written.
found_files :
    (source : DataSource) (table : TableSchema) (load_dir : Bytes) (rows : List Row) (text : Bytes)
    {written : WrittenFiles}
    → finish_files source table load_dir rows text ≡ (true, written)
    → written
      ≡ (
        output_path source table load_dir (codes "_0.json"),
        file_start ++ (text ++ codes "\n  ]\n}\n"),
      )
        ∷ (output_path source table load_dir (codes "_count.txt"), codes "1\n")
        ∷ []
unfolding to_string
found_files source table load_dir [] text h = absurd (false_true (ap (λ x. x.0) h))
found_files source table load_dir (res ∷ rows) text h = sym (ap (λ x. x.1) h)

retrieved_files :
    (query : Bytes → Answer) (source : DataSource) (table : TableSchema)
    (load_dir instance_name : Bytes) {written : WrittenFiles}
    → try_retrieve_direct query source table load_dir instance_name ≡ ok (true, written)
    → (text : Bytes) × (written
        ≡ (output_path source table load_dir (codes "_0.json"), text)
          ∷ (output_path source table load_dir (codes "_count.txt"), codes "1\n")
          ∷ [])
unfolding try_retrieve_direct
retrieved_files query source table load_dir instance_name h =
    elim (Bool-cases (equal table.direct_source_table [])) [
      | inl b ↦ absurd (false_true (ap (λ x. x.0) (ok-injective _ _ (rw b at h))))
      | inr b ↦
          let answer = query (query_sql source table instance_name) in
          let (text, e, f) =
            >>=-eq-ok (print_rows table 0 answer.rows answer.failure)
              (λ text. ok (finish_files source table load_dir answer.rows text)) (rw b at h) in
          (_, found_files source table load_dir answer.rows text (ok-injective _ _ f))
    ]

count_read :
    (files : Files) (source : DataSource) (table : TableSchema) (load_dir : Bytes)
    → source.source_name ≢ []
    → files.exists (output_path source table load_dir (codes "_count.txt")) ≡ true
    → files.page_count (output_path source table load_dir (codes "_count.txt")) ≡ some 1
    → read_page_count files source.source_name load_dir table.name ≡ ok 1
unfolding read_page_count compose_data_file_path
count_read files source table load_dir named here count =
    let path = path_agrees source table load_dir (codes "_count.txt") named in
    let here' = subst (λ p. files.exists p ≡ true) path here in
    let count' = subst (λ p. files.page_count p ≡ some 1) path count in rw (here', count')

-- What an extraction leaves is what the staging reads: where `try_retrieve_direct` finds data in a
-- source that has a name, and the files that it wrote are there, with the count read from the text
-- `1`, staging that source from the same directory stages exactly one page, the one that was
-- written.
pub try_retrieve_direct-stage_source :
    {S : Type 0} (conn : Connection S) (copy : Copy S) (g : Staging) (query : Bytes → Answer)
    (source : DataSource) (table : TableSchema) (instance_name : Bytes) (pass : ℕ)
    (counts : Bytes → Option ℕ) (reads : Bytes → Result (List Event)) (written : WrittenFiles)
    (s : S) (stats : FieldStats)
    → source.source_name ≢ []
    → counts (codes "1\n") ≡ some 1
    → try_retrieve_direct query source table g.load_dir instance_name ≡ ok (true, written)
    → Holds counts reads g.files written
    → (text : Bytes) × (written
        ≡ (output_path source table g.load_dir (codes "_0.json"), text)
          ∷ (output_path source table g.load_dir (codes "_count.txt"), codes "1\n")
          ∷ [])
      × (stage_source conn copy g table pass source.source_name s stats
          ≡ then_run
              (stage_opened conn copy g table pass s stats (reads text))
              (λ s' stats'. (s', ok stats')))
unfolding stage_source stage_counted stage_pages stage_page to_string
try_retrieve_direct-stage_source conn copy g query source table instance_name pass counts reads
      written s stats named one h holds =
    let (text, e) = retrieved_files query source table g.load_dir instance_name h in
    (text, e, staged text (subst (Holds counts reads g.files) e holds))
  where
    staged :
        (text : Bytes)
        → Holds counts reads g.files (
            (output_path source table g.load_dir (codes "_0.json"), text)
            ∷ (output_path source table g.load_dir (codes "_count.txt"), codes "1\n")
            ∷ [])
        → stage_source conn copy g table pass source.source_name s stats
          ≡ then_run
              (stage_opened conn copy g table pass s stats (reads text))
              (λ s' stats'. (s', ok stats'))
    staged text ((x0, c0, p0), ((x1, c1, p1), u)) =
        let counted = count_read g.files source table g.load_dir named x1 (c1 ∙ one) in
        ap (λ n. stage_counted conn copy g table pass source.source_name s stats n) counted
        ∙ ap
            (λ r.
              then_run (stage_opened conn copy g table pass s stats r)
                (λ s' stats'. (s', ok stats')))
            (ap g.files.page_events
                (sym (path_agrees source table g.load_dir (codes "_0.json") named))
              ∙ p0)
