-- ===== src/Stage/Loaded.antt =====
-- What the second pass gives to COPY, over all files of a table.
use ldp.Base.{
  ℕ, zero, suc, ◌+◌, not, ◌&&◌, List, [], ◌∷◌, ◌++◌, append_assoc, append-nil, if◌then◌else◌, Bytes,
  codes, equal, Result, ok, runtime_error, ◌>>=◌, ◌≡◌, refl, sym, ap, ◌∙◌, Bool-cases, inl, inr,
}
use ldp.Handler.{Event, Handler, initial, run}
use ldp.Init.{Connection, Rows, then_run}
use ldp.Records.{FieldStats}
use ldp.Stage.{
  Copy, Staging, read_page_count, page_path, test_path, page_env, finish_page, stage_events,
  stage_opened, stage_page, stage_pages, stage_counted, stage_source, stage_sources,
  stage_test_file, stage_files, stage_table_2,
}
use ldp.Table.{TableSchema}
use ldp.Util.{loading_table_name}

-- Rows of COPY text, with the statistics that go to the next page.
abbrev pub Loaded : Type 0
Loaded = Result (Bytes × FieldStats)

-- The rows of one part, and behind them those of the next one.
abbrev pub and_then : Loaded → (FieldStats → Loaded) → Loaded
and_then first next = do a ← first; b ← next (a.1); ok (a.0 ++ b.0, b.1)

module _ {S : Type 0} (copy : Copy S) (g : Staging) (table : TableSchema) where
  -- The rows that the handler sends for one page.
  unfoldable pub page_rows : FieldStats → Bytes → Loaded
  page_rows stats filename = do
    events ← g.files.page_events filename
    h ← run (page_env copy g table 2) events (initial stats)
    ok (h.sent, h.stats)

  unfoldable pub pages_rows : Bytes → ℕ → ℕ → FieldStats → Loaded
  pages_rows source_name page zero stats = ok ([], stats)
  pages_rows source_name page (suc n) stats =
      and_then (page_rows stats (page_path g table source_name page))
        (λ stats'. pages_rows source_name (page + 1) n stats')

  unfoldable pub sources_rows : List Bytes → FieldStats → Loaded
  sources_rows [] stats = ok ([], stats)
  sources_rows (source_name ∷ names) stats =
      and_then
        (read_page_count g.files source_name g.load_dir table.name >>= λ n.
          pages_rows source_name 0 n stats)
        (λ stats'. sources_rows names stats')

  unfoldable pub test_rows : FieldStats → Loaded
  test_rows stats =
      if not (equal g.load_from_dir []) && g.files.exists (test_path g table)
      then page_rows stats (test_path g table)
      else ok ([], stats)

  -- The rows of all pages of all sources, in order, and those of the file of tests; or the first
  -- error.
  unfoldable pub table_rows : Loaded
  unfolding sources_rows test_rows
  table_rows = and_then (sources_rows g.source_names []) (λ stats. test_rows stats)

  module _ (conn : Connection S) (taken : S → Bytes) where
    -- The server begins a COPY of the loading table, and takes nothing by that.
    abbrev pub BeginsCopy : Type 0
    BeginsCopy =
        (s : S)
        → (t : S) × (rows : Rows) × (conn.exec s
              (codes "COPY " ++ (loading_table_name table.name ++ codes " FROM STDIN;"))
            ≡ (t, ok rows))
          × (taken t ≡ taken s)

    -- What is sent in a COPY is taken, behind what was taken before.
    abbrev pub TakesCopy : Type 0
    TakesCopy = (s : S) (b : Bytes) → taken (copy.copied s b) ≡ taken s ++ b

    -- The end of a COPY is answered without an error, and changes nothing that was taken.
    abbrev pub EndsCopy : Type 0
    EndsCopy = (s : S) → (t : S) × (copy.copy_end s ≡ (t, ok tt)) × (taken t ≡ taken s)

    -- The run returns with the rows taken, or ends in their error.
    abbrev pub Stages : S → Loaded → S × Result FieldStats → Type 0
    Stages s (ok (b, stats)) result = (t : S) × (result ≡ (t, ok stats)) × (taken t ≡ taken s ++ b)
    Stages s (runtime_error e) result = (t : S) × (result ≡ (t, runtime_error e))

    Stages-nothing : (s : S) (stats : FieldStats) → Stages s (ok ([], stats)) (s, ok stats)
    Stages-nothing s stats = (s, refl, sym (append-nil _))

    Stages-then_run :
        (s : S) (first : Loaded) (result : S × Result FieldStats) (rest : FieldStats → Loaded)
        (next : S → FieldStats → S × Result FieldStats)
        → Stages s first result
        → ((t : S) (stats : FieldStats) → Stages t (rest stats) (next t stats))
        → Stages s (and_then first rest) (then_run result next)
    unfolding then_run
    Stages-then_run s (runtime_error e) result rest next (t, q) h = (t, ap (λ m. then_run m next) q)
    Stages-then_run s (ok (b, stats)) result rest next (t, q, k) h =
        behind (rest stats) (next t stats) (ap (λ m. then_run m next) q) (h t stats)
      where
        behind :
            (more : Loaded) (last : S × Result FieldStats)
            → then_run result next ≡ last
            → Stages t more last
            → Stages s (more >>= λ p. ok (b ++ p.0, p.1)) (then_run result next)
        behind (runtime_error e) last r (u, w) = (u, r ∙ w)
        behind (ok (b', stats')) last r (u, w, m) =
            (u, r ∙ w, m ∙ ap (λ x. x ++ b') k ∙ append_assoc (taken s) b b')

    module _ (begins : BeginsCopy) (takes : TakesCopy) (ends : EndsCopy) where
      stage_page-Stages :
          (s : S) (stats : FieldStats) (filename : Bytes)
          → Stages s (page_rows stats filename) (stage_page conn copy g table 2 s stats filename)
      unfolding stage_page stage_opened stage_events finish_page page_rows then_run
      stage_page-Stages s stats filename = by_events (g.files.page_events filename)
        where
          by_result :
              (t : S) (result : Result Handler)
              → taken t ≡ taken s
              → Stages s (result >>= λ h. ok (h.sent, h.stats)) (finish_page conn copy g t result)
          by_result t (runtime_error e) k = (t, refl)
          by_result t (ok h) k =
              let (u, q, m) = ends (copy.copied t h.sent) in
              (
                u,
                ap (λ x. then_run x (λ s' v. (s', ok h.stats))) q,
                m ∙ takes t h.sent ∙ ap (λ x. x ++ h.sent) k,
              )

          by_begin :
              (t : S) (rows : Rows) (events : List Event)
              → conn.exec s
                  (codes "COPY " ++ (loading_table_name table.name ++ codes " FROM STDIN;"))
                ≡ (t, ok rows)
              → Stages s
                  (run (page_env copy g table 2) events (initial stats) >>= λ h.
                    ok (h.sent, h.stats))
                  (finish_page conn copy g t (run (page_env copy g table 2) events (initial stats)))
              → Stages s
                  (run (page_env copy g table 2) events (initial stats) >>= λ h.
                    ok (h.sent, h.stats))
                  (stage_events conn copy g table 2 s stats events)
          by_begin t rows events q h = rw q h

          by_events :
              (events : Result (List Event))
              → Stages s
                  (events >>= λ es.
                    run (page_env copy g table 2) es (initial stats) >>= λ h. ok (h.sent, h.stats))
                  (stage_opened conn copy g table 2 s stats events)
          by_events (runtime_error e) = (s, refl)
          by_events (ok events) =
              let (t, rows, q, k) = begins s in
              by_begin t rows events q
                (by_result t (run (page_env copy g table 2) events (initial stats)) k)

      stage_pages-Stages :
          (source_name : Bytes) (page n : ℕ) (s : S) (stats : FieldStats)
          → Stages s
              (pages_rows source_name page n stats)
              (stage_pages conn copy g table 2 source_name page n s stats)
      unfolding stage_pages pages_rows
      stage_pages-Stages source_name page zero s stats = Stages-nothing s stats
      stage_pages-Stages source_name page (suc n) s stats =
          Stages-then_run s _ _ _ _ (stage_page-Stages s stats (page_path g table source_name page))
            (stage_pages-Stages source_name (page + 1) n)

      stage_source-Stages :
          (source_name : Bytes) (s : S) (stats : FieldStats)
          → Stages s
              (read_page_count g.files source_name g.load_dir table.name >>= λ n.
                pages_rows source_name 0 n stats)
              (stage_source conn copy g table 2 source_name s stats)
      unfolding stage_source stage_counted
      stage_source-Stages source_name s stats =
          by_count (read_page_count g.files source_name g.load_dir table.name)
        where
          by_count :
              (count : Result ℕ)
              → Stages s
                  (count >>= λ n. pages_rows source_name 0 n stats)
                  (stage_counted conn copy g table 2 source_name s stats count)
          by_count (ok n) = stage_pages-Stages source_name 0 n s stats
          by_count (runtime_error e) = (s, refl)

      stage_sources-Stages :
          (names : List Bytes) (s : S) (stats : FieldStats)
          → Stages s (sources_rows names stats) (stage_sources conn copy g table 2 names s stats)
      unfolding stage_sources sources_rows
      stage_sources-Stages [] s stats = Stages-nothing s stats
      stage_sources-Stages (source_name ∷ names) s stats =
          Stages-then_run s _ _ _ _ (stage_source-Stages source_name s stats)
            (stage_sources-Stages names)

      stage_test_file-Stages :
          (s : S) (stats : FieldStats)
          → Stages s (test_rows stats) (stage_test_file conn copy g table 2 s stats)
      unfolding stage_test_file test_rows
      stage_test_file-Stages s stats =
          elim (Bool-cases (not (equal g.load_from_dir []) && g.files.exists (test_path g table))) [
            | inl e ↦ rw e (stage_page-Stages s stats (test_path g table))
            | inr e ↦ rw e (Stages-nothing s stats)
          ]

      stage_files-Stages : (s : S) → Stages s table_rows (stage_files conn copy g table 2 s)
      unfolding stage_files table_rows
      stage_files-Stages s =
          Stages-then_run s _ _ _ _ (stage_sources-Stages g.source_names s [])
            stage_test_file-Stages

    -- The pass returns with the rows taken, or ends in their error.
    abbrev pub Loads : S → Loaded → S × Result (Unit {0}) → Type 0
    Loads s (ok (b, stats)) result = (t : S) × (result ≡ (t, ok tt)) × (taken t ≡ taken s ++ b)
    Loads s (runtime_error e) result = (t : S) × (result ≡ (t, runtime_error e))

    -- On a server that takes a COPY: the second pass returns with the rows of all pages of all
    -- sources, and of the file of tests, taken in this order behind what was taken before, or ends
    -- in the first error among opening a file, reading a count and handling a page.
    pub stage_table_2-Loads :
        (begins : BeginsCopy) (takes : TakesCopy) (ends : EndsCopy) (s : S)
        → Loads s table_rows (stage_table_2 conn copy g table s)
    unfolding stage_table_2 then_run
    stage_table_2-Loads begins takes ends s =
        by_rows table_rows (stage_files conn copy g table 2 s)
          (stage_files-Stages begins takes ends s)
      where
        by_rows :
            (rows : Loaded) (result : S × Result FieldStats)
            → Stages s rows result
            → Loads s rows (then_run result (λ s' stats. (s', ok tt)))
        by_rows (ok (b, stats)) result (t, q, k) =
            (t, ap (λ m. then_run m (λ s' stats. (s', ok tt))) q, k)
        by_rows (runtime_error e) result (t, q) =
            (t, ap (λ m. then_run m (λ s' stats. (s', ok tt))) q)
