-- ===== src/Upgrades/Transaction.antt =====
-- The upgrades that run in one transaction, and what an error leaves of them.
use ldp.Base.{
  ℕ, zero, suc, ◌+◌, List, [], ◌∷◌, Bool, true, false, not, ◌&&◌, if◌then◌else◌, ◌==◌, leb, Option,
  none, some, some-injective, get_elem?, Bytes, codes, equal, equal_iff, ok, Result, runtime_error,
  ◌≡◌, refl, sym, ap, ◌∙◌, subst, arith, inl, inr, ◌⊎◌, In, here, there,
}
use ldp.DbType.{DbSys, postgresql, redshift, unknown, type_string}
use ldp.Init.{Connection, Rows, then_run}
use ldp.Init.Upgrade.{differ}
use ldp.Upgrades.{
  DatabaseUpgradeOptions, Step, run, attempt, database_upgrades, run_step, run_steps, run_upgrade,
  run_entry, done,
}
use ldp.Upgrades.Version.{commit, &&-left, &&-right}

abbrev pub begin_transaction : Bytes
begin_transaction = codes "BEGIN;"

-- No statement but the last is the COMMIT, and no error is caught.
body_commits : List Step → Bool
body_commits [] = false
body_commits (attempt sql ∷ steps) = false
body_commits (run sql ∷ []) = equal sql commit
body_commits (run sql ∷ step ∷ steps) = not (equal sql commit) && body_commits (step ∷ steps)

is_transaction : List Step → Bool
is_transaction [] = false
is_transaction (attempt sql ∷ steps) = false
is_transaction (run sql ∷ steps) = equal sql begin_transaction && body_commits steps

-- The upgrades that send their statements between BEGIN and COMMIT.
abbrev pub runs_in_transaction : ℕ → Bool
runs_in_transaction v = leb 16 v && not (v == 27) && not (v == 34)

-- What the array has at an index.
abbrev pub upgrade_steps : List (Option (List Step)) → ℕ → List Step
upgrade_steps [] v = []
upgrade_steps (none ∷ entries) zero = []
upgrade_steps (some steps ∷ entries) zero = steps
upgrade_steps (entry ∷ entries) (suc v) = upgrade_steps entries v

all_transactions : ℕ → List (Option (List Step)) → Bool
all_transactions v [] = true
all_transactions v (none ∷ entries) = all_transactions (suc v) entries
all_transactions v (some steps ∷ entries) =
    (if runs_in_transaction v then is_transaction steps else true)
    && all_transactions (suc v) entries

upgrades_transactions :
    (opt : DatabaseUpgradeOptions) (dbt : DbSys)
    → all_transactions 0 (database_upgrades opt dbt) ≡ true
unfolding all_transactions is_transaction body_commits database_upgrades equal type_string
upgrades_transactions opt postgresql = refl
upgrades_transactions opt redshift = refl
upgrades_transactions opt unknown = refl

all_transactions-found :
    (v i n : ℕ) (entries : List (Option (List Step))) (steps : List Step)
    → all_transactions v entries ≡ true
    → n ≡ v + i
    → runs_in_transaction n ≡ true
    → get_elem? entries i ≡ some (some steps)
    → is_transaction steps ≡ true
unfolding all_transactions
all_transactions-found v i n [] steps h q b e = absurd cc
all_transactions-found v zero n (none ∷ entries) steps h q b e = absurd cc
all_transactions-found v zero n (some found ∷ entries) steps h q b e =
    let same : n ≡ v = omega arith in
    let at_v : runs_in_transaction v ≡ true = subst (λ k. runs_in_transaction k ≡ true) same b in
    subst (λ x. is_transaction x ≡ true) (some-injective _ _ (some-injective _ _ e))
      (&&-left _ _ (rw at_v at h))
all_transactions-found v (suc i) n (none ∷ entries) steps h q b e =
    all_transactions-found (suc v) i n entries steps h (omega arith) b e
all_transactions-found v (suc i) n (some found ∷ entries) steps h q b e =
    all_transactions-found (suc v) i n entries steps (&&-right _ _ h) (omega arith) b e

-- The same error, of a result of another type.
error_of : {A B : Type 0} → Result A → Result B
error_of (runtime_error e) = runtime_error e
error_of (ok a) = runtime_error []

-- A run that fails at its first statement, or behind it.
run_steps-error :
    {S : Type 0} (conn : Connection S) (sql : Bytes) (steps : List Step) (s t : S) (e : Bytes)
    → run_steps conn s (run sql ∷ steps) ≡ (t, runtime_error e)
    → (conn.exec s sql ≡ (t, runtime_error e))
      ⊎ ((s1 : S) × (rows : Rows) × (conn.exec s sql ≡ (s1, ok rows))
          × (run_steps conn s1 steps ≡ (t, runtime_error e)))
unfolding run_steps run_step done then_run error_of
run_steps-error {S} conn sql steps s t e = by_result (conn.exec s sql) refl
  where
    Ran : S × Result Rows → Type 0
    Ran m = then_run (done m) (λ s' u. run_steps conn s' steps) ≡ (t, runtime_error e)

    by_result :
        (m : S × Result Rows)
        → conn.exec s sql ≡ m
        → Ran m
        → (conn.exec s sql ≡ (t, runtime_error e))
          ⊎ ((s1 : S) × (rows : Rows) × (conn.exec s sql ≡ (s1, ok rows))
              × (run_steps conn s1 steps ≡ (t, runtime_error e)))
    by_result (s1, ok rows) q r = inr (s1, rows, q, r)
    by_result (s1, runtime_error x) q r = inl (q ∙ ap (λ p. (p.0, error_of p.1)) r)

upgrade_steps-found :
    (entries : List (Option (List Step))) (v : ℕ) (steps : List Step)
    → get_elem? entries v ≡ some (some steps)
    → upgrade_steps entries v ≡ steps
upgrade_steps-found [] v steps e = absurd cc
upgrade_steps-found (none ∷ entries) zero steps e = absurd cc
upgrade_steps-found (some found ∷ entries) zero steps e = some-injective _ _ (some-injective _ _ e)
upgrade_steps-found (none ∷ entries) (suc v) steps e = upgrade_steps-found entries v steps e
upgrade_steps-found (some found ∷ entries) (suc v) steps e = upgrade_steps-found entries v steps e

module _ {S D : Type 0} (conn : Connection S) (committed : S → D) (IsOpen : S → Type 0) where
  -- A BEGIN opens a transaction.
  abbrev pub BeginOpens : Type 0
  BeginOpens =
      (s t : S) (rows : Rows)
      → conn.exec s begin_transaction ≡ (t, ok rows)
      → (committed t ≡ committed s) × IsOpen t

  -- The statements of `steps` but the COMMIT stay inside the transaction that is open.
  abbrev pub StaysOpen : List Step → Type 0
  StaysOpen steps =
      (sql : Bytes)
      → In (run sql) steps
      → equal sql commit ≡ false
      → (s t : S) (rows : Rows) → IsOpen s
      → conn.exec s sql ≡ (t, ok rows)
      → (committed t ≡ committed s) × IsOpen t

  -- A statement that fails commits nothing.
  abbrev pub FailureKeeps : Type 0
  FailureKeeps =
      (s t : S) (sql e : Bytes) → conn.exec s sql ≡ (t, runtime_error e) → committed t ≡ committed s

  body_commits-error :
      (fails : FailureKeeps) (steps : List Step) (stays : StaysOpen steps) (s t : S) (e : Bytes)
      → body_commits steps ≡ true
      → IsOpen s
      → run_steps conn s steps ≡ (t, runtime_error e)
      → committed t ≡ committed s
  unfolding body_commits run_steps run_step done then_run
  body_commits-error fails [] stays s t e c o r = absurd cc
  body_commits-error fails (attempt sql ∷ steps) stays s t e c o r = absurd cc
  body_commits-error fails (run sql ∷ []) stays s t e c o r =
      elim (run_steps-error conn sql [] s t e r) [
        | inl q ↦ fails s t sql e q
        | inr (s1, rows, q, k) ↦ absurd (differ e tt (sym (ap (λ x. x.1) k)))
      ]
  body_commits-error fails (run sql ∷ step ∷ steps) stays s t e c o r =
      elim (run_steps-error conn sql (step ∷ steps) s t e r) [
        | inl q ↦ fails s t sql e q
        | inr (s1, rows, q, k) ↦
            let (kept, still) = stays sql (here refl) (ground arith) s s1 rows o q in
            body_commits-error fails (step ∷ steps) (λ sql' m. stays sql' (there m)) s1 t e
              (ground arith) still k
            ∙ kept
      ]

  is_transaction-error :
      (begins : BeginOpens) (fails : FailureKeeps) (steps : List Step) (stays : StaysOpen steps)
      (s t : S) (e : Bytes)
      → is_transaction steps ≡ true
      → run_steps conn s steps ≡ (t, runtime_error e)
      → committed t ≡ committed s
  unfolding is_transaction
  is_transaction-error begins fails [] stays s t e c r = absurd cc
  is_transaction-error begins fails (attempt sql ∷ steps) stays s t e c r = absurd cc
  is_transaction-error begins fails (run sql ∷ steps) stays s t e c r =
      elim (run_steps-error conn sql steps s t e r) [
        | inl q ↦ fails s t sql e q
        | inr (s1, rows, q, k) ↦
            let is_begin = (equal_iff sql begin_transaction).0 (&&-left _ _ c) in
            let (kept, opened) =
              begins s s1 rows (subst (λ x. conn.exec s x ≡ (s1, ok rows)) is_begin q) in
            body_commits-error fails steps (λ sql' m. stays sql' (there m)) s1 t e (&&-right _ _ c)
              opened k
            ∙ kept
      ]

  -- On a server where a BEGIN opens a transaction and a statement that fails commits nothing: an
  -- upgrade to one of the versions from 16 on but 27 and 34, of which no statement but the COMMIT
  -- ends the transaction, leaves what was committed before it when it ends in an error.
  pub run_upgrade-error :
      (begins : BeginOpens) (fails : FailureKeeps) (opt : DatabaseUpgradeOptions) (dbt : DbSys)
      (v : ℕ) (stays : StaysOpen (upgrade_steps (database_upgrades opt dbt) v)) (s t : S)
      (e : Bytes)
      → runs_in_transaction v ≡ true
      → run_upgrade conn opt dbt v s ≡ (t, runtime_error e)
      → committed t ≡ committed s
  unfolding run_upgrade run_entry
  run_upgrade-error begins fails opt dbt v stays s t e c =
      by_entry (get_elem? (database_upgrades opt dbt) v) refl
    where
      by_entry :
          (entry : Option (Option (List Step)))
          → get_elem? (database_upgrades opt dbt) v ≡ entry
          → run_entry conn entry s ≡ (t, runtime_error e)
          → committed t ≡ committed s
      by_entry (some (some steps)) q r =
          is_transaction-error begins fails steps
            (subst (λ x. StaysOpen x) (upgrade_steps-found (database_upgrades opt dbt) v steps q)
              stays)
            s t e
            (all_transactions-found 0 v v (database_upgrades opt dbt) steps
              (upgrades_transactions opt dbt) (omega arith) c q)
            r
      by_entry (some none) q r = sym (ap (λ x. committed (x.0)) r)
      by_entry none q r = sym (ap (λ x. committed (x.0)) r)
