-- ===== src/Upgrades/Version.antt =====
-- The statement of each upgrade that writes the version, and the version that a run leaves.
use ldp.Base.{
  ℕ, zero, suc, ◌+◌, ◌<◌, List, [], ◌∷◌, ◌++◌, Bool, true, false, ◌&&◌, if◌then◌else◌, ltb, leb,
  Option, none, some, some-injective, get_elem?, length, Bytes, codes, equal, equal_iff, to_string,
  ok, Result, runtime_error, ◌≡◌, refl, ap, subst, arith, Bool-cases, inl, inr,
}
use ldp.DbType.{DbSys, postgresql, redshift, unknown, type_string}
use ldp.Init.{
  Connection, Rows, then_run, upgrade_database, validate_database_latest_version,
  latest_database_version,
}
use ldp.Init.Upgrade.{
  differ, HasVersion, SetsVersion, KeepsVersion, then_run-ok, upgrade_database-validates,
}
use ldp.Upgrades.{
  DatabaseUpgradeOptions, Step, run, attempt, database_upgrades, run_step, run_steps, run_entry,
  run_upgrade, done,
}

-- The table that keeps the version was renamed by the upgrade to version 18.
abbrev pub version_statement : ℕ → Bytes
version_statement v =
    if ltb v 18
    then codes "UPDATE ldpsystem.main SET ldp_schema_version = " ++ (to_string v ++ codes ";")
    else codes "UPDATE dbsystem.main SET database_version = " ++ (to_string v ++ codes ";")

abbrev pub commit : Bytes
commit = codes "COMMIT;"

-- Nothing is left, or only the end of the transaction.
abbrev pub is_end : List Step → Bool
is_end [] = true
is_end (run sql ∷ []) = equal sql commit
is_end _ = false

-- The statement for the version stands in the list, and behind the first one is the end.
abbrev pub ends_with_version : ℕ → List Step → Bool
ends_with_version v [] = false
ends_with_version v (attempt sql ∷ steps) = ends_with_version v steps
ends_with_version v (run sql ∷ steps) =
    let rest = ends_with_version v steps in
    if equal sql (version_statement v) then is_end steps else rest

-- The entries, numbered from `v` on, are there and end with their version.
all_end : ℕ → List (Option (List Step)) → Bool
all_end v [] = true
all_end v (none ∷ entries) = false
all_end v (some steps ∷ entries) = ends_with_version v steps && all_end (suc v) entries

abbrev behind_first : List (Option (List Step)) → List (Option (List Step))
behind_first [] = []
behind_first (entry ∷ entries) = entries

upgrades_end :
    (opt : DatabaseUpgradeOptions) (dbt : DbSys)
    → all_end 1 (behind_first (database_upgrades opt dbt)) ≡ true
unfolding all_end database_upgrades equal type_string to_string
upgrades_end opt postgresql = refl
upgrades_end opt redshift = refl
upgrades_end opt unknown = refl

pub &&-left : (a b : Bool) → (a && b) ≡ true → a ≡ true
&&-left a b h = ground arith

pub &&-right : (a b : Bool) → (a && b) ≡ true → b ≡ true
&&-right a b h = ground arith

-- The array has an upgrade at index `i`, and it ends with the version `v`.
abbrev pub HasUpgrade : List (Option (List Step)) → ℕ → ℕ → Type 0
HasUpgrade entries i v =
    (steps : List Step) × (get_elem? entries i ≡ some (some steps))
    × (ends_with_version v steps ≡ true)

all_end-HasUpgrade :
    (v i : ℕ) (entries : List (Option (List Step)))
    → all_end v entries ≡ true
    → i < length entries
    → HasUpgrade entries i (v + i)
unfolding all_end
all_end-HasUpgrade v i [] h b = absurd (omega arith)
all_end-HasUpgrade v i (none ∷ entries) h b = absurd (ground arith)
all_end-HasUpgrade v zero (some steps ∷ entries) h b = (
  steps,
  refl,
  subst (λ n. ends_with_version n steps ≡ true) (omega arith)
      (&&-left (ends_with_version v steps) (all_end (suc v) entries) h),
)
all_end-HasUpgrade v (suc i) (some steps ∷ entries) h b =
    subst (HasUpgrade entries i) (omega arith) (
      all_end-HasUpgrade (suc v) i entries
        (&&-right (ends_with_version v steps) (all_end (suc v) entries) h) (omega arith))

-- For every version from 1 to the latest one: the array has an upgrade to it, whose statements
-- include the one that writes that version, and behind the first such statement comes nothing, or
-- only the COMMIT.
pub database_upgrades-HasUpgrade :
    (opt : DatabaseUpgradeOptions) (dbt : DbSys) (v : ℕ)
    → v < latest_database_version
    → HasUpgrade (database_upgrades opt dbt) (suc v) (suc v)
unfolding database_upgrades latest_database_version
database_upgrades-HasUpgrade opt dbt v b =
    subst (HasUpgrade (behind_first (database_upgrades opt dbt)) v) (omega arith)
      (all_end-HasUpgrade 1 v (behind_first (database_upgrades opt dbt)) (upgrades_end opt dbt) b)

present-end :
    (v i : ℕ) (entries : List (Option (List Step))) (steps : List Step)
    → all_end v entries ≡ true
    → get_elem? entries i ≡ some (some steps)
    → ends_with_version (v + i) steps ≡ true
unfolding all_end
present-end v i [] steps h e = absurd cc
present-end v i (none ∷ entries) steps h e = absurd (ground arith)
present-end v zero (some found ∷ entries) steps h e =
    subst (λ n. ends_with_version n steps ≡ true) (omega arith)
      (subst (λ x. ends_with_version v x ≡ true) (some-injective _ _ (some-injective _ _ e))
        (&&-left (ends_with_version v found) (all_end (suc v) entries) h))
present-end v (suc i) (some found ∷ entries) steps h e =
    subst (λ n. ends_with_version n steps ≡ true) (omega arith)
      (present-end (suc v) i entries steps
        (&&-right (ends_with_version v found) (all_end (suc v) entries) h) e)

database_upgrades-end :
    (opt : DatabaseUpgradeOptions) (dbt : DbSys) (v : ℕ) (steps : List Step)
    → get_elem? (database_upgrades opt dbt) v ≡ some (some steps)
    → ends_with_version v steps ≡ true
unfolding database_upgrades
database_upgrades-end opt dbt zero steps h = absurd cc
database_upgrades-end opt dbt (suc v) steps h =
    subst (λ n. ends_with_version n steps ≡ true) (omega arith)
      (present-end 1 v (behind_first (database_upgrades opt dbt)) steps (upgrades_end opt dbt) h)

done-ok :
    {S A : Type 0} (m : S × Result A) {t : S} {u : Unit {0}}
    → done m ≡ (t, ok u)
    → (a : A) × (m ≡ (t, ok a))
unfolding done
done-ok (s, ok a) h = (a, ap (λ x. (x.0, ok a)) h)
done-ok (s, runtime_error e) h = absurd (differ e tt (ap (λ x. x.1) h))

module _ {S : Type 0} (conn : Connection S) where
  -- What the statement for a version does on the server.
  abbrev pub WritesVersion : Type 0
  WritesVersion =
      (v : ℕ) (s t : S) (rows : Rows)
      → conn.exec s (version_statement v) ≡ (t, ok rows)
      → HasVersion conn t v

  -- The end of a transaction keeps the version that is there.
  abbrev pub CommitKeepsVersion : Type 0
  CommitKeepsVersion =
      (v : ℕ) (s t : S) (rows : Rows)
      → HasVersion conn s v
      → conn.exec s commit ≡ (t, ok rows)
      → HasVersion conn t v

  is_end-HasVersion :
      (keeps : CommitKeepsVersion) (v : ℕ) (steps : List Step) (s t : S) (u : Unit {0})
      → is_end steps ≡ true
      → HasVersion conn s v
      → run_steps conn s steps ≡ (t, ok u)
      → HasVersion conn t v
  unfolding run_steps run_step then_run
  is_end-HasVersion keeps v [] s t u e h r = subst (λ x. HasVersion conn x v) (ap (λ x. x.0) r) h
  is_end-HasVersion keeps v (run sql ∷ []) s t u e h r =
      let (s1, u1, e1, e2) =
        then_run-ok (run_step conn s (run sql)) (λ x y. run_steps conn x []) r in
      let (rows, q) = done-ok (conn.exec s sql) e1 in
      subst (λ x. HasVersion conn x v) (ap (λ x. x.0) e2)
        (keeps v s s1 rows h
          (subst (λ x. conn.exec s x ≡ (s1, ok rows)) ((equal_iff sql commit).0 e) q))
  is_end-HasVersion keeps v (run sql ∷ step ∷ steps) s t u e h r = absurd cc
  is_end-HasVersion keeps v (attempt sql ∷ steps) s t u e h r = absurd cc

  run_steps-HasVersion :
      (writes : WritesVersion) (keeps : CommitKeepsVersion) (v : ℕ) (steps : List Step) (s t : S)
      (u : Unit {0})
      → ends_with_version v steps ≡ true
      → run_steps conn s steps ≡ (t, ok u)
      → HasVersion conn t v
  unfolding run_steps run_step then_run
  run_steps-HasVersion writes keeps v [] s t u e r = absurd cc
  run_steps-HasVersion writes keeps v (attempt sql ∷ steps) s t u e r =
      let (s1, u1, e1, e2) =
        then_run-ok (run_step conn s (attempt sql)) (λ x y. run_steps conn x steps) r in
      run_steps-HasVersion writes keeps v steps s1 t u e e2
  run_steps-HasVersion writes keeps v (run sql ∷ steps) s t u e r =
      let (s1, u1, e1, e2) =
        then_run-ok (run_step conn s (run sql)) (λ x y. run_steps conn x steps) r in
      elim (Bool-cases (equal sql (version_statement v))) [
        | inl q ↦
            let (rows, k) = done-ok (conn.exec s sql) e1 in
            is_end-HasVersion keeps v steps s1 t u (rw q at e)
              (writes v s s1 rows (
                subst (λ x. conn.exec s x ≡ (s1, ok rows))
                  ((equal_iff sql (version_statement v)).0 q) k))
              e2
        | inr q ↦ run_steps-HasVersion writes keeps v steps s1 t u (rw q at e) e2
      ]

  -- On a server where the statement for a version writes it, and a COMMIT keeps it: each upgrade
  -- that returns leaves its own version.
  pub run_upgrade-SetsVersion :
      (writes : WritesVersion) (keeps : CommitKeepsVersion) (opt : DatabaseUpgradeOptions)
      (dbt : DbSys)
      → SetsVersion conn (run_upgrade conn opt dbt)
  unfolding run_upgrade
  run_upgrade-SetsVersion writes keeps opt dbt v s t u h =
      by_entry (get_elem? (database_upgrades opt dbt) v) refl h
    where
      Called : Option (Option (List Step)) → Type 0
      Called entry = run_entry conn entry s ≡ (t, ok u)

      by_entry :
          (entry : Option (Option (List Step)))
          → get_elem? (database_upgrades opt dbt) v ≡ entry
          → Called entry
          → HasVersion conn t v
      by_entry (some (some steps)) e r =
          run_steps-HasVersion writes keeps v steps s t u (database_upgrades-end opt dbt v steps e)
            r
      by_entry (some none) e r = absurd (differ _ _ (ap (λ x. x.1) r))
      by_entry none e r = absurd (differ _ _ (ap (λ x. x.1) r))

  -- On such a server, for a database at a version that the program knows, whose log leaves the
  -- version: where `upgrade_database` returns with the upgrades of the program, it leaves a database
  -- that `validate_database_latest_version` accepts.
  pub upgrade_database-latest :
      (writes : WritesVersion) (keeps : CommitKeepsVersion) (logs : KeepsVersion conn)
      (opt : DatabaseUpgradeOptions) (dbt : DbSys) (pid v : ℕ) (s t : S) (u : Unit {0})
      → HasVersion conn s v
      → leb v latest_database_version ≡ true
      → upgrade_database conn (run_upgrade conn opt dbt) pid s ≡ (t, ok u)
      → validate_database_latest_version conn t ≡ (t, ok tt)
  upgrade_database-latest writes keeps logs opt dbt =
      upgrade_database-validates conn (run_upgrade conn opt dbt)
        (run_upgrade-SetsVersion writes keeps opt dbt) logs
