-- ===== src/Init/Upgrade.antt =====
-- The version of the database after its upgrades.
use ldp.Base.{
  ℕ, zero, suc, ◌+◌, ◌-◌, ◌==◌, Bool, true, false, List, if◌then◌else◌, ltb, leb, some, Bytes,
  codes, Result, ok, runtime_error, ◌≡◌, refl, sym, ap, ◌∙◌, subst, arith, Bool-cases, inl, inr,
}
use ldp.Json.{pos}
use ldp.DbType.{postgresql}
use ldp.Log.{Message, insert_sql, write}
use ldp.Init.{
  Connection, Rows, then_run, latest_database_version, validate_database_version,
  select_database_version, version_found, exec_all, upgrade_loop, log_upgraded, upgraded_message,
  upgrade_database_all, upgrade_database, init_database, validate_database_latest_version,
}

pub differ {ℓ} : {B : Type ℓ} (e : Bytes) (b : B) → runtime_error e ≡ ok b → ⊥
differ e b h = cc

pub then_run-ok {ℓ κ} :
    {S : Type 0} {A : Type ℓ} {B : Type κ} (m : S × Result A) (f : S → A → S × Result B) {s : S}
    {b : B}
    → then_run m f ≡ (s, ok b)
    → (s1 : S) × (a : A) × (m ≡ (s1, ok a)) × (f s1 a ≡ (s, ok b))
unfolding then_run
then_run-ok (s1, ok a) f h = (s1, a, refl, h)
then_run-ok (s1, runtime_error e) f h = absurd (differ e _ (ap (λ x. x.1) h))

validate-known :
    (v : ℕ) → leb v latest_database_version ≡ true → validate_database_version (pos v) ≡ ok v
unfolding validate_database_version
validate-known v h = ground arith

module _ {S : Type 0} (conn : Connection S) where
  -- The query for the version finds `v`, and leaves the database as it is.
  abbrev pub HasVersion : S → ℕ → Type 0
  HasVersion s v = select_database_version conn s ≡ (s, ok (some (pos v)))

  -- An upgrade that returns leaves its version.
  abbrev pub SetsVersion : (ℕ → S → S × Result (Unit {0})) → Type 0
  SetsVersion upgrades =
      (v : ℕ) (s t : S) (u : Unit {0}) → upgrades v s ≡ (t, ok u) → HasVersion t v

  -- A message of the log that is stored leaves the version.
  abbrev pub KeepsVersion : Type 0
  KeepsVersion =
      (pid v : ℕ) (m : Message) (s t : S) (rows : Rows)
      → HasVersion s v
      → conn.exec s (insert_sql postgresql pid m) ≡ (t, ok rows)
      → HasVersion t v

  version_found-HasVersion :
      {A : Type 0} (s : S) (v : ℕ) (found : S → ℕ → S × Result A) (absent : S → S × Result A)
      → HasVersion s v
      → leb v latest_database_version ≡ true
      → version_found conn s found absent ≡ found s v
  unfolding version_found then_run
  version_found-HasVersion s v found absent h b = rw (h, validate-known v b)

  upgrade_loop-HasVersion :
      (upgrades : ℕ → S → S × Result (Unit {0})) (sets : SetsVersion upgrades) (v n : ℕ) (s t : S)
      (u : Unit {0})
      → HasVersion s v
      → upgrade_loop conn upgrades v n s ≡ (t, ok u)
      → HasVersion t (v + n)
  unfolding upgrade_loop then_run
  upgrade_loop-HasVersion upgrades sets v zero s t u h e =
      subst (λ x. HasVersion x (v + 0)) (ap (λ x. x.0) e) (subst (HasVersion s) (omega arith) h)
  upgrade_loop-HasVersion upgrades sets v (suc n) s t u h e =
      let (s1, u1, e1, e2) = then_run-ok (upgrades (suc v) s) _ e in
      subst (HasVersion t) (omega arith)
        (upgrade_loop-HasVersion upgrades sets (suc v) n s1 t u (sets (suc v) s s1 u1 e1) e2)

  log_upgraded-HasVersion :
      (keeps : KeepsVersion) (pid v : ℕ) (s t : S) (u : Unit {0})
      → HasVersion s v
      → log_upgraded conn pid s ≡ (t, ok u)
      → HasVersion t v
  unfolding log_upgraded upgraded_message exec_all write then_run
  log_upgraded-HasVersion keeps pid v s t u h e =
      let (t1, rows, e1, e2) = then_run-ok (conn.exec s _) _ e in
      subst (λ x. HasVersion x v) (ap (λ x. x.0) e2) (keeps pid v upgraded_message s t1 rows h e1)

  upgrade_database_all-HasVersion :
      (upgrades : ℕ → S → S × Result (Unit {0})) (sets : SetsVersion upgrades)
      (keeps : KeepsVersion) (pid v : ℕ) (s t : S) (u : Unit {0})
      → HasVersion s v
      → ltb v latest_database_version ≡ true
      → upgrade_database_all conn upgrades pid v s ≡ (t, ok u)
      → HasVersion t latest_database_version
  unfolding upgrade_database_all
  upgrade_database_all-HasVersion upgrades sets keeps pid v s t u h below e =
      let (s1, u1, e1, e2) =
        then_run-ok (upgrade_loop conn upgrades v (latest_database_version - v) s) _ e in
      let at_last : HasVersion s1 latest_database_version =
        subst (HasVersion s1) (ground arith)
          (upgrade_loop-HasVersion upgrades sets v (latest_database_version - v) s s1 u1 h e1) in
      log_upgraded-HasVersion keeps pid latest_database_version s1 t u at_last (rw below at e2)

  pub validate_latest :
      (s : S)
      → HasVersion s latest_database_version
      → validate_database_latest_version conn s ≡ (s, ok tt)
  unfolding validate_database_latest_version
  validate_latest s h =
      version_found-HasVersion s latest_database_version _ _ h
        (unfold latest_database_version in refl)
      ∙ (unfold latest_database_version in refl)

  pub validate_outdated :
      (s : S) (v : ℕ)
      → HasVersion s v
      → ltb v latest_database_version ≡ true
      → validate_database_latest_version conn s ≡ (
        s,
        runtime_error (codes "Database should be upgraded using the upgrade-database command"),
      )
  unfolding validate_database_latest_version
  validate_outdated s v h below =
      version_found-HasVersion s v _ _ h (ground arith) ∙ rw not_latest refl
    where
      not_latest : (v == latest_database_version) ≡ false
      not_latest = ground arith

  -- For a database that has a version that the program knows, upgrades of which each leaves its own
  -- version, and a log that leaves the version: where `upgrade_database` returns, it leaves a
  -- database that `validate_database_latest_version` accepts.
  pub upgrade_database-validates :
      (upgrades : ℕ → S → S × Result (Unit {0})) (sets : SetsVersion upgrades)
      (keeps : KeepsVersion) (pid v : ℕ) (s t : S) (u : Unit {0})
      → HasVersion s v
      → leb v latest_database_version ≡ true
      → upgrade_database conn upgrades pid s ≡ (t, ok u)
      → validate_database_latest_version conn t ≡ (t, ok tt)
  unfolding upgrade_database
  upgrade_database-validates upgrades sets keeps pid v s t u h known e =
      elim (Bool-cases (ltb v latest_database_version)) [
        | inl below ↦ validate_latest t (
            upgrade_database_all-HasVersion upgrades sets keeps pid v s t u h below
              (subst Taken below e'))
        | inr above ↦ validate_latest t (
            subst (λ x. HasVersion x latest_database_version) (ap (λ x. x.0) (subst Taken above e'))
              (subst (HasVersion s) (ground arith) h))
      ]
    where
      Taken : Bool → Type 0
      Taken b = (if b then upgrade_database_all conn upgrades pid v s else (s, ok tt)) ≡ (t, ok u)

      e' :
          (if ltb v latest_database_version
            then upgrade_database_all conn upgrades pid v s
            else (s, ok tt))
          ≡ (t, ok u)
      e' = sym (version_found-HasVersion s v _ _ h known) ∙ e

  -- On a database that has a version that the program knows: nothing is initialized, the database
  -- stays as it is, and the run ends in an error.
  init_database-HasVersion :
      (statements : List Bytes) (v : ℕ) (s : S)
      → HasVersion s v
      → leb v latest_database_version ≡ true
      → init_database conn statements s
        ≡ (s, runtime_error (codes "Database may have been previously initialized"))
  unfolding init_database
  init_database-HasVersion statements v s h known = version_found-HasVersion s v _ _ h known
