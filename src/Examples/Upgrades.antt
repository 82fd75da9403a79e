-- ===== src/Examples/Upgrades.antt =====
-- Examples on the upgrades: servers that keep a version, or what was committed.
use ldp.Base.{
  ℕ, ◌==◌, Bool, true, false, ◌||◌, List, [], ◌∷◌, ◌++◌, some, some-injective, if◌then◌else◌, ltb,
  Bytes, codes, equal, equal_iff, to_string, to_string-injective, drop, get_elem?, Result, ok,
  runtime_error, ◌≡◌, refl, sym, ap, subst, ◌∙◌, arith, Bool-cases, inl, inr,
}
use ldp.DbType.{postgresql}
use ldp.Init.{
  Connection, Rows, upgrade_database, validate_database_latest_version, select_database_version,
  latest_database_version, read_version,
}
use ldp.Init.Upgrade.{HasVersion, KeepsVersion, differ}
use ldp.Log.{insert_sql, write}
use ldp.Options.{Options, default_options, update, staging}
use ldp.Server.Outdated.{server_loop-outdated}
use ldp.Server.{server_loop}
use ldp.Upgrades.{DatabaseUpgradeOptions, database_upgrades, run_upgrade}
use ldp.Upgrades.Version.{
  version_statement, WritesVersion, CommitKeepsVersion, HasUpgrade, database_upgrades-HasUpgrade,
  upgrade_database-latest,
}
use ldp.Upgrades.Transaction.{
  begin_transaction, StaysOpen, BeginOpens, FailureKeeps, upgrade_steps, run_upgrade-error,
}
use ldp.Upgrades.Version.{commit}

abbrev upgrade_options_example : DatabaseUpgradeOptions
upgrade_options_example = record { ldp_user = codes "ldp"; ldpconfig_user = codes "ldpconfig" }

abbrev starts : Bytes → Bytes → Bool
starts [] s = true
starts (c ∷ p) [] = false
starts (c ∷ p) (b ∷ s) = if b == c then starts p s else false

abbrev writes_version : Bytes → Bool
writes_version sql =
    starts (codes "UPDATE dbsystem.main SET") sql || starts (codes "UPDATE ldpsystem.main SET") sql

abbrev version_query : Bytes
version_query = codes "SELECT database_version FROM dbsystem.main;"

-- A server that keeps its version, and of the statements for a version takes only the last one.
abbrev version_server : Connection ℕ
version_server = record {
  exec = λ s sql.
      if equal sql version_query
      then (s, ok ((to_string s ∷ []) ∷ []))
      else if equal sql (version_statement 35)
      then (35, ok [])
      else if writes_version sql
      then (s, runtime_error (codes "permission denied"))
      else (s, ok []);
}

shorten : Bytes → Bytes
shorten [] = []
shorten (c ∷ []) = []
shorten (c ∷ d ∷ s) = c ∷ shorten (d ∷ s)

shorten-snoc : (s : Bytes) (c : ℕ) → shorten (s ++ (c ∷ [])) ≡ s
unfolding shorten
shorten-snoc [] c = refl
shorten-snoc (d ∷ []) c = refl
shorten-snoc (d ∷ e ∷ s) c = ap (λ x. d ∷ x) (shorten-snoc (e ∷ s) c)

letters : ◌≡◌ {A = ℕ} 108 100 → ⊥
letters h = omega arith

version_of_last : (v : ℕ) → version_statement v ≡ version_statement 35 → v ≡ 35
unfolding shorten
version_of_last v h = elim (Bool-cases (ltb v 18)) [
  | inl b ↦ absurd (letters (some-injective _ _ (ap (λ s. get_elem? s 7) (rw b at h))))
  | inr b ↦ to_string-injective v 35 (
      sym (shorten-snoc (to_string v) 59)
      ∙ ap (λ s. shorten (drop 44 s)) (rw b at h)
      ∙ shorten-snoc (to_string 35) 59)
]

last_version : HasVersion version_server 35 35
unfolding select_database_version equal to_string read_version
last_version = refl

first_version : HasVersion version_server 34 34
unfolding select_database_version equal to_string read_version
first_version = refl

-- What the server answers to the statement for a version, of which `b` tells if it is the last.
abbrev answer : ℕ → Bool → ℕ × Result Rows
answer s b = if b then (35, ok []) else (s, runtime_error (codes "permission denied"))

server-version_statement :
    (s v : ℕ)
    → version_server.exec s (version_statement v)
      ≡ answer s (equal (version_statement v) (version_statement 35))
unfolding equal
server-version_statement s v = elim (Bool-cases (ltb v 18)) [ inl b ↦ rw b | inr b ↦ rw b ]

server-WritesVersion : WritesVersion version_server
server-WritesVersion v s t rows h =
    elim (Bool-cases (equal (version_statement v) (version_statement 35))) [
      | inl q ↦
          let at_last : t ≡ 35 =
            sym (ap (λ x. x.0) (ap (answer s) (sym q) ∙ sym (server-version_statement s v) ∙ h)) in
          rw (at_last, version_of_last v ((equal_iff _ _).0 q)) last_version
      | inr q ↦ absurd (
          differ _ _
            (ap (λ x. x.1) (ap (answer s) (sym q) ∙ sym (server-version_statement s v) ∙ h)))
    ]

server-CommitKeepsVersion : CommitKeepsVersion version_server
unfolding equal
server-CommitKeepsVersion v s t rows h e =
    subst (λ x. HasVersion version_server x v) (ap (λ x. x.0) e) h

server-KeepsVersion : KeepsVersion version_server
unfolding insert_sql equal
server-KeepsVersion pid v m s t rows h e =
    subst (λ x. HasVersion version_server x v) (ap (λ x. x.0) e) h

upgraded :
    upgrade_database version_server
      (run_upgrade version_server upgrade_options_example postgresql)
      17
      34
    ≡ (35, ok tt)
unfolding upgrade_database select_database_version equal to_string read_version write insert_sql
    run_upgrade database_upgrades
upgraded = refl

upgrade_database-latest_example : validate_database_latest_version version_server 35 ≡ (35, ok tt)
upgrade_database-latest_example =
    upgrade_database-latest version_server server-WritesVersion server-CommitKeepsVersion
      server-KeepsVersion upgrade_options_example postgresql 17 34 34 35 tt first_version
      (unfold latest_database_version in refl) upgraded

abbrev command_line : Options
command_line = record (default_options update staging) { cli_mode = true }

-- An update that fails on `version_server`.
abbrev failing_update : ℕ → ℕ × Result (Unit {0})
failing_update s = (s, runtime_error (codes "no route to host\n"))

server_loop-outdated_example :
    server_loop version_server postgresql 17 command_line failing_update failing_update true 1 34
    ≡ some
        (34, runtime_error (codes "Database should be upgraded using the upgrade-database command"))
server_loop-outdated_example =
    server_loop-outdated version_server postgresql 17 command_line failing_update failing_update
      true 1 34 34 first_version (unfold latest_database_version in refl)

database_upgrades-HasUpgrade_example :
    HasUpgrade (database_upgrades upgrade_options_example postgresql) 18 18
database_upgrades-HasUpgrade_example =
    database_upgrades-HasUpgrade upgrade_options_example postgresql 17
      (unfold latest_database_version in omega arith)

-- The statements of the transaction that is open, and those that are committed.
abbrev Store : Type 0
Store = List Bytes × List Bytes

-- A server that fails at the version 21.
abbrev failing_server : Connection Store
failing_server = record {
  exec = λ s sql.
      if equal sql begin_transaction
      then (([], s.1), ok [])
      else if equal sql commit
      then (([], s.0 ++ s.1), ok [])
      else if equal sql (version_statement 21)
      then (s, runtime_error (codes "deadlock detected"))
      else ((sql ∷ s.0, s.1), ok []);
}

AlwaysOpen : Store → Type 0
AlwaysOpen s = Unit {0}

committed_statements : Store → List Bytes
committed_statements s = s.1

failing-BeginOpens : BeginOpens failing_server committed_statements AlwaysOpen
unfolding AlwaysOpen committed_statements equal
failing-BeginOpens s t rows h = (sym (ap (λ x. x.0.1) h), tt)

failing-StaysOpen :
    StaysOpen failing_server committed_statements AlwaysOpen
      (upgrade_steps (database_upgrades upgrade_options_example postgresql) 21)
unfolding AlwaysOpen committed_statements
failing-StaysOpen sql m n s t rows o h = elim (Bool-cases (equal sql begin_transaction)) [
  | inl b ↦ (sym (ap (λ x. x.0.1) (rw b at h)), tt)
  | inr b ↦ elim (Bool-cases (equal sql (version_statement 21))) [
    | inl c ↦ absurd (differ _ _ (ap (λ x. x.1) (rw (b, n, c) at h)))
    | inr c ↦ (sym (ap (λ x. x.0.1) (rw (b, n, c) at h)), tt)
  ]
]

failing-FailureKeeps : FailureKeeps failing_server committed_statements AlwaysOpen
unfolding committed_statements
failing-FailureKeeps s t sql e h = elim (Bool-cases (equal sql begin_transaction)) [
  | inl b ↦ absurd (differ _ _ (sym (ap (λ x. x.1) (rw b at h))))
  | inr b ↦ elim (Bool-cases (equal sql commit)) [
    | inl n ↦ absurd (differ _ _ (sym (ap (λ x. x.1) (rw (b, n) at h))))
    | inr n ↦ elim (Bool-cases (equal sql (version_statement 21))) [
      | inl c ↦ sym (ap (λ x. x.0.1) (rw (b, n, c) at h))
      | inr c ↦ absurd (differ _ _ (sym (ap (λ x. x.1) (rw (b, n, c) at h))))
    ]
  ]
]

-- One transaction is committed before the upgrade.
abbrev before_upgrade : Store
before_upgrade = ([], codes "INSERT" ∷ [])

abbrev after_error : Store
after_error = (run_upgrade failing_server upgrade_options_example postgresql 21 before_upgrade).0

upgrade_failed :
    run_upgrade failing_server upgrade_options_example postgresql 21 before_upgrade
    ≡ (after_error, runtime_error (codes "deadlock detected"))
unfolding run_upgrade database_upgrades equal to_string
upgrade_failed = refl

run_upgrade-error_example : committed_statements after_error ≡ committed_statements before_upgrade
run_upgrade-error_example =
    run_upgrade-error failing_server committed_statements AlwaysOpen failing-BeginOpens
      failing-FailureKeeps upgrade_options_example postgresql 21 failing-StaysOpen before_upgrade
      after_error (codes "deadlock detected") refl upgrade_failed
