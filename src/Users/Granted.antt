-- ===== src/Users/Granted.antt =====
-- The users that are granted their privileges.
use ldp.Base.{
  ◌<◌, ◌≤◌, Bool, true, false, ◌||◌, List, [], ◌∷◌, length, Bytes, equal, some, Result, ok,
  runtime_error, ◌≡◌, refl, ap, sym, subst, arith, codes, ◌++◌, In, here, there, map,
}
use ldp.Init.{Connection, Rows, exec_all}
use ldp.Init.Upgrade.{then_run-ok}
use ldp.Users.{UsersRead, user_names, user_grants, pushed, grant_users, read_users}

-- The statements that give a user the privileges: to use the schemas, to create in `local`, and to
-- read the tables.
abbrev pub privileges : List Bytes
privileges =
    codes "GRANT USAGE ON SCHEMA public"
    ∷ codes "GRANT USAGE ON SCHEMA history"
    ∷ codes "GRANT CREATE, USAGE ON SCHEMA local"
    ∷ codes "GRANT SELECT ON ALL TABLES IN SCHEMA public"
    ∷ codes "GRANT SELECT ON ALL TABLES IN SCHEMA history"
    ∷ []

-- The server has taken the statement for one privilege of a user.
abbrev pub IsGranted : {S : Type 0} → Connection S → Bytes → Bytes → Type 0
IsGranted {S} conn u privilege =
    (s : S) × (s' : S) × (rows : Rows) × (conn.exec s
        (privilege ++ (codes " TO " ++ (u ++ codes ";")))
      ≡ (s', ok rows))

-- The server has taken all of them.
abbrev pub HasPrivileges : {S : Type 0} → Connection S → Bytes → Type 0
HasPrivileges conn u = (privilege : Bytes) → In privilege privileges → IsGranted conn u privilege

-- Success: all names; failure: fewer of them. Either way, those that are given have their
-- privileges.
abbrev pub Covers : {S : Type 0} → Connection S → List Bytes → UsersRead → Type 0
Covers conn names r =
    (r.success ≡ true → r.users ≡ names)
    × (r.success ≡ false → length r.users < length names)
    × (length r.users ≤ length names)
    × ((u : Bytes) → In u r.users → HasPrivileges conn u)

In-map : (f : Bytes → Bytes) {x : Bytes} (xs : List Bytes) → In x xs → In (f x) (map f xs)
In-map f [] m = elim m [ ]
In-map f (y ∷ xs) (here q) = here (ap f q)
In-map f (y ∷ xs) (there n) = there (In-map f xs n)

module _ {S : Type 0} (conn : Connection S) where
  abbrev Taken : Bytes → Type 0
  Taken sql = (s : S) × (s' : S) × (rows : Rows) × (conn.exec s sql ≡ (s', ok rows))

  -- Statements that all end without an error have been taken.
  exec_all-Taken :
      (sqls : List Bytes) (s t : S) (u : Unit {0})
      → exec_all conn s sqls ≡ (t, ok u)
      → (sql : Bytes) → In sql sqls
      → Taken sql
  unfolding exec_all
  exec_all-Taken [] s t u h sql m = elim m [ ]
  exec_all-Taken (x ∷ sqls) s t u h sql m =
      let (s1, rows, e, h') = then_run-ok (conn.exec s x) _ h in
      elim m [
        | here q ↦ subst Taken (sym q) (s, s1, rows, e)
        | there n ↦ exec_all-Taken sqls s1 t u h' sql n
      ]

  user_grants-HasPrivileges :
      (u : Bytes) (s t : S) (a : Unit {0})
      → exec_all conn s (user_grants u) ≡ (t, ok a)
      → HasPrivileges conn u
  unfolding user_grants
  user_grants-HasPrivileges u s t a h privilege m =
      exec_all-Taken (user_grants u) s t a h _
        (In-map (λ p. p ++ (codes " TO " ++ (u ++ codes ";"))) privileges m)

  grant_users-Covers :
      (names : List Bytes) (s : S) → Covers conn names ((grant_users conn names s).1)
  unfolding grant_users
  grant_users-Covers [] s = (λ e. refl, λ e. absurd cc, omega arith, λ u m. elim m [ ])
  grant_users-Covers (u ∷ names) s =
      let (s1, result) = exec_all conn s (user_grants u) in
      pushed_one result ((grant_users conn names s1).1)
        (λ a e. user_grants-HasPrivileges u s s1 a (ap (λ r. (s1, r)) e))
        (grant_users-Covers names s1)
    where
      pushed_one :
          (result : Result (Unit {0})) (later : UsersRead)
          → ((a : Unit {0}) → result ≡ ok a → HasPrivileges conn u)
          → Covers conn names later
          → Covers conn (u ∷ names) (pushed conn u result later)
      pushed_one (ok a) later h (all, some_missing, bound, granted) = (
        λ e. ap (λ us. u ∷ us) (all e),
        λ e. omega (arith, some_missing e),
        omega arith,
        λ v m. first (h a refl) granted v m,
      )
        where
          first :
              HasPrivileges conn u
              → ((v : Bytes) → In v later.users → HasPrivileges conn v)
              → (v : Bytes) → In v (u ∷ later.users)
              → HasPrivileges conn v
          first here_granted rest v (here q) = subst (HasPrivileges conn) (sym q) here_granted
          first here_granted rest v (there n) = rest v n
      pushed_one (runtime_error e) later h (all, some_missing, bound, granted) =
          (λ q. absurd cc, λ q. omega arith, omega arith, granted)

-- With a file of users and the data of a superuser: if `read_users` reports success, its users are
-- all names of the file, in order; if it reports a failure, it has fewer users than the file has
-- names. For each of its users, the server has taken the statements for all five privileges.
pub read_users-Covers :
    {S : Type 0} (conn : Connection S) (file superuser superpassword : Bytes)
    (warn_no_config : Bool) (s : S)
    → (equal superuser [] || equal superpassword []) ≡ false
    → Covers conn
        (user_names file)
        ((read_users conn (some file) superuser superpassword warn_no_config s).1)
unfolding read_users
read_users-Covers conn file superuser superpassword warn_no_config s h =
    rw h (grant_users-Covers conn (user_names file) s)
