-- ===== src/Users.antt =====
-- src/users.cpp: the users of the file `ldp_users.conf`, and the privileges that they are granted.
-- The file is its content, or none where it does not exist; the state is that of the database, to
-- which the superuser is connected. What is written to the log is left out.
pub mod Granted
use ldp.Base.{
  Bool, true, false, ◌||◌, List, [], ◌∷◌, ◌++◌, Option, none, some, if◌then◌else◌, Bytes, codes,
  equal, Result, ok, runtime_error,
}
use ldp.Init.{Connection, exec_all}
use ldp.TextUtil.{trim, lower_text, getline_tokens}

-- The lines that are not blank, in lower case.
names_of : List Bytes → List Bytes
names_of [] = []
names_of (l ∷ lines) =
    let line = trim l in
    let rest = names_of lines in if equal line [] then rest else lower_text line ∷ rest

unfoldable pub user_names : Bytes → List Bytes
unfolding names_of
user_names file = names_of (getline_tokens b'\n' file [])

abbrev grant_to : Bytes → Bytes → Bytes
grant_to privilege u = privilege ++ (codes " TO " ++ (u ++ codes ";"))

unfoldable pub user_grants : Bytes → List Bytes
user_grants u =
    grant_to (codes "GRANT USAGE ON SCHEMA public") u
    ∷ grant_to (codes "GRANT USAGE ON SCHEMA history") u
    ∷ grant_to (codes "GRANT CREATE, USAGE ON SCHEMA local") u
    ∷ grant_to (codes "GRANT SELECT ON ALL TABLES IN SCHEMA public") u
    ∷ grant_to (codes "GRANT SELECT ON ALL TABLES IN SCHEMA history") u
    ∷ []

-- What `read_users` returns, and the users that it has pushed.
pub record UsersRead : Type 0 where
  pub success : Bool
  pub users : List Bytes

module _ {S : Type 0} (conn : Connection S) where
  -- A user is pushed when all statements have been answered; the first error ends them.
  abbrev pushed : Bytes → Result (Unit {0}) → UsersRead → UsersRead
  pushed u (ok a) later = record later { users = u ∷ later.users }
  pushed u (runtime_error e) later = record later { success = false }

  -- The loop over the names. A failure before it leaves `success` as it was, so what the loop gives
  -- does not depend on it.
  grant_users : List Bytes → S → S × UsersRead
  grant_users [] s = (s, record { success = true; users = [] })
  grant_users (u ∷ names) s =
      let (s1, result) = exec_all conn s (user_grants u) in
      let (s2, later) = grant_users names s1 in (s2, pushed u result later)

  unfoldable pub read_users : Option Bytes → Bytes → Bytes → Bool → S → S × UsersRead
  unfolding grant_users user_names
  read_users none superuser superpassword warn_no_config s =
      (s, record { success = if warn_no_config then false else true; users = [] })
  read_users (some file) superuser superpassword warn_no_config s =
      if equal superuser [] || equal superpassword []
      then (s, record { success = false; users = [] })
      else grant_users (user_names file) s
