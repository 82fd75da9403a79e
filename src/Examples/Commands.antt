-- ===== src/Examples/Commands.antt =====
-- Examples on the users and the privileges.
use ldp.Base.{
  false, List, [], ◌∷◌, Bytes, codes, equal, In, ok, runtime_error, if◌then◌else◌, ◌≡◌, refl,
}
use ldp.Commands.Privileges.{cmd_list_privileges-AllGranted}
use ldp.Commands.{cmd_list_privileges, select_line, usage_line, split_dot}
use ldp.DefaultSchema.{make_default_schema}
use ldp.Init.{Connection}
use ldp.Columns.{id}
use ldp.Table.{TableSchema, rmb}
use ldp.Update.Suggest.{search_all}
use ldp.Update.Suggested.{AllStand, search_all-suggested}
use ldp.Users.Granted.{Covers, read_users-Covers}
use ldp.Users.{read_users, user_names}
use ldp.Base.{some}

-- A server on which the user `bob` is not known.
abbrev users_server : Connection (List Bytes)
users_server = record {
  exec = λ s sql.
      if equal sql (codes "GRANT USAGE ON SCHEMA public TO bob;")
      then (s, runtime_error (codes "role \"bob\" does not exist"))
      else (sql ∷ s, ok []);
}

abbrev users_file : Bytes
users_file = codes "Alice\n\n bob \n"

read_users-Covers_example :
    Covers users_server
      (user_names users_file)
      ((read_users users_server (some users_file) (codes "super") (codes "secret") false []).1)
read_users-Covers_example =
    read_users-Covers users_server users_file (codes "super") (codes "secret") false []
      (unfold equal in refl)

cmd_list_privileges-AllGranted_example :
    (lines : List Bytes) × (cmd_list_privileges (codes "diku") (codes "ldp") ≡ ok lines)
    × ((t : TableSchema)
        → In t make_default_schema
        → (p : Bytes × Bytes) × (split_dot t ≡ ok p)
          × In (select_line (codes "diku") (codes "ldp") (p.0) (p.1)) lines
          × In (usage_line (codes "diku") (codes "ldp") (p.0)) lines)
cmd_list_privileges-AllGranted_example = cmd_list_privileges-AllGranted (codes "diku") (codes "ldp")

-- A server that finds each key in every table.
abbrev keys_server : Connection (List Bytes)
keys_server = record { exec = λ s sql. (sql ∷ s, ok ((codes "1" ∷ []) ∷ [])) }

abbrev loans_table : TableSchema
loans_table = record {
  skip = false;
  anonymize = false;
  name = codes "circulation_loans";
  source_spec = codes "/loan-storage/loans";
  source_type = rmb;
  columns =
      record { name = codes "item_id"; type = id; length = 36; source_name = codes "itemId" } ∷ [];
  module_name = codes "mod-circulation-storage";
  direct_source_table = codes "mod_circulation_storage.loan";
}

search_all-suggested_example :
    AllStand keys_server
      (loans_table ∷ [])
      ((search_all keys_server (loans_table ∷ []) (loans_table ∷ []) [] []).1)
search_all-suggested_example = search_all-suggested keys_server (loans_table ∷ []) []

-- One key is found, and suggested.
suggested :
    (search_all keys_server (loans_table ∷ []) (loans_table ∷ []) [] []).1
    ≡ (
      codes "circulation_loans.item_id",
      record {
        referencing_table = codes "circulation_loans";
        referencing_column = codes "item_id";
        referenced_table = codes "circulation_loans";
        referenced_column = codes "id";
        constraint_name = [];
      }
          ∷ [],
    )
      ∷ []
unfolding search_all equal
suggested = refl
