-- ===== src/Examples/Database.antt =====
-- Examples on the log, the optional columns, the upgrades and the merge.
use ldp.Base.{
  false, List, [], ◌∷◌, ◌++◌, none, some, codes, c_str, All, here, there, ◌≡◌, ◌↔◌, refl, sym, ap,
  ◌∙◌, arith,
}
use ldp.AddColumns.Valid.{IsAddColumn, add_columns-valid}
use ldp.AddColumns.{add_columns}
use ldp.DbType.{postgresql}
use ldp.Log.Stored.{Carries, is_stored, write-Carries, write-stored_iff}
use ldp.Log.{Log, Message, debug, warning, elapsed_text, insert_sql, log_message, write}
use ldp.Merge.Again.{merge_table-again}
use ldp.Merge.Current.{HasDistinctIds, IsCurrent, IsPast, merge_table-IsCurrent}
use ldp.Merge.{HistoryRow, LoadingRow, merge_table}

abbrev log_example : Log
log_example = record { lv = debug; console = false; quiet = false; dbt = postgresql }

abbrev message_example : Message
message_example = record {
  level = warning;
  kind = codes "server";
  table = codes "user_users";
  message = codes "it's late";
  elapsed = none;
}

write-stored_iff_example :
    ((write log_example 17 message_example).stored ≡ none) ↔ (is_stored debug warning ≡ false)
write-stored_iff_example = write-stored_iff log_example 17 message_example

message_stored :
    (write log_example 17 message_example).stored ≡ some (insert_sql postgresql 17 message_example)
unfolding write
message_stored = refl

write-Carries_example :
    Carries
      (c_str (log_message warning (codes "it's late")))
      (codes ", " ++ elapsed_text none ++ codes ");")
      (insert_sql postgresql 17 message_example)
write-Carries_example =
    write-Carries log_example 17 message_example (insert_sql postgresql 17 message_example) refl
      message_stored

add_columns-valid_example :
    All IsAddColumn (add_columns (some (codes "user_users.Full_Name varchar\n"))).0
add_columns-valid_example = add_columns-valid (some (codes "user_users.Full_Name varchar\n"))

abbrev history_example : List HistoryRow
history_example = record { id = codes "u1"; data_text = codes "{}"; updated = 3 } ∷ []

abbrev loaded_row : LoadingRow
loaded_row = record { id = codes "u1"; data_text = some (codes "{1}") }

history-IsPast : IsPast 7 history_example
history-IsPast h (here e) = rw (ap (λ r. r.updated) e) (ground arith)
history-IsPast h (there m) = elim m [ ]

loaded-HasDistinctIds : HasDistinctIds (loaded_row ∷ [])
loaded-HasDistinctIds s t (here e) (here f) i = e ∙ sym f
loaded-HasDistinctIds s t (here e) (there m) i = elim m [ ]
loaded-HasDistinctIds s t (there m) n i = elim m [ ]

merge_table-IsCurrent_example :
    IsCurrent (merge_table 7 history_example (loaded_row ∷ [])) (codes "u1") (codes "{1}")
merge_table-IsCurrent_example =
    merge_table-IsCurrent 7 history_example (loaded_row ∷ []) history-IsPast loaded-HasDistinctIds
      loaded_row (codes "{1}") (here refl) refl

merge_table-again_example :
    merge_table 9 (merge_table 7 history_example (loaded_row ∷ [])) (loaded_row ∷ [])
    ≡ merge_table 7 history_example (loaded_row ∷ [])
merge_table-again_example =
    merge_table-again 7 9 history_example (loaded_row ∷ []) history-IsPast loaded-HasDistinctIds
