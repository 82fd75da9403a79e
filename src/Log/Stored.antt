-- ===== src/Log/Stored.antt =====
-- What the log stores.
use ldp.Base.{
  ℕ, Bool, false, ◌&&◌, ◌||◌, ◌++◌, append_assoc, none, some, some-injective, leb, Bytes, codes,
  c_str, c_str_self, c_str-Lacks, to_string, ◌≡◌, ◌↔◌, refl, sym, ap, ◌∙◌, subst, arith, Bool-cases,
  inl, inr, ◌⊎◌,
}
use ldp.DbType.{postgresql, encode_string_const, current_timestamp}
use ldp.DbType.Const.{read_const, read_const-encode_string_const}
use ldp.Log.{
  Level, fatal, error, warning, info, debug, trace, detail, Log, Message, write, write_level,
  insert_sql, log_message, level_string, elapsed_text, shows_debug, shows_trace, is_detail,
}

-- The levels in the order of the source, the coarsest first.
rank : Level → ℕ
rank fatal = 0
rank error = 1
rank warning = 2
rank info = 3
rank debug = 4
rank trace = 5
rank detail = 6

-- The message is `debug` or coarser, and is `info` or coarser or not finer than the log's level.
pub is_stored : Level → Level → Bool
unfolding rank
is_stored lv level = leb (rank level) 4 && (leb (rank level) 3 || leb (rank level) (rank lv))

shows_debug-rank : (lv : Level) → shows_debug lv ≡ leb 4 (rank lv)
unfolding shows_debug rank
shows_debug-rank fatal = refl
shows_debug-rank error = refl
shows_debug-rank warning = refl
shows_debug-rank info = refl
shows_debug-rank debug = refl
shows_debug-rank trace = refl
shows_debug-rank detail = refl

level_stored :
    (lg : Log) (pid : ℕ) (m : Message) (level : Level)
    → ((write_level level lg pid m).stored ≡ none) ↔ (is_stored lg.lv level ≡ false)
unfolding write_level is_stored shows_trace is_detail
level_stored lg pid m debug = ground (arith, shows_debug-rank lg.lv, rank)
level_stored lg pid m trace = ground (arith, Bool-cases (shows_trace lg.lv), rank)
level_stored lg pid m detail = ground (arith, Bool-cases (is_detail lg.lv), rank)
level_stored lg pid m _ = ground (arith, rank)

-- A message has no statement exactly if its level is not stored at the log's level.
pub write-stored_iff :
    (lg : Log) (pid : ℕ) (m : Message)
    → ((write lg pid m).stored ≡ none) ↔ (is_stored lg.lv m.level ≡ false)
unfolding write
write-stored_iff lg pid m = level_stored lg pid m m.level

-- The statement has a place where the constant of a text is read, and the rest behind it.
pub record Carries (text : Bytes) (rest : Bytes) (sql : Bytes) : Type 0 where
  pub front : Bytes
  pub behind : Bytes
  pub parts : sql ≡ front ++ behind
  pub reads : read_const behind ≡ some (text, rest)

insert_sql-Carries :
    (pid : ℕ) (m : Message)
    → Carries
        (c_str (log_message m.level m.message))
        (codes ", " ++ elapsed_text m.elapsed ++ codes ");")
        (insert_sql postgresql pid m)
insert_sql-Carries pid m = record {
  front =
      codes
        "INSERT INTO dbsystem.log\n    (log_time, pid, level, type, table_name, message, elapsed_time)\n  VALUES\n    ("
      ++ current_timestamp postgresql
      ++ codes ", "
      ++ to_string pid
      ++ codes ", '"
      ++ level_string m.level
      ++ codes "', '"
      ++ m.kind
      ++ codes "', '"
      ++ m.table
      ++ codes "', ";
  behind =
      encode_string_const postgresql (c_str (log_message m.level m.message))
      ++ (codes ", " ++ elapsed_text m.elapsed ++ codes ");");
  parts = unfold insert_sql in simp (append_assoc);
  reads =
      read_const-encode_string_const (c_str (log_message m.level m.message)) _ (ground arith)
      ∙ ap (λ x. some (x, codes ", " ++ elapsed_text m.elapsed ++ codes ");"))
          (c_str_self (c_str (log_message m.level m.message))
            (c_str-Lacks (log_message m.level m.message)));
}

stored_cases :
    (lg : Log) (pid : ℕ) (m : Message) (level : Level)
    → ((write_level level lg pid m).stored ≡ none)
      ⊎ ((write_level level lg pid m).stored ≡ some (insert_sql lg.dbt pid m))
unfolding write_level shows_trace is_detail
stored_cases lg pid m debug = elim (Bool-cases (shows_debug lg.lv)) [
  | inl e ↦ inr (rw e refl)
  | inr e ↦ inl (rw e refl)
]
stored_cases lg pid m trace = elim (Bool-cases (shows_trace lg.lv)) [
  | inl e ↦ inl (rw e refl)
  | inr e ↦ inl (rw e refl)
]
stored_cases lg pid m detail = elim (Bool-cases (is_detail lg.lv)) [
  | inl e ↦ inl (rw e refl)
  | inr e ↦ inl (rw e refl)
]
stored_cases lg pid m _ = inr refl

carried :
    (lg : Log) (pid : ℕ) (m : Message) (level : Level) (sql : Bytes)
    → lg.dbt ≡ postgresql
    → (write_level level lg pid m).stored ≡ some sql
    → sql ≡ insert_sql postgresql pid m
carried lg pid m level sql p h = elim (stored_cases lg pid m level) [
  | inl e ↦ absurd (none_some (sym e ∙ h))
  | inr e ↦ some-injective _ _ (sym h ∙ e) ∙ ap (λ d. insert_sql d pid m) p
]
  where
    none_some : none ≡ some sql → ⊥
    none_some q = cc

-- On PostgreSQL, where a message is stored: in the statement stands a constant that is read as the
-- message with its prefix, up to the first zero byte, whatever the message holds; and only the
-- elapsed time stands behind it.
pub write-Carries :
    (lg : Log) (pid : ℕ) (m : Message) (sql : Bytes)
    → lg.dbt ≡ postgresql
    → (write lg pid m).stored ≡ some sql
    → Carries
        (c_str (log_message m.level m.message))
        (codes ", " ++ elapsed_text m.elapsed ++ codes ");")
        sql
unfolding write
write-Carries lg pid m sql p h =
    subst (Carries _ _) (sym (carried lg pid m m.level sql p h)) (insert_sql-Carries pid m)
