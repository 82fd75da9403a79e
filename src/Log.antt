-- ===== src/Log.antt =====
-- `ldp_log::write` of src/log.cpp: what one message prints, and the statement that stores it. The
-- id of the process and the text that `sprintf` makes of the time are arguments.
pub mod Stored
use ldp.Base.{
  ℕ, Bool, true, false, not, ◌&&◌, ◌||◌, List, [], ◌∷◌, ◌++◌, Option, none, some, if◌then◌else◌,
  ◌==◌, Bytes, codes, equal, c_str, to_string,
}
use ldp.DbType.{DbSys, current_timestamp, encode_string_const}

pub data Level : Type 0 where
  fatal error warning info debug trace detail : Level

pub record Log : Type 0 where
  pub lv : Level
  pub console : Bool
  pub quiet : Bool
  pub dbt : DbSys

pub record Message : Type 0 where
  pub level : Level
  pub kind : Bytes
  pub table : Bytes
  pub message : Bytes
  pub elapsed : Option Bytes

pub record Written : Type 0 where
  pub printed : Option Bytes
  pub stored : Option Bytes

-- The prefix of an error state.
unfoldable pub log_message : Level → Bytes → Bytes
log_message fatal message = codes "fatal: " ++ message
log_message error message = codes "error: " ++ message
log_message warning message = codes "warning: " ++ message
log_message _ message = message

-- No time is given by a negative one.
pub elapsed_text : Option Bytes → Bytes
elapsed_text none = codes "NULL"
elapsed_text (some t) = t

has_newline : Bytes → Bool
has_newline [] = false
has_newline (c ∷ s) = c == b'\n' || has_newline s

is_detail : Level → Bool
is_detail detail = true
is_detail _ = false

timed : Bytes → Option Bytes → Bytes
timed message none = message
timed message (some t) = message ++ codes " (time: " ++ t ++ codes " s)"

print_message : Message → Bytes
unfolding log_message timed
print_message m =
    let logmsg = log_message m.level m.message in
    timed (if not (is_detail m.level) && has_newline m.message then b'\n' ∷ logmsg else logmsg)
      m.elapsed

level_string : Level → Bytes
level_string fatal = codes "fatal"
level_string error = codes "error"
level_string warning = codes "warning"
level_string info = codes "info"
level_string debug = codes "debug"
level_string _ = []

unfoldable pub insert_sql : DbSys → ℕ → Message → Bytes
unfolding level_string elapsed_text
insert_sql dbt pid m =
    codes
      "INSERT INTO dbsystem.log\n    (log_time, pid, level, type, table_name, message, elapsed_time)\n  VALUES\n    ("
    ++ current_timestamp dbt
    ++ codes ", "
    ++ to_string pid
    ++ codes ", '"
    ++ level_string m.level
    ++ codes "', '"
    ++ m.kind
    ++ codes "', '"
    ++ m.table
    ++ codes "', "
    ++ encode_string_const dbt (c_str (log_message m.level m.message))
    ++ codes ", "
    ++ elapsed_text m.elapsed
    ++ codes ");"

print_if : Bool → Bytes → Option Bytes
print_if true text = some (c_str text ++ b'\n' ∷ [])
print_if false text = none

-- The level of the log is `debug` or a finer one; `trace` or a finer one; `detail`.
shows_debug : Level → Bool
shows_debug debug = true
shows_debug trace = true
shows_debug detail = true
shows_debug _ = false

shows_trace : Level → Bool
shows_trace trace = true
shows_trace detail = true
shows_trace _ = false

prefixed : Bytes → Bytes
prefixed text = codes "ldp: " ++ text

-- The second switch, and the statement behind it.
write_level : Level → Log → ℕ → Message → Written
unfolding print_message has_newline insert_sql print_if shows_debug shows_trace is_detail prefixed
write_level debug lg pid m =
    if not (shows_debug lg.lv) then record { printed = none; stored = none } else record {
      printed = print_if (lg.console && not lg.quiet) (prefixed (print_message m));
      stored = some (insert_sql lg.dbt pid m);
    }
write_level trace lg pid m =
    if not (shows_trace lg.lv) then record { printed = none; stored = none } else record {
      printed = print_if (lg.console && not lg.quiet) (prefixed (print_message m));
      stored = none;
    }
write_level detail lg pid m =
    if not (is_detail lg.lv)
    then record { printed = none; stored = none }
    else record { printed = print_if (lg.console && not lg.quiet) (print_message m); stored = none }
write_level _ lg pid m = record {
  printed = print_if (not lg.quiet) (prefixed (print_message m));
  stored = some (insert_sql lg.dbt pid m);
}

unfoldable pub write : Log → ℕ → Message → Written
unfolding write_level
write lg pid m = write_level m.level lg pid m
