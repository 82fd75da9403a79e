-- ===== src/Columns/Select.antt =====
-- The column type that is selected from the statistics, against the values that were counted.
use ldp.Base.{
  ℕ, suc, ◌+◌, ◌<◌, ◌≤◌, Bool, true, false, ◌&&◌, ◌||◌, not, [], ◌∷◌, ◌==◌, ltb, if◌then◌else◌,
  length, List, ◌≡◌, refl, arith,
}
use ldp.Columns.{
  ColumnType, id, bigint, numeric, timestamptz, varchar, TypeCounts, no_counts, select_type,
  uint_mod, looks_like_date_time, count_value,
}
use ldp.Json.{Number, Value}
use ldp.Util.{is_uuid}

-- The statistics after a list of values of one field.
unfoldable pub observe : List Value → TypeCounts → TypeCounts
observe [] counts = counts
observe (v ∷ vs) counts = observe vs (count_value v counts)

abbrev pub is_string : Value → Bool
is_string (Value.string s) = true
is_string _ = false

abbrev pub is_uuid_string : Value → Bool
is_uuid_string (Value.string s) = is_uuid s
is_uuid_string _ = false

abbrev pub is_date_time_string : Value → Bool
is_date_time_string (Value.string s) = looks_like_date_time s
is_date_time_string _ = false

abbrev pub is_number : Value → Bool
is_number (Value.number n) = true
is_number _ = false

abbrev pub is_double : Value → Bool
is_double (Value.number (Number.double d)) = true
is_double _ = false

abbrev pub is_boolean : Value → Bool
is_boolean (Value.boolean b) = true
is_boolean _ = false

abbrev pub any : (Value → Bool) → List Value → Bool
any p [] = false
any p (v ∷ vs) = p v || any p vs

-- Every value that passes `p` passes `q`.
abbrev pub every : (Value → Bool) → (Value → Bool) → List Value → Bool
every p q [] = true
every p q (v ∷ vs) = (not (p v) || q v) && every p q vs

tally : (Value → Bool) → List Value → ℕ
tally p [] = 0
tally p (v ∷ vs) = (if p v then 1 else 0) + tally p vs

-- The type that the values call for.
abbrev pub called_for : List Value → ColumnType
called_for vs =
    if any is_string vs
    then (if every is_string is_uuid_string vs
        then id
        else if every is_string is_date_time_string vs
        then timestamptz
        else varchar)
    else if any is_number vs
    then (if any is_double vs then numeric else bigint)
    else if any is_boolean vs
    then ColumnType.boolean
    else varchar

-- No counter reaches its modulus while `n` more values are counted.
record Fits (counts : TypeCounts) (n : ℕ) : Type 0 where
  string_fits : counts.string + n < uint_mod
  date_time_fits : counts.date_time + n < uint_mod
  number_fits : counts.number + n < uint_mod
  floating_fits : counts.floating + n < uint_mod
  boolean_fits : counts.boolean + n < uint_mod
  uuid_fits : counts.uuid + n < uint_mod

-- The counters after `vs`, from `counts` on.
record Counted (counts : TypeCounts) (vs : List Value) (after : TypeCounts) : Type 0 where
  string_is : after.string ≡ counts.string + tally is_string vs
  date_time_is : after.date_time ≡ counts.date_time + tally is_date_time_string vs
  number_is : after.number ≡ counts.number + tally is_number vs
  floating_is : after.floating ≡ counts.floating + tally is_double vs
  boolean_is : after.boolean ≡ counts.boolean + tally is_boolean vs
  uuid_is : after.uuid ≡ counts.uuid + tally is_uuid_string vs

count_value-Fits :
    (v : Value) (counts : TypeCounts) (n : ℕ) → Fits counts (suc n) → Fits (count_value v counts) n
unfolding count_value
count_value-Fits (Value.number (Number.integer z)) counts n f = ground arith
count_value-Fits (Value.number (Number.double d)) counts n f = ground arith
count_value-Fits v counts n f = ground arith

count_value-Counted :
    (v : Value) (vs : List Value) (counts after : TypeCounts)
    → Fits counts 1
    → Counted (count_value v counts) vs after
    → Counted counts (v ∷ vs) after
unfolding count_value tally
count_value-Counted (Value.number (Number.integer z)) vs counts after f c = ground arith
count_value-Counted (Value.number (Number.double d)) vs counts after f c = ground arith
count_value-Counted v vs counts after f c = ground arith

Fits-mono : {counts : TypeCounts} {m n : ℕ} → m ≤ n → Fits counts n → Fits counts m
Fits-mono h f = omega arith

observe-Counted :
    (vs : List Value) (counts : TypeCounts)
    → Fits counts (length vs)
    → Counted counts vs (observe vs counts)
unfolding observe
observe-Counted [] counts f = unfold tally in omega arith
observe-Counted (v ∷ vs) counts f =
    count_value-Counted v vs counts _ (omega arith)
      (observe-Counted vs (count_value v counts) (count_value-Fits v counts (length vs) f))

any-tally : (p : Value → Bool) (vs : List Value) → any p vs ≡ ltb 0 (tally p vs)
unfolding tally
any-tally p [] = refl
any-tally p (v ∷ vs) = ground (arith, any-tally p vs)

tally-le :
    (p q : Value → Bool)
    → ((v : Value) → q v ≡ true → p v ≡ true)
    → (vs : List Value) → tally q vs ≤ tally p vs
unfolding tally
tally-le p q sub [] = omega arith
tally-le p q sub (v ∷ vs) = ground (arith, sub v, tally-le p q sub vs)

every-tally :
    (p q : Value → Bool)
    → ((v : Value) → q v ≡ true → p v ≡ true)
    → (vs : List Value) → every p q vs ≡ (tally p vs == tally q vs)
unfolding tally
every-tally p q sub [] = refl
every-tally p q sub (v ∷ vs) = ground (arith, sub v, every-tally p q sub vs, tally-le p q sub vs)

uuid_sub : (v : Value) → is_uuid_string v ≡ true → is_string v ≡ true
uuid_sub (Value.string s) h = refl
uuid_sub v h = ground arith

date_time_sub : (v : Value) → is_date_time_string v ≡ true → is_string v ≡ true
date_time_sub (Value.string s) h = refl
date_time_sub v h = ground arith

-- Of fewer than 2^32 values of a field, counted one after another from no counts, the selected type
-- is the one that the values call for: UUID if there are strings and all of them are UUIDs, else
-- TIMESTAMPTZ if all strings look like a date and time, else VARCHAR; with no strings, NUMERIC if
-- there is a floating-point number, BIGINT if there are integers only, and BOOLEAN for booleans.
pub select_type-observe :
    (vs : List Value) → length vs < uint_mod → select_type (observe vs no_counts) ≡ called_for vs
unfolding select_type
select_type-observe vs h = ground (
  arith,
  observe-Counted vs no_counts (omega arith),
  any-tally is_string vs,
  any-tally is_number vs,
  any-tally is_double vs,
  any-tally is_boolean vs,
  every-tally is_string is_uuid_string uuid_sub vs,
  every-tally is_string is_date_time_string date_time_sub vs,
)
