-- ===== src/Columns/Width.antt =====
-- The length that the statistics record of the texts of a field.
use ldp.Base.{ℕ, ◌<◌, ◌≤◌, List, [], ◌∷◌, length, In, here, there, c_str, refl, ap, arith}
use ldp.Columns.Select.{observe}
use ldp.Columns.{TypeCounts, uint_mod, count_value}
use ldp.Json.{Number, Value}

-- The bytes of a text up to the first zero byte.
abbrev pub text_length : Value → ℕ
text_length (Value.string s) = length (c_str s)
text_length _ = 0

count_value-keeps :
    (v : Value) (counts : TypeCounts)
    → text_length v < uint_mod
    → counts.max_length ≤ (count_value v counts).max_length
unfolding count_value
count_value-keeps (Value.number (Number.integer z)) counts short = omega arith
count_value-keeps (Value.number (Number.double d)) counts short = omega arith
count_value-keeps (Value.string s) counts short = ground arith
count_value-keeps _ counts short = omega arith

count_value-covers :
    (v : Value) (counts : TypeCounts)
    → text_length v < uint_mod
    → text_length v ≤ (count_value v counts).max_length
unfolding count_value
count_value-covers (Value.string s) counts short = ground arith
count_value-covers _ counts short = omega arith

-- Each value's text can be counted by an `unsigned int`.
abbrev pub AreShort : List Value → Type 0
AreShort vs = (v : Value) → In v vs → text_length v < uint_mod

observe-keeps :
    (vs : List Value) (counts : TypeCounts)
    → AreShort vs
    → counts.max_length ≤ (observe vs counts).max_length
unfolding observe
observe-keeps [] counts short = omega arith
observe-keeps (v ∷ vs) counts short = omega (
  arith,
  count_value-keeps v counts (short v (here refl)),
  observe-keeps vs (count_value v counts) (λ w m. short w (there m)),
)

pub observe-covers :
    (vs : List Value) (counts : TypeCounts) (v : Value)
    → AreShort vs
    → In v vs
    → text_length v ≤ (observe vs counts).max_length
unfolding observe
observe-covers [] counts v short m = elim m [ ]
observe-covers (w ∷ vs) counts v short (here e) = omega (
  arith,
  ap text_length e,
  count_value-covers w counts (short w (here refl)),
  observe-keeps vs (count_value w counts) (λ x m. short x (there m)),
)
observe-covers (w ∷ vs) counts v short (there m) =
    observe-covers vs (count_value w counts) v (λ x n. short x (there n)) m
