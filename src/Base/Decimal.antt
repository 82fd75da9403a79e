-- ===== src/Base/Decimal.antt =====
-- `std::to_string` of an unsigned integer. Each round divides by ten, so `n` rounds are enough.
use Prim.Native.Nat.{ℕ, zero, suc, ◌+◌, ◌-◌, ◌*◌, ◌/◌, ◌%◌, ◌<◌}
use mathlib.Core.Bool.{Bool}
use mathlib.Core.List.{[], ◌∷◌}
use mathlib.Core.Path.{◌≡◌, refl, sym, ap, ◌∙◌}
use native.Mathlib.Omega.{arith}
use ldp.Base.Lists.{All}
use ldp.Base.Tests.{◌==◌, if◌then◌else◌}
use ldp.Base.Text.{Bytes, codes, is_digit}

emit : ℕ → ℕ → Bytes → Bytes
emit zero n out = out
emit (suc fuel) n out =
    let digits = (b'0' + n % 10) ∷ out in
    let rest = emit fuel (n / 10) digits in if n / 10 == 0 then digits else rest

unfoldable pub to_string : ℕ → Bytes
unfolding emit
to_string n = emit (suc n) n []

-- The number that digits spell behind `n`.
abbrev value : ℕ → Bytes → ℕ
value n [] = n
value n (c ∷ s) = value (n * 10 + (c - b'0')) s

value-emit : (fuel n : ℕ) (out : Bytes) → n < fuel → value 0 (emit fuel n out) ≡ value n out
unfolding emit
value-emit zero n out h = absurd (omega arith)
value-emit (suc fuel) n out h = ground (arith, value-emit fuel (n / 10) ((b'0' + n % 10) ∷ out))

pub to_string-injective : (m n : ℕ) → to_string m ≡ to_string n → m ≡ n
unfolding to_string
to_string-injective m n e =
    sym (value-emit (suc m) m [] (omega arith))
    ∙ ap (value 0) e
    ∙ value-emit (suc n) n [] (omega arith)

emit-digits :
    (fuel n : ℕ) (out : Bytes)
    → All (λ c. is_digit c ≡ Bool.true) out
    → All (λ c. is_digit c ≡ Bool.true) (emit fuel n out)
unfolding emit
emit-digits zero n out h = h
emit-digits (suc fuel) n out h = ground (arith, emit-digits fuel (n / 10) ((b'0' + n % 10) ∷ out))

pub to_string-digits : (n : ℕ) → All (λ c. is_digit c ≡ Bool.true) (to_string n)
unfolding to_string
to_string-digits n = emit-digits (suc n) n [] tt

to_string_example : to_string 32767 ≡ codes "32767"
unfolding to_string
to_string_example = refl
