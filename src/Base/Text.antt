-- ===== src/Base/Text.antt =====
-- Text as the program walks it: a list of bytes. A `std::string` is the list of its bytes; the
-- terminator that `c_str()` adds stands behind the last of them, so a loop up to `'\0'` runs over
-- the bytes before the first zero byte of the list, or over all of them.
use Prim.Native.Char.{code}
use Prim.Native.Nat.{ℕ, ◌+◌, ◌-◌}
use Prim.Native.String.{String}
use mathlib.Core.Bool.{Bool, true, false, ◌&&◌, ◌||◌}
use mathlib.Core.List.{List, [], ◌∷◌}
use mathlib.Core.Logic.{◌≢◌, ◌↔◌}
use mathlib.Core.Path.{◌≡◌, refl}
use native.Mathlib.Omega.{arith}
use ldp.Base.Lists.{All}
use ldp.Base.Tests.{leb, ◌==◌, if◌then◌else◌}

abbrev pub Bytes : Type 0
Bytes = List ℕ

-- The bytes of an ASCII literal.
abbrev pub codes : String → Bytes
codes String.[] = []
codes (String.◌∷◌ c s) = code c ∷ codes s

-- The bytes before the first zero byte.
unfoldable pub c_str : Bytes → Bytes
c_str [] = []
c_str (c ∷ s) = if c == 0 then [] else c ∷ c_str s

-- `==` of two byte strings.
unfoldable pub equal : Bytes → Bytes → Bool
equal [] [] = true
equal [] (b ∷ t) = false
equal (a ∷ s) [] = false
equal (a ∷ s) (b ∷ t) = a == b && equal s t

pub equal_iff : (s t : Bytes) → (equal s t ≡ true) ↔ (s ≡ t)
unfolding equal
equal_iff (a ∷ s) (b ∷ t) = ground (arith, equal_iff s t)
equal_iff _ _ = ground arith

-- The functions of <cctype> in the C locale.
abbrev pub is_upper : ℕ → Bool
is_upper c = leb b'A' c && leb c b'Z'

abbrev pub is_lower : ℕ → Bool
is_lower c = leb b'a' c && leb c b'z'

abbrev pub is_digit : ℕ → Bool
is_digit c = leb b'0' c && leb c b'9'

abbrev pub is_alpha : ℕ → Bool
is_alpha c = is_upper c || is_lower c

abbrev pub is_alnum : ℕ → Bool
is_alnum c = is_alpha c || is_digit c

-- Space, and the controls from tab to carriage return.
abbrev pub is_space : ℕ → Bool
is_space c = c == 32 || (leb 9 c && leb c 13)

unfoldable pub to_lower : ℕ → ℕ
to_lower c = if is_upper c then c + 32 else c

unfoldable pub to_upper : ℕ → ℕ
to_upper c = if is_lower c then c - 32 else c

-- A text without the byte `b`.
abbrev pub Lacks : ℕ → Bytes → Type 0
Lacks b = All (λ c. c ≢ b)

pub c_str-Lacks : (s : Bytes) → Lacks 0 (c_str s)
unfolding c_str
c_str-Lacks [] = tt
c_str-Lacks (c ∷ s) = ground (arith, c_str-Lacks s)

pub c_str_self : (s : Bytes) → Lacks 0 s → c_str s ≡ s
unfolding c_str
c_str_self [] h = refl
c_str_self (c ∷ s) h = ground (arith, c_str_self s h.1)
