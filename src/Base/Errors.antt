-- ===== src/Base/Errors.antt =====
-- Code that may throw: a value, or a `runtime_error` with its message.
use mathlib.Core.Bool.{Bool}
use mathlib.Core.Logic.{◌⊎◌, inl, inr}
use mathlib.Core.Path.{◌≡◌, refl}
use ldp.Base.Tests.{if◌then◌else◌}
use ldp.Base.Text.{Bytes}

pub data Result {ℓ} (A : Type ℓ) : Type ℓ where
  runtime_error : Bytes → Result A
  ok : A → Result A

-- `if (test) throw runtime_error(message);`
abbrev pub throw_if : Bool → Bytes → Result (Unit {0})
throw_if test message = if test then runtime_error message else ok tt

infixl 5 ◌>>=◌ ◌>>◌
abbrev pub ◌>>=◌ {κ ℓ} : {C : Type κ} {D : Type ℓ} → Result C → (C → Result D) → Result D
runtime_error message >>= next = runtime_error message
ok value >>= next = next value

-- What gave a value.
pub >>=-eq-ok {κ ℓ} :
    {C : Type κ} {D : Type ℓ} (m : Result C) (f : C → Result D) {d : D}
    → (m >>= f) ≡ ok d
    → (c : C) × (m ≡ ok c) × (f c ≡ ok d)
>>=-eq-ok (ok c) f h = (c, refl, h)
>>=-eq-ok (runtime_error message) f h = cc

-- One that gives nothing, and the next.
abbrev pub ◌>>◌ {κ} : {C : Type κ} → Result (Unit {0}) → Result C → Result C
first >> next = first >>= λ u. next

pub >>=_assoc {ℓ κ μ} :
    {A : Type ℓ} {B : Type κ} {C : Type μ} (m : Result A) (f : A → Result B) (g : B → Result C)
    → ((m >>= f) >>= g) ≡ (m >>= λ a. f a >>= g)
>>=_assoc (ok a) f g = refl
>>=_assoc (runtime_error e) f g = refl

pub Result-cases {ℓ} :
    {A : Type ℓ} (m : Result A) → ((a : A) × (m ≡ ok a)) ⊎ ((e : Bytes) × (m ≡ runtime_error e))
Result-cases (ok a) = inl (a, refl)
Result-cases (runtime_error e) = inr (e, refl)

pub ok-injective {ℓ} : {A : Type ℓ} (a b : A) → ok a ≡ ok b → a ≡ b
ok-injective a b h = cc
