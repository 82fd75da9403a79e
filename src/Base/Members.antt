-- ===== src/Base/Members.antt =====
-- Membership in a list, through `++`, a filter and a flat map.
use mathlib.Core.Bool.{Bool, true, false}
use mathlib.Core.List.{List, [], ◌∷◌, ◌++◌}
use mathlib.Core.Logic.{◌⊎◌, inl, inr}
use mathlib.Core.Path.{◌≡◌, refl, sym, ap, subst, ◌∙◌}
use native.Mathlib.Omega.{arith}
use ldp.Base.Tests.{if◌then◌else◌, Bool-cases}

pub data In {ℓ} {A : Type ℓ} (x : A) : List A → Type ℓ where
  here : {y : A} {ys : List A} → x ≡ y → In x (y ∷ ys)
  there : {y : A} {ys : List A} → In x ys → In x (y ∷ ys)

module _ {ℓ} {A : Type ℓ} where
  pub In-append_left : {x : A} (xs ys : List A) → In x xs → In x (xs ++ ys)
  In-append_left (y ∷ xs) ys (here e) = here e
  In-append_left (y ∷ xs) ys (there h) = there (In-append_left xs ys h)
  In-append_left [] ys h = elim h [ ]

  pub In-append_right : {x : A} (xs ys : List A) → In x ys → In x (xs ++ ys)
  In-append_right [] ys h = h
  In-append_right (y ∷ xs) ys h = there (In-append_right xs ys h)

  pub In-append : {x : A} (xs ys : List A) → In x (xs ++ ys) → In x xs ⊎ In x ys
  In-append [] ys h = inr h
  In-append (y ∷ xs) ys (here e) = inl (here e)
  In-append (y ∷ xs) ys (there h) = elim (In-append xs ys h) [
    | inl a ↦ inl (there a)
    | inr b ↦ inr b
  ]

  abbrev pub select : (A → Bool) → List A → List A
  select p [] = []
  select p (x ∷ xs) = if p x then x ∷ select p xs else select p xs

  In-select_cons :
      (p : A → Bool) {x : A} (y : A) (xs : List A)
      → p y ≡ true
      → (In x (select p xs) → In x xs × (p x ≡ true))
      → In x (y ∷ select p xs)
      → In x (y ∷ xs) × (p x ≡ true)
  In-select_cons p y xs e ih (here q) = (here q, ap p q ∙ e)
  In-select_cons p y xs e ih (there m) = let (m', q) = ih m in (there m', q)

  pub In-select : (p : A → Bool) {x : A} (xs : List A) → In x (select p xs) → In x xs × (p x ≡ true)
  In-select p [] h = elim h [ ]
  In-select p {x} (y ∷ xs) h = elim (Bool-cases (p y)) [
    | inl e ↦ In-select_cons p y xs e (In-select p xs) (rw e at h)
    | inr e ↦ let (m, q) = In-select p {x = x} xs (rw e at h) in (there m, q)
  ]

  pub select-In : (p : A → Bool) {x : A} (xs : List A) → In x xs → p x ≡ true → In x (select p xs)
  select-In p [] h e = elim h [ ]
  select-In p (y ∷ xs) (here q) e = rw (sym (ap p q) ∙ e) (here q)
  select-In p (y ∷ xs) (there m) e = elim (Bool-cases (p y)) [
    | inl k ↦ rw k (there (select-In p xs m e))
    | inr k ↦ rw k (select-In p xs m e)
  ]

  -- Some element passes the test.
  abbrev pub exists_in : (A → Bool) → List A → Bool
  exists_in p [] = false
  exists_in p (x ∷ xs) = if p x then true else exists_in p xs

  pub exists_in-true :
      (p : A → Bool) {x : A} (xs : List A) → In x xs → p x ≡ true → exists_in p xs ≡ true
  exists_in-true p [] h e = elim h [ ]
  exists_in-true p (y ∷ xs) (here q) e = rw (sym (ap p q) ∙ e)
  exists_in-true p (y ∷ xs) (there m) e = ground (arith, exists_in-true p xs m e)

  pub exists_in-witness :
      (p : A → Bool) (xs : List A) → exists_in p xs ≡ true → (x : A) × In x xs × (p x ≡ true)
  exists_in-witness p [] h = absurd (ground arith)
  exists_in-witness p (y ∷ xs) h = elim (Bool-cases (p y)) [
    | inl e ↦ (y, here refl, e)
    | inr e ↦ let (x, m, q) = exists_in-witness p xs (rw e at h) in (x, there m, q)
  ]

module _ {ℓ κ} {A : Type ℓ} {B : Type κ} where
  -- The lists that `f` gives, one after another.
  abbrev pub gather : (A → List B) → List A → List B
  gather f [] = []
  gather f (x ∷ xs) = f x ++ gather f xs

  pub In-gather :
      (f : A → List B) {y : B} (xs : List A) → In y (gather f xs) → (x : A) × In x xs × In y (f x)
  In-gather f [] h = elim h [ ]
  In-gather f (x ∷ xs) h = elim (In-append (f x) (gather f xs) h) [
    | inl m ↦ (x, here refl, m)
    | inr m ↦ let (z, mz, my) = In-gather f xs m in (z, there mz, my)
  ]

  pub gather-In :
      (f : A → List B) {x : A} {y : B} (xs : List A) → In x xs → In y (f x) → In y (gather f xs)
  gather-In f [] h m = elim h [ ]
  gather-In f {x} {y} (z ∷ xs) (here e) m =
      In-append_left (f z) (gather f xs) (subst (λ a. In y (f a)) e m)
  gather-In f (z ∷ xs) (there h) m = In-append_right (f z) (gather f xs) (gather-In f xs h m)
