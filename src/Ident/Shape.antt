-- ===== src/Ident/Shape.antt =====
-- The texts that `valid_ident` accepts.
use ldp.Base.{
  ℕ, Bool, true, false, ◌||◌, [], ◌∷◌, ◌++◌, ◌==◌, Bytes, is_alpha, is_alnum, All, ◌≡◌, ◌↔◌, ◌⊎◌,
  inl, inr, refl, ap, ap₂, ==_iff, arith, Bool-cases,
}
use ldp.Ident.{ident_loop, valid_ident}

abbrev pub is_word : ℕ → Bool
is_word c = is_alnum c || c == b'_'

abbrev pub IsWord : Bytes → Type 0
IsWord = All (λ c. is_word c ≡ true)

-- A letter or an underscore, and then letters, digits and underscores.
abbrev pub IsIdent : Bytes → Type 0
IsIdent [] = ⊥
IsIdent (c ∷ s) = ((is_alpha c || c == b'_') ≡ true) × IsWord s

-- What may stand in the parentheses of a data type.
abbrev pub IsArgs : Bytes → Type 0
IsArgs = All (λ c. (is_word c || c == b',') ≡ true)

ident_loop-IsWord : (s : Bytes) → ident_loop false false false s ≡ true → IsWord s
unfolding ident_loop
ident_loop-IsWord [] h = tt
ident_loop-IsWord (c ∷ s) h = (ground arith, ident_loop-IsWord s (ground arith))

IsWord-ident_loop : (s : Bytes) → IsWord s → ident_loop false false false s ≡ true
unfolding ident_loop
IsWord-ident_loop [] h = refl
IsWord-ident_loop (c ∷ s) h = ground (arith, IsWord-ident_loop s h.1)

-- With no parentheses allowed, exactly the identifiers are valid.
pub valid_ident_iff : (s : Bytes) → (valid_ident s false ≡ true) ↔ IsIdent s
unfolding valid_ident
valid_ident_iff [] = (λ h. cc, λ h. absurd h)
valid_ident_iff (c ∷ s) = (
  λ h. (ground arith, (ident_loop-IsWord (c ∷ s) (ground arith)).1),
  λ h. ground (arith, IsWord-ident_loop (c ∷ s) (ground arith, h.1)),
)

-- A closed loop accepts nothing more.
loop_closed : (s : Bytes) → ident_loop true true true s ≡ true → s ≡ []
unfolding ident_loop
loop_closed [] h = refl
loop_closed (c ∷ s) h = absurd (ground arith)

loop_open_step :
    (c : ℕ) (s : Bytes)
    → (c == b')') ≡ false
    → ident_loop true true false (c ∷ s) ≡ true
    → ((is_word c || c == b',') ≡ true) × (ident_loop true true false s ≡ true)
unfolding ident_loop
loop_open_step c s e h = (ground arith, ground arith)

loop_open_end :
    (c : ℕ) (s : Bytes)
    → (c == b')') ≡ true
    → ident_loop true true false (c ∷ s) ≡ true
    → ident_loop true true true s ≡ true
unfolding ident_loop
loop_open_end c s e h = ground arith

loop_open :
    (s : Bytes)
    → ident_loop true true false s ≡ true
    → (args : Bytes) × IsArgs args × (s ≡ args ++ b')' ∷ [])
loop_open [] h = absurd (unfold ident_loop in ground arith)
loop_open (c ∷ s) h = elim (Bool-cases (c == b')')) [
  | inl e ↦ ([], tt, ap₂ ◌∷◌ ((==_iff c b')').0 e) (loop_closed s (loop_open_end c s e h)))
  | inr e ↦
      let (ok_c, h') = loop_open_step c s e h in
      let (args, ok_args, eq) = loop_open s h' in (c ∷ args, (ok_c, ok_args), ap (λ t. c ∷ t) eq)
]

-- A name, or a name with parentheses behind it.
abbrev pub IsTyped : Bytes → Type 0
IsTyped s =
    IsWord s
    ⊎ ((name : Bytes) × (args : Bytes) × IsWord name
        × IsArgs args
        × (s ≡ name ++ b'(' ∷ (args ++ b')' ∷ [])))

-- A closing parenthesis with no opening one is refused.
loop_unopened : (s : Bytes) → ident_loop true false true s ≡ false
unfolding ident_loop
loop_unopened [] = refl
loop_unopened (c ∷ s) = ground arith

loop_step :
    (c : ℕ) (s : Bytes)
    → (c == b'(') ≡ false
    → ident_loop true false false (c ∷ s) ≡ true
    → (is_word c ≡ true) × (ident_loop true false false s ≡ true)
unfolding ident_loop
loop_step c s e h = (ground (arith, loop_unopened s), ground (arith, loop_unopened s))

loop_paren :
    (c : ℕ) (s : Bytes)
    → (c == b'(') ≡ true
    → ident_loop true false false (c ∷ s) ≡ true
    → ident_loop true true false s ≡ true
unfolding ident_loop
loop_paren c s e h = ground arith

IsTyped-cons : (c : ℕ) (s : Bytes) → is_word c ≡ true → IsTyped s → IsTyped (c ∷ s)
IsTyped-cons c s w (inl h) = inl (w, h)
IsTyped-cons c s w (inr (name, args, ok_name, ok_args, eq)) =
    inr (c ∷ name, args, (w, ok_name), ok_args, ap (λ t. c ∷ t) eq)

loop-IsTyped : (s : Bytes) → ident_loop true false false s ≡ true → IsTyped s
loop-IsTyped [] h = inl tt
loop-IsTyped (c ∷ s) h = elim (Bool-cases (c == b'(')) [
  | inl e ↦
      let (args, ok_args, eq) = loop_open s (loop_paren c s e h) in
      inr ([], args, tt, ok_args, ap₂ ◌∷◌ ((==_iff c b'(').0 e) eq)
  | inr e ↦ let (w, h') = loop_step c s e h in IsTyped-cons c s w (loop-IsTyped s h')
]

-- With parentheses allowed, a valid text is a word of letters, digits and underscores, or such a
-- word with one pair of parentheses at its end that holds letters, digits, underscores and commas;
-- and it begins with a letter or an underscore. No quote, space or semicolon gets through.
valid_ident-IsTyped :
    (c : ℕ) (s : Bytes)
    → valid_ident (c ∷ s) true ≡ true
    → ((is_alpha c || c == b'_') ≡ true) × IsTyped (c ∷ s)
unfolding valid_ident
valid_ident-IsTyped c s h = (ground arith, loop-IsTyped (c ∷ s) (ground arith))
