-- ===== src/Ident/Lower.antt =====
-- A name in lower case is as valid as the name.
use ldp.Base.{
  ℕ, Bool, false, ◌&&◌, ◌||◌, [], ◌∷◌, ◌==◌, Bytes, is_alpha, is_alnum, to_lower, ◌≡◌, refl, sym,
  ap, ap₂, ◌∙◌, arith,
}
use ldp.TextUtil.{lower_text}
use ldp.Ident.{allowed, ident_loop, valid_ident}

alnum-lower : (c : ℕ) → is_alnum (to_lower c) ≡ is_alnum c
unfolding to_lower
alnum-lower c = ground arith

alpha-lower : (c : ℕ) → is_alpha (to_lower c) ≡ is_alpha c
unfolding to_lower
alpha-lower c = ground arith

-- A byte that is no letter stays what it is.
same-lower : (c d : ℕ) → is_alpha d ≡ false → (to_lower c == d) ≡ (c == d)
unfolding to_lower
same-lower c d e = ground arith

allowed-lower : (paren : Bool) (c : ℕ) → allowed paren (to_lower c) ≡ allowed paren c
unfolding allowed
allowed-lower paren c = rw (
  alnum-lower c,
  same-lower c b'_' refl,
  same-lower c b'(' refl,
  same-lower c b')' refl,
  same-lower c b',' refl,
)

ident_loop-lower :
    (paren open_p close_p : Bool) (s : Bytes)
    → ident_loop paren open_p close_p (lower_text s) ≡ ident_loop paren open_p close_p s
unfolding ident_loop lower_text
ident_loop-lower paren open_p close_p [] = refl
ident_loop-lower paren open_p close_p (c ∷ s) = rw (
  allowed-lower paren c,
  same-lower c b'(' refl,
  same-lower c b')' refl,
  same-lower c b',' refl,
  ident_loop-lower paren (open_p || c == b'(') (close_p || c == b')') s,
)

valid_ident_test :
    (c : ℕ) (s : Bytes) (paren : Bool)
    → valid_ident (c ∷ s) paren
      ≡ ((is_alpha c || c == b'_') && ident_loop paren false false (c ∷ s))
unfolding valid_ident
valid_ident_test c s paren = ground arith

lower_cons : (c : ℕ) (s : Bytes) → lower_text (c ∷ s) ≡ to_lower c ∷ lower_text s
unfolding lower_text
lower_cons c s = refl

pub valid_ident-lower :
    (s : Bytes) (paren : Bool) → valid_ident (lower_text s) paren ≡ valid_ident s paren
valid_ident-lower [] paren = unfold valid_ident lower_text in refl
valid_ident-lower (c ∷ s) paren =
    ap (λ x. valid_ident x paren) (lower_cons c s)
    ∙ valid_ident_test (to_lower c) (lower_text s) paren
    ∙ ap₂ (λ x y. x && y) head
        (ap (ident_loop paren false false) (sym (lower_cons c s))
          ∙ ident_loop-lower paren false false (c ∷ s))
    ∙ sym (valid_ident_test c s paren)
  where
    head : (is_alpha (to_lower c) || to_lower c == b'_') ≡ (is_alpha c || c == b'_')
    head = ap₂ (λ x y. x || y) (alpha-lower c) (same-lower c b'_' refl)
