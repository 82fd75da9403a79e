-- ===== src/Ident.antt =====
-- `valid_ident` of src/addcolumns.cpp.
pub mod Shape
pub mod Lower
use ldp.Base.{
  ℕ, Bool, true, false, not, ◌&&◌, ◌||◌, [], ◌∷◌, ◌++◌, ◌==◌, if◌then◌else◌, Bytes, is_alpha,
  is_alnum, codes,
}

-- The two tests on a character's kind.
allowed : Bool → ℕ → Bool
allowed allow_paren c =
    if allow_paren
    then is_alnum c || c == b'_' || c == b'(' || c == b')' || c == b','
    else is_alnum c || c == b'_'

-- The loop, with its two flags, and the tests behind it.
ident_loop : Bool → Bool → Bool → Bytes → Bool
unfolding allowed
ident_loop allow_paren open_p close_p [] =
    if open_p && not close_p then false else if close_p && not open_p then false else true
ident_loop allow_paren open_p close_p (c ∷ s) =
    let rest = ident_loop allow_paren (open_p || c == b'(') (close_p || c == b')') s in
    if allow_paren && c == b',' && not open_p
    then false
    else if not (allowed allow_paren c)
    then false
    else if open_p && c == b'('
    then false
    else if close_p
    then false
    else rest

unfoldable pub valid_ident : Bytes → Bool → Bool
unfolding ident_loop
valid_ident [] allow_paren = false
valid_ident (c ∷ s) allow_paren =
    if not (is_alpha c) && not (c == b'_')
    then false
    else ident_loop allow_paren false false (c ∷ s)
