-- ===== src/TextUtil/Trim.antt =====
-- What `trim` takes away.
use ldp.Base.{
  ℕ, true, false, [], ◌∷◌, ◌++◌, Bytes, c_str_self, is_space, Lacks, All, ◌≡◌, ◌≢◌, refl, ap, ◌∙◌,
  arith, Bool-cases, inl, inr,
}
use ldp.TextUtil.{skip_left, keep_right, skip_right, trim}

abbrev pub IsBlank : Bytes → Type 0
IsBlank = All (λ c. is_space c ≡ true)

-- The text is empty, or its first character is no space.
abbrev pub StartsSolid : Bytes → Type 0
StartsSolid [] = Unit
StartsSolid (c ∷ s) = is_space c ≡ false

abbrev pub EndsSolid : Bytes → Type 0
EndsSolid [] = Unit
EndsSolid (c ∷ []) = is_space c ≡ false
EndsSolid (c ∷ d ∷ s) = EndsSolid (d ∷ s)

skip_left-splits :
    (s : Bytes)
    → Lacks 0 s
    → (a : Bytes) × IsBlank a
      × (s ≡ a ++ skip_left s)
      × StartsSolid (skip_left s)
      × Lacks 0 (skip_left s)
unfolding skip_left
skip_left-splits [] h = ([], tt, refl, tt, tt)
skip_left-splits (c ∷ s) h = elim (Bool-cases (is_space c)) [
  | inl e ↦
      let (a, blank, eq, solid, lacks) = skip_left-splits s h.1 in
      (c ∷ a, (e, blank), ground arith, ground arith, ground arith)
  | inr e ↦ ([], tt, ground arith, ground arith, ground arith)
]

keep_right-Lacks : (c : ℕ) (s : Bytes) → c ≢ 0 → Lacks 0 s → Lacks 0 (keep_right c s)
unfolding keep_right
keep_right-Lacks c [] h k = ground arith
keep_right-Lacks c (d ∷ s) h k = (h, k)

keep_right-EndsSolid : (c : ℕ) (s : Bytes) → EndsSolid s → EndsSolid (keep_right c s)
unfolding keep_right
keep_right-EndsSolid c [] k = ground arith
keep_right-EndsSolid c (d ∷ s) k = k

keep_right-StartsSolid : (c : ℕ) (s : Bytes) → is_space c ≡ false → StartsSolid (keep_right c s)
unfolding keep_right
keep_right-StartsSolid c [] h = ground arith
keep_right-StartsSolid c (d ∷ s) h = h

keep_right-splits :
    (c : ℕ) (s b : Bytes)
    → IsBlank b
    → (b' : Bytes) × IsBlank b' × (c ∷ (s ++ b) ≡ keep_right c s ++ b')
unfolding keep_right
keep_right-splits c [] b h = elim (Bool-cases (is_space c)) [
  | inl e ↦ (c ∷ b, (e, h), rw e)
  | inr e ↦ (b, h, rw e)
]
keep_right-splits c (d ∷ s) b h = (b, h, refl)

skip_right-splits : (s : Bytes) → (b : Bytes) × IsBlank b × (s ≡ skip_right s ++ b)
unfolding skip_right
skip_right-splits [] = ([], tt, refl)
skip_right-splits (c ∷ s) =
    let (b, blank, eq) = skip_right-splits s in
    let (b', blank', eq') = keep_right-splits c (skip_right s) b blank in
    (b', blank', ap (λ t. c ∷ t) eq ∙ eq')

skip_right-EndsSolid : (s : Bytes) → EndsSolid (skip_right s)
unfolding skip_right
skip_right-EndsSolid [] = tt
skip_right-EndsSolid (c ∷ s) = keep_right-EndsSolid c (skip_right s) (skip_right-EndsSolid s)

skip_right-Lacks : (s : Bytes) → Lacks 0 s → Lacks 0 (skip_right s)
unfolding skip_right
skip_right-Lacks [] h = tt
skip_right-Lacks (c ∷ s) h = keep_right-Lacks c (skip_right s) h.0 (skip_right-Lacks s h.1)

skip_right-StartsSolid : (s : Bytes) → StartsSolid s → StartsSolid (skip_right s)
unfolding skip_right
skip_right-StartsSolid [] h = tt
skip_right-StartsSolid (c ∷ s) h = keep_right-StartsSolid c (skip_right s) h

-- A text without zero bytes is its trimmed text between two runs of white space, and the trimmed
-- text neither begins nor ends with white space.
trim-splits :
    (s : Bytes)
    → Lacks 0 s
    → (a : Bytes) × (b : Bytes) × IsBlank a
      × IsBlank b
      × (s ≡ a ++ (trim s ++ b))
      × StartsSolid (trim s)
      × EndsSolid (trim s)
unfolding trim
trim-splits s h =
    let (a, blank, eq, solid, lacks) = skip_left-splits s h in
    let (b, blank', eq') = skip_right-splits (skip_left s) in
    rw (c_str_self (skip_right (skip_left s)) (skip_right-Lacks (skip_left s) lacks)) (
      (
        a,
        b,
        blank,
        blank',
        eq ∙ ap (λ t. a ++ t) eq',
        skip_right-StartsSolid (skip_left s) solid,
        skip_right-EndsSolid (skip_left s),
      ))
