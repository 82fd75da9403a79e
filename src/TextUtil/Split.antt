-- ===== src/TextUtil/Split.antt =====
-- `split` cuts a text at every delimiter, and nothing else.
use ldp.Base.{
  ℕ, List, [], ◌∷◌, ◌++◌, append_assoc, append-nil, ◌==◌, Bytes, c_str, Lacks, All, All-append, ◌≡◌,
  refl, sym, ◌∙◌, arith, Bool-cases, inl, inr,
}
use ldp.TextUtil.{split_loop, split}

-- The delimiter between the parts.
abbrev pub with_delim : ℕ → List Bytes → Bytes
with_delim delim [] = []
with_delim delim (s ∷ []) = s
with_delim delim (s ∷ t ∷ v) = s ++ delim ∷ with_delim delim (t ∷ v)

module _ (delim : ℕ) where
  with_delim-append :
      (v : List Bytes) (mark s : Bytes)
      → with_delim delim (v ++ (mark ++ s) ∷ []) ≡ with_delim delim (v ++ mark ∷ []) ++ s
  with_delim-append [] mark s = refl
  with_delim-append (p ∷ []) mark s = simp append_assoc
  with_delim-append (p ∷ q ∷ v) mark s = simp (with_delim-append (q ∷ v) mark s, append_assoc)

  with_delim-cut :
      (v : List Bytes) (mark : Bytes)
      → with_delim delim ((v ++ mark ∷ []) ++ [] ∷ [])
        ≡ with_delim delim (v ++ mark ∷ []) ++ delim ∷ []
  with_delim-cut [] mark = refl
  with_delim-cut (p ∷ []) mark = simp append_assoc
  with_delim-cut (p ∷ q ∷ v) mark = simp (with_delim-cut (q ∷ v) mark, append_assoc)

  with_delim-split_loop :
      (s mark : Bytes) (v : List Bytes)
      → with_delim delim (split_loop delim s mark v) ≡ with_delim delim (v ++ mark ∷ []) ++ s
  unfolding split_loop
  with_delim-split_loop [] mark v = sym (append-nil _)
  with_delim-split_loop (c ∷ s) mark v = elim (Bool-cases (c == delim)) [
    | inl e ↦ rw e (
        with_delim-split_loop s [] (v ++ mark ∷ [])
        ∙ rw with_delim-cut (simp append_assoc (ground arith)))
    | inr e ↦
        rw e (with_delim-split_loop s (mark ++ c ∷ []) v ∙ rw with_delim-append (simp append_assoc))
  ]

  split_loop-Lacks :
      (s mark : Bytes) (v : List Bytes)
      → Lacks delim mark
      → All (Lacks delim) v
      → All (Lacks delim) (split_loop delim s mark v)
  unfolding split_loop
  split_loop-Lacks [] mark v m h = All-append _ v (mark ∷ []) h (m, tt)
  split_loop-Lacks (c ∷ s) mark v m h = elim (Bool-cases (c == delim)) [
    | inl e ↦
        rw e (split_loop-Lacks s [] (v ++ mark ∷ []) tt (All-append _ v (mark ∷ []) h (m, tt)))
    | inr e ↦
        rw e (
          split_loop-Lacks s (mark ++ c ∷ []) v (All-append _ mark (c ∷ []) m (ground arith, tt)) h)
  ]

-- With the delimiter between them, the parts of a split spell the text, up to its first zero byte,
-- and no part holds the delimiter.
pub split-with_delim :
    (str : Bytes) (delim : ℕ)
    → (with_delim delim (split str delim) ≡ c_str str) × All (Lacks delim) (split str delim)
unfolding split
split-with_delim str delim =
    (with_delim-split_loop delim (c_str str) [] [], split_loop-Lacks delim (c_str str) [] [] tt tt)
