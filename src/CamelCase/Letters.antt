-- ===== src/CamelCase/Letters.antt =====
-- What the decoded name keeps of the camel case name, and what it never holds.
use ldp.Base.{
  ℕ, ◌*◌, ◌≤◌, false, [], ◌∷◌, ◌==◌, if◌then◌else◌, Bytes, c_str, c_str_self, c_str-Lacks, Lacks,
  All, is_upper, to_lower, map, length, ◌≡◌, refl, arith, Bool-cases, inl, inr,
}
use ldp.CamelCase.{decode_camel_case}
use ldp.CamelCase.Words.{starts_word, spell_after, spell, decode_camel_case-spell}

abbrev without_underscores : Bytes → Bytes
without_underscores [] = []
without_underscores (c ∷ s) = if c == b'_' then without_underscores s else c ∷ without_underscores s

without_underscores-spell_after :
    (prev : ℕ) (s : Bytes)
    → without_underscores (spell_after prev s) ≡ without_underscores (map to_lower s)
without_underscores-spell_after prev [] = refl
without_underscores-spell_after prev (c ∷ s) = elim (Bool-cases (starts_word prev c s)) [
  | inl e ↦ rw e (ground (arith, without_underscores-spell_after c s))
  | inr e ↦ rw e (ground (arith, without_underscores-spell_after c s))
]

without_underscores-spell :
    (s : Bytes) → without_underscores (spell s) ≡ without_underscores (map to_lower s)
without_underscores-spell [] = refl
without_underscores-spell (c ∷ s) = ground (arith, without_underscores-spell_after c s)

-- Decoding only lowers letters and adds underscores: without the underscores, the decoded text is
-- the lowered text, character by character.
decode_camel_case-letters :
    (str : Bytes)
    → without_underscores (decode_camel_case str) ≡ without_underscores (map to_lower (c_str str))
decode_camel_case-letters str = rw decode_camel_case-spell (without_underscores-spell (c_str str))

abbrev pub HasNoUpper : Bytes → Type 0
HasNoUpper = All (λ c. is_upper c ≡ false)

to_lower-HasNoUpper : (c : ℕ) → is_upper (to_lower c) ≡ false
unfolding to_lower
to_lower-HasNoUpper c = ground arith

spell_after-HasNoUpper : (prev : ℕ) (s : Bytes) → HasNoUpper (spell_after prev s)
spell_after-HasNoUpper prev [] = tt
spell_after-HasNoUpper prev (c ∷ s) = elim (Bool-cases (starts_word prev c s)) [
  | inl e ↦ rw e (refl, (to_lower-HasNoUpper c, spell_after-HasNoUpper c s))
  | inr e ↦ rw e (to_lower-HasNoUpper c, spell_after-HasNoUpper c s)
]

spell-HasNoUpper : (s : Bytes) → HasNoUpper (spell s)
spell-HasNoUpper [] = tt
spell-HasNoUpper (c ∷ s) = (to_lower-HasNoUpper c, spell_after-HasNoUpper c s)

spell_after_self : (prev : ℕ) (s : Bytes) → HasNoUpper s → spell_after prev s ≡ s
unfolding to_lower
spell_after_self prev [] h = refl
spell_after_self prev (c ∷ []) h = ground arith
spell_after_self prev (c ∷ d ∷ s) h = ground (arith, spell_after_self c (d ∷ s) h.1)

spell_self : (s : Bytes) → HasNoUpper s → spell s ≡ s
unfolding to_lower
spell_self [] h = refl
spell_self (c ∷ s) h = ground (arith, spell_after_self c s h.1)

spell_after-Lacks : (prev : ℕ) (s : Bytes) → Lacks 0 s → Lacks 0 (spell_after prev s)
unfolding to_lower
spell_after-Lacks prev [] h = tt
spell_after-Lacks prev (c ∷ s) h = elim (Bool-cases (starts_word prev c s)) [
  | inl e ↦ rw e (ground arith, (ground arith, spell_after-Lacks c s h.1))
  | inr e ↦ rw e (ground arith, spell_after-Lacks c s h.1)
]

spell-Lacks : (s : Bytes) → Lacks 0 s → Lacks 0 (spell s)
unfolding to_lower
spell-Lacks [] h = tt
spell-Lacks (c ∷ s) h = (ground arith, spell_after-Lacks c s h.1)

-- The decoded text holds no uppercase letter, and decoding it again changes nothing.
decode_camel_case_idem :
    (str : Bytes)
    → HasNoUpper (decode_camel_case str)
      × (decode_camel_case (decode_camel_case str) ≡ decode_camel_case str)
decode_camel_case_idem str =
    let s = c_str str in
    rw decode_camel_case-spell (
      spell-HasNoUpper s,
      rw (decode_camel_case-spell, c_str_self _ (spell-Lacks s (c_str-Lacks str)))
          (spell_self _ (spell-HasNoUpper s)),
    )

length-spell_after :
    (prev : ℕ) (s : Bytes)
    → (length s ≤ length (spell_after prev s)) × (length (spell_after prev s) ≤ 2 * length s)
length-spell_after prev [] = omega arith
length-spell_after prev (c ∷ s) = elim (Bool-cases (starts_word prev c s)) [
  | inl e ↦ rw e (omega (arith, length-spell_after c s))
  | inr e ↦ rw e (omega (arith, length-spell_after c s))
]

length-spell : (s : Bytes) → (length s ≤ length (spell s)) × (length (spell s) ≤ 2 * length s)
length-spell [] = omega arith
length-spell (c ∷ s) = omega (arith, length-spell_after c s)

-- Decoding never shortens a text, and at most doubles its length.
length-decode_camel_case :
    (str : Bytes)
    → (length (c_str str) ≤ length (decode_camel_case str))
      × (length (decode_camel_case str) ≤ 2 * length (c_str str))
length-decode_camel_case str = rw decode_camel_case-spell (length-spell (c_str str))
