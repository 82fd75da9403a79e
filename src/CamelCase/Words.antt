-- ===== src/CamelCase/Words.antt =====
-- The sliding window of src/camelcase.cpp against a description with no window.
use ldp.Base.{
  ℕ, Bool, not, ◌&&◌, ◌||◌, [], ◌∷◌, ◌++◌, append_assoc, if◌then◌else◌, Bytes, c_str, c_str-Lacks,
  Lacks, is_upper, to_lower, ◌≡◌, ◌≢◌, refl, ◌∙◌, arith,
}
use ldp.CamelCase.{decode_triple, decode_window, decode_camel_case}

-- An uppercase letter behind `prev` starts a word, unless it stands inside or at the end of a run
-- of uppercase letters: `prev` is uppercase, and so is the next character or there is none.
abbrev pub starts_word : ℕ → ℕ → Bytes → Bool
starts_word prev c [] = is_upper c && not (is_upper prev)
starts_word prev c (next ∷ s) = is_upper c && (not (is_upper prev) || not (is_upper next))

abbrev pub separator : Bool → Bytes
separator starts = if starts then b'_' ∷ [] else []

abbrev pub spell_after : ℕ → Bytes → Bytes
spell_after prev [] = []
spell_after prev (c ∷ s) = separator (starts_word prev c s) ++ to_lower c ∷ spell_after c s

-- Every character in lower case, and an underscore before each that starts a word.
abbrev pub spell : Bytes → Bytes
spell [] = []
spell (c ∷ s) = to_lower c ∷ spell_after c s

decode_triple-inner :
    (c1 c2 c3 : ℕ) (s out : Bytes)
    → c1 ≢ 0
    → c2 ≢ 0
    → c3 ≢ 0
    → decode_triple c1 c2 c3 out
      ≡ out ++ (separator (starts_word c1 c2 (c3 ∷ s)) ++ to_lower c2 ∷ [])
unfolding decode_triple to_lower
decode_triple-inner c1 c2 c3 s out h1 h2 h3 =
    ground (
      arith,
      append_assoc out (b'_' ∷ []) (c2 ∷ []),
      append_assoc out (b'_' ∷ []) (to_lower c2 ∷ []),
    )

decode_triple-last :
    (c1 c2 : ℕ) (out : Bytes)
    → c1 ≢ 0
    → c2 ≢ 0
    → decode_triple c1 c2 0 out ≡ out ++ (separator (starts_word c1 c2 []) ++ to_lower c2 ∷ [])
unfolding decode_triple to_lower
decode_triple-last c1 c2 out h1 h2 =
    ground (
      arith,
      append_assoc out (b'_' ∷ []) (c2 ∷ []),
      append_assoc out (b'_' ∷ []) (to_lower c2 ∷ []),
    )

decode_window-spell_after :
    (s : Bytes) (c1 c2 : ℕ) (out : Bytes)
    → c1 ≢ 0
    → c2 ≢ 0
    → Lacks 0 s
    → decode_window c1 c2 s out ≡ out ++ spell_after c1 (c2 ∷ s)
unfolding decode_window
decode_window-spell_after [] c1 c2 out h1 h2 hs = decode_triple-last c1 c2 out h1 h2
decode_window-spell_after (c3 ∷ s) c1 c2 out h1 h2 hs =
    decode_window-spell_after s c2 c3 _ h2 hs.0 hs.1
    ∙ simp (decode_triple-inner c1 c2 c3 s out h1 h2 hs.0, append_assoc)

decode_window-spell : (s : Bytes) → Lacks 0 s → decode_window 0 0 s [] ≡ spell s
unfolding decode_window decode_triple
decode_window-spell [] h = refl
decode_window-spell (c ∷ []) h = ground arith
decode_window-spell (c ∷ d ∷ s) h =
    ground (arith, decode_window-spell_after s c d (to_lower c ∷ []) h.0 h.1.0 h.1.1)

-- For every text, the sliding window writes each character before the first zero byte in lower
-- case, with an underscore exactly before those that start a word: an uppercase letter behind a
-- character that is not one, and the last uppercase letter of a run if any other character follows,
-- be it a lowercase letter or not.
pub decode_camel_case-spell : (str : Bytes) → decode_camel_case str ≡ spell (c_str str)
unfolding decode_camel_case
decode_camel_case-spell str = decode_window-spell (c_str str) (c_str-Lacks str)
