-- ===== src/TextUtil.antt =====
-- The text functions of etymoncpp/src/util.cpp.
pub mod Trim
pub mod Split
use ldp.Base.{
  ℕ, Bool, true, false, ◌&&◌, List, [], ◌∷◌, ◌++◌, map, ◌==◌, if◌then◌else◌, Bytes, c_str, is_space,
  to_lower, to_upper, drop,
}

-- Whether a path ends, or begins, with a slash.
ends_with_slash : Bytes → Bool
ends_with_slash [] = false
ends_with_slash (c ∷ []) = c == b'/'
ends_with_slash (c ∷ d ∷ s) = ends_with_slash (d ∷ s)

starts_with_slash : Bytes → Bool
starts_with_slash [] = false
starts_with_slash (c ∷ s) = c == b'/'

-- The switch on how many slashes meet. (`s2.c_str() + 1` ends at the first zero byte.)
join_slashes : Bool → Bool → Bytes → Bytes → Bytes
join_slashes false false s1 s2 = s1 ++ b'/' ∷ s2
join_slashes true false s1 s2 = s1 ++ s2
join_slashes false true s1 s2 = s1 ++ s2
join_slashes true true s1 s2 = s1 ++ drop 1 (c_str s2)

unfoldable pub join : Bytes → Bytes → Bytes
unfolding join_slashes ends_with_slash starts_with_slash
join [] s2 = s2
join (c ∷ s) [] = c ∷ s
join (c ∷ s) (d ∷ t) =
    join_slashes (ends_with_slash (c ∷ s)) (starts_with_slash (d ∷ t)) (c ∷ s) (d ∷ t)

-- The loop that moves `p`; a zero byte clears the text.
skip_left : Bytes → Bytes
skip_left [] = []
skip_left (c ∷ s) = if c == 0 then [] else if is_space c then skip_left s else c ∷ s

-- One more character in front of what is left of the rest by the loop that moves `q`.
keep_right : ℕ → Bytes → Bytes
keep_right c [] = if is_space c then [] else c ∷ []
keep_right c (d ∷ s) = c ∷ d ∷ s

skip_right : Bytes → Bytes
skip_right [] = []
skip_right (c ∷ s) = keep_right c (skip_right s)

-- The copy from `p` to `q` is assigned as a C string.
unfoldable pub trim : Bytes → Bytes
unfolding skip_left skip_right keep_right c_str
trim s = c_str (skip_right (skip_left s))

unfoldable pub lower_text : Bytes → Bytes
lower_text s = map to_lower s

abbrev pub upper_text : Bytes → Bytes
upper_text s = map to_upper s

split_loop : ℕ → Bytes → Bytes → List Bytes → List Bytes
split_loop delim [] mark v = v ++ mark ∷ []
split_loop delim (c ∷ p) mark v =
    let cut = split_loop delim p [] (v ++ mark ∷ []) in
    let on = split_loop delim p (mark ++ c ∷ []) v in if c == delim then cut else on

unfoldable pub split : Bytes → ℕ → List Bytes
unfolding split_loop c_str
split str delim = split_loop delim (c_str str) [] []

prefix_all : Bytes → List Bytes → Bytes
prefix_all prefix [] = []
prefix_all prefix (s ∷ v) = prefix ++ (s ++ b'\n' ∷ prefix_all prefix v)

unfoldable pub prefix_lines : Bytes → Bytes → Bytes
unfolding prefix_all trim split
prefix_lines str prefix = prefix_all prefix (split (trim str) b'\n')

-- `while (getline(stream, token, delim))`: no token stands behind a delimiter at the end.
unfoldable pub getline_tokens : ℕ → Bytes → Bytes → List Bytes
getline_tokens delim [] [] = []
getline_tokens delim [] (t ∷ token) = (t ∷ token) ∷ []
getline_tokens delim (c ∷ s) token =
    let cut = token ∷ getline_tokens delim s [] in
    let on = getline_tokens delim s (token ++ c ∷ []) in if c == delim then cut else on
