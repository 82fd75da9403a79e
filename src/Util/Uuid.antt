-- ===== src/Util/Uuid.antt =====
-- `is_uuid` against the shape 8-4-4-4-12.
use ldp.Base.{
  ℕ, zero, suc, ◌+◌, ◌≤◌, ◌<◌, true, false, [], ◌∷◌, ◌++◌, Bytes, c_str, length, length-append,
  append-nil, ◌∙◌, All, ◌≡◌, ◌↔◌, refl, arith, ap,
}
use ldp.Util.{is_hex, is_dash_position, uuid_loop, is_uuid}

abbrev pub IsHex : ℕ → Bytes → Type 0
IsHex n s = (length s ≡ n) × All (λ c. is_hex c ≡ true) s

-- Five groups of hexadecimal digits, joined by dashes.
pub record Shape (s : Bytes) : Type 0 where
  pub group1 : Bytes
  pub group2 : Bytes
  pub group3 : Bytes
  pub group4 : Bytes
  pub group5 : Bytes
  pub hex1 : IsHex 8 group1
  pub hex2 : IsHex 4 group2
  pub hex3 : IsHex 4 group3
  pub hex4 : IsHex 4 group4
  pub hex5 : IsHex 12 group5
  pub joined : s ≡ group1 ++ b'-' ∷ (group2 ++ b'-' ∷ (group3 ++ b'-' ∷ (group4 ++ b'-' ∷ group5)))

-- No dash stands at the `n` positions from `x` on.
abbrev Free : ℕ → ℕ → Type 0
Free x zero = Unit
Free x (suc n) = (is_dash_position x ≡ false) × Free (x + 1) n

uuid_loop-group :
    (n x : ℕ) (g rest : Bytes)
    → Free x n
    → IsHex n g
    → uuid_loop x (g ++ rest) ≡ uuid_loop (x + n) rest
unfolding uuid_loop
uuid_loop-group zero x [] rest f h = ap (λ y. uuid_loop y rest) (omega arith)
uuid_loop-group zero x (c ∷ g) rest f h = absurd (omega arith)
uuid_loop-group (suc n) x [] rest f h = absurd (omega arith)
uuid_loop-group (suc n) x (c ∷ g) rest f h = ground (
  arith,
  uuid_loop-group n (x + 1) g rest f.1 (omega arith, h.1.1),
  ap (λ y. uuid_loop y rest) (let e : x + 1 + n ≡ x + suc n = omega arith in e),
)

uuid_loop-dash :
    (x : ℕ) (s : Bytes) → is_dash_position x ≡ true → uuid_loop x (b'-' ∷ s) ≡ uuid_loop (x + 1) s
unfolding uuid_loop
uuid_loop-dash x s d = ground arith

uuid_loop-rest : (n : ℕ) (s : Bytes) → IsHex n s → Free 24 n → uuid_loop 24 s ≡ true
uuid_loop-rest n s h f =
    let e = uuid_loop-group n 24 s [] f h in rw append-nil at e ∙ unfold uuid_loop in refl

-- A passing scan begins with a group of digits, where no dash is asked for.
uuid_loop-split :
    (n x : ℕ) (s : Bytes)
    → Free x n
    → n ≤ length s
    → uuid_loop x s ≡ true
    → (g : Bytes) × (rest : Bytes) × (s ≡ g ++ rest) × IsHex n g × (uuid_loop (x + n) rest ≡ true)
uuid_loop-split zero x s f le h =
    ([], s, refl, (refl, tt), ap (λ y. uuid_loop y s) (let e : x + 0 ≡ x = omega arith in e) ∙ h)
uuid_loop-split (suc n) x [] f le h = absurd (omega arith)
uuid_loop-split (suc n) x (c ∷ s) f le h =
    let digit : (is_hex c ≡ true) × (uuid_loop (x + 1) s ≡ true) =
      unfold uuid_loop in ground arith in
    let (g, rest, e, hex, next) = uuid_loop-split n (x + 1) s f.1 (omega arith) digit.1 in
    (
      c ∷ g,
      rest,
      ap (λ r. c ∷ r) e,
      (ap suc hex.0, (digit.0, hex.1)),
      ap (λ y. uuid_loop y rest) (let e' : x + suc n ≡ x + 1 + n = omega arith in e') ∙ next,
    )

-- A group and the dash behind it.
uuid_loop-block :
    (n x : ℕ) (s : Bytes)
    → Free x n
    → is_dash_position (x + n) ≡ true
    → n < length s
    → uuid_loop x s ≡ true
    → (g : Bytes) × (rest : Bytes) × (s ≡ g ++ b'-' ∷ rest)
      × IsHex n g
      × (uuid_loop (x + n + 1) rest ≡ true)
      × (length s ≡ n + 1 + length rest)
uuid_loop-block n x s f d lt h =
    let (g, rest, e, hex, next) = uuid_loop-split n x s f (omega arith) h in after g rest e hex next
  where
    after :
        (g rest : Bytes)
        → s ≡ g ++ rest
        → IsHex n g
        → uuid_loop (x + n) rest ≡ true
        → (g' : Bytes) × (rest' : Bytes) × (s ≡ g' ++ b'-' ∷ rest')
          × IsHex n g'
          × (uuid_loop (x + n + 1) rest' ≡ true)
          × (length s ≡ n + 1 + length rest')
    after g [] e hex next = absurd (omega (arith, ap length e, length-append {0} g [], hex.0))
    after g (c ∷ r) e hex next =
        let dash : (c ≡ b'-') × (uuid_loop (x + n + 1) r ≡ true) =
          unfold uuid_loop in ground arith in
        (
          g,
          r,
          e ∙ ap (λ k. g ++ k ∷ r) dash.0,
          hex,
          dash.1,
          omega (arith, ap length e, length-append {0} g (c ∷ r), hex.0),
        )

is_uuid-length :
    (s : Bytes) → is_uuid s ≡ true → (length (c_str s) ≡ 36) × (uuid_loop 0 (c_str s) ≡ true)
unfolding is_uuid
is_uuid-length s h = ground arith

nil_of_length : (s : Bytes) → length s ≡ 0 → s ≡ []
nil_of_length [] h = refl
nil_of_length (c ∷ s) h = absurd (omega arith)

join_groups :
    {s r1 r2 r3 r4 : Bytes} (g1 g2 g3 g4 g5 : Bytes)
    → IsHex 8 g1
    → IsHex 4 g2
    → IsHex 4 g3
    → IsHex 4 g4
    → IsHex 12 g5
    → s ≡ g1 ++ b'-' ∷ r1
    → r1 ≡ g2 ++ b'-' ∷ r2
    → r2 ≡ g3 ++ b'-' ∷ r3
    → r3 ≡ g4 ++ b'-' ∷ r4
    → r4 ≡ g5
    → Shape s
join_groups g1 g2 g3 g4 g5 h1 h2 h3 h4 h5 e1 e2 e3 e4 e5 = record {
  group1 = g1;
  group2 = g2;
  group3 = g3;
  group4 = g4;
  group5 = g5;
  hex1 = h1;
  hex2 = h2;
  hex3 = h3;
  hex4 = h4;
  hex5 = h5;
  joined = cc;
}

last_group : {r : Bytes} (g rest : Bytes) → length r ≡ 12 → r ≡ g ++ rest → IsHex 12 g → r ≡ g
last_group g rest len e h =
    e
    ∙ ap (λ k. g ++ k)
        (nil_of_length rest (omega (arith, ap length e, length-append {0} g rest, h.0)))
    ∙ append-nil g

is_uuid-Shape : (s : Bytes) → is_uuid s ≡ true → Shape (c_str s)
is_uuid-Shape s h =
    let (len, pass) = is_uuid-length s h in
    let (g1, r1, e1, h1, p1, l1) =
      uuid_loop-block 8 0 (c_str s) (ground arith) refl (omega arith) pass in
    let (g2, r2, e2, h2, p2, l2) = uuid_loop-block 4 9 r1 (ground arith) refl (omega arith) p1 in
    let (g3, r3, e3, h3, p3, l3) = uuid_loop-block 4 14 r2 (ground arith) refl (omega arith) p2 in
    let (g4, r4, e4, h4, p4, l4) = uuid_loop-block 4 19 r3 (ground arith) refl (omega arith) p3 in
    let (g5, r5, e5, h5, p5) = uuid_loop-split 12 24 r4 (ground arith) (omega arith) p4 in
    join_groups g1 g2 g3 g4 g5 h1 h2 h3 h4 h5 e1 e2 e3 e4 (last_group g5 r5 (omega arith) e5 h5)

length-Shape : {s : Bytes} → Shape s → length s ≡ 36
length-Shape p =
    let s4 = p.group4 ++ b'-' ∷ p.group5 in
    let s3 = p.group3 ++ b'-' ∷ s4 in
    let s2 = p.group2 ++ b'-' ∷ s3 in
    omega (
      arith,
      ap length p.joined,
      length-append {0} p.group1 (b'-' ∷ s2),
      length-append {0} p.group2 (b'-' ∷ s3),
      length-append {0} p.group3 (b'-' ∷ s4),
      length-append {0} p.group4 (b'-' ∷ p.group5),
      p.hex1.0,
      p.hex2.0,
      p.hex3.0,
      p.hex4.0,
      p.hex5.0,
    )

uuid_loop-block_back :
    (n x : ℕ) (g rest : Bytes)
    → Free x n
    → is_dash_position (x + n) ≡ true
    → IsHex n g
    → uuid_loop x (g ++ b'-' ∷ rest) ≡ uuid_loop (x + n + 1) rest
uuid_loop-block_back n x g rest f d h =
    uuid_loop-group n x g (b'-' ∷ rest) f h ∙ uuid_loop-dash (x + n) rest d

uuid_loop-Shape : {s : Bytes} → Shape s → uuid_loop 0 s ≡ true
uuid_loop-Shape p =
    let s4 = p.group4 ++ b'-' ∷ p.group5 in
    let s3 = p.group3 ++ b'-' ∷ s4 in
    let s2 = p.group2 ++ b'-' ∷ s3 in
    ap (uuid_loop 0) p.joined
    ∙ uuid_loop-block_back 8 0 p.group1 s2 (ground arith) refl p.hex1
    ∙ uuid_loop-block_back 4 9 p.group2 s3 (ground arith) refl p.hex2
    ∙ uuid_loop-block_back 4 14 p.group3 s4 (ground arith) refl p.hex3
    ∙ uuid_loop-block_back 4 19 p.group4 p.group5 (ground arith) refl p.hex4
    ∙ uuid_loop-rest 12 p.group5 p.hex5 (ground arith)

-- A text is taken for a UUID exactly when, up to its first zero byte, it is five groups of 8, 4, 4,
-- 4 and 12 hexadecimal digits of either case, joined by dashes.
pub is_uuid_iff : (s : Bytes) → (is_uuid s ≡ true) ↔ Shape (c_str s)
unfolding is_uuid
is_uuid_iff s = (is_uuid-Shape s, λ p. ground (arith, length-Shape p, uuid_loop-Shape p))
