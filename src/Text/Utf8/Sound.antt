-- ===== src/Text/Utf8/Sound.antt =====
-- Every valid text is an encoding of scalar values.
use librova.Base.{
  ℕ, List, ◌≡◌, some, ◌++◌, drop, ◌-◌, ◌∷◌, arith, suc, [], zero, if◌then◌else◌, leb, ◌%◌, ◌*◌, ◌+◌,
  true, false, ◌≤◌, Bool, Option, ◌⊎◌, inl, inr, ◌&&◌, between, ◌==◌, refl, ◌||◌, length, All,
  Option-cases, length-drop, sym, ◌∙◌, ap,
}
use librova.Text.Utf8.{sequence_length, validate, byte_in, is_valid_utf8}
use librova.Text.CodePoint.{encode, IsScalar, encode_all}

nth : ℕ → List ℕ → ℕ
nth n [] = 0
nth zero (b ∷ rest) = b
nth (suc n) (b ∷ rest) = nth n rest

-- The code point of a sequence, by the class of its first byte.
value : ℕ → List ℕ → ℕ
value b0 rest =
    if leb b0 0x7F
    then b0
    else if leb b0 0xDF
    then b0 % 32 * 64 + nth 0 rest % 64
    else if leb b0 0xEF
    then b0 % 16 * 4096 + nth 0 rest % 64 * 64 + nth 1 rest % 64
    else b0 % 8 * 262144 + nth 0 rest % 64 * 4096 + nth 1 rest % 64 * 64 + nth 2 rest % 64

abbrev Sequence : ℕ → List ℕ → ℕ → Type 0
Sequence b0 rest n =
    IsScalar (value b0 rest) × (encode (value b0 rest) ++ drop (n - 1) rest ≡ b0 ∷ rest)

-- A test that leads to an accepted value, or is passed over.
if_some :
    (t : Bool) (k : ℕ) (o : Option ℕ) {n : ℕ}
    → (if t then some k else o) ≡ some n
    → ((t ≡ true) × (k ≡ n)) ⊎ (o ≡ some n)
if_some true k o h = inl (refl, ground arith)
if_some false k o h = inr h

one_byte : (b0 : ℕ) (rest : List ℕ) → leb b0 0x7F ≡ true → Sequence b0 rest 1
unfolding encode value
one_byte b0 rest e = rw e (ground arith)

two_bytes :
    (b0 b1 : ℕ) (rest : List ℕ)
    → 0xC2 ≤ b0
    → b0 ≤ 0xDF
    → 0x80 ≤ b1
    → b1 ≤ 0xBF
    → Sequence b0 (b1 ∷ rest) 2
unfolding encode value nth
two_bytes b0 b1 rest l h l1 h1 = ground arith

three_bytes :
    (b0 b1 b2 : ℕ) (rest : List ℕ)
    → 0xE0 ≤ b0
    → b0 ≤ 0xEF
    → 0x80 ≤ b1
    → b1 ≤ 0xBF
    → (b0 ≡ 0xE0 → 0xA0 ≤ b1)
    → (b0 ≡ 0xED → b1 ≤ 0x9F)
    → 0x80 ≤ b2
    → b2 ≤ 0xBF
    → Sequence b0 (b1 ∷ b2 ∷ rest) 3
unfolding encode value nth
three_bytes b0 b1 b2 rest l h l1 h1 low high l2 h2 = ground arith

four_bytes :
    (b0 b1 b2 b3 : ℕ) (rest : List ℕ)
    → 0xF0 ≤ b0
    → b0 ≤ 0xF4
    → 0x80 ≤ b1
    → b1 ≤ 0xBF
    → (b0 ≡ 0xF0 → 0x90 ≤ b1)
    → (b0 ≡ 0xF4 → b1 ≤ 0x8F)
    → 0x80 ≤ b2
    → b2 ≤ 0xBF
    → 0x80 ≤ b3
    → b3 ≤ 0xBF
    → Sequence b0 (b1 ∷ b2 ∷ b3 ∷ rest) 4
unfolding encode value nth
four_bytes b0 b1 b2 b3 rest l h l1 h1 low high l2 h2 l3 h3 = ground arith

abbrev ThreeRange : ℕ → ℕ → ℕ → Type 0
ThreeRange b0 lo hi =
    (0xE0 ≤ b0)
    × (b0 ≤ 0xEF)
    × (0x80 ≤ lo)
    × (hi ≤ 0xBF)
    × (b0 ≡ 0xE0 → 0xA0 ≤ lo)
    × (b0 ≡ 0xED → hi ≤ 0x9F)

three_of :
    (g : Bool) (b0 lo hi : ℕ) (rest : List ℕ)
    → (g && byte_in lo hi 0 rest && byte_in 0x80 0xBF 1 rest) ≡ true
    → (g ≡ true → ThreeRange b0 lo hi)
    → Sequence b0 rest 3
three_of g b0 lo hi [] e r = ground arith
three_of g b0 lo hi (b1 ∷ []) e r = ground arith
three_of g b0 lo hi (b1 ∷ b2 ∷ rest) e r =
    let (l, h, l1, h1, low, high) = r (ground arith) in
    let (f1, f2, f3, f4) : (lo ≤ b1) × (b1 ≤ hi) × (0x80 ≤ b2) × (b2 ≤ 0xBF) = ground arith in
    three_bytes b0 b1 b2 rest l h (omega arith) (omega arith) (λ q. omega (arith, low q))
      (λ q. omega (arith, high q)) f3 f4

abbrev FourRange : ℕ → ℕ → ℕ → Type 0
FourRange b0 lo hi =
    (0xF0 ≤ b0)
    × (b0 ≤ 0xF4)
    × (0x80 ≤ lo)
    × (hi ≤ 0xBF)
    × (b0 ≡ 0xF0 → 0x90 ≤ lo)
    × (b0 ≡ 0xF4 → hi ≤ 0x8F)

four_of :
    (g : Bool) (b0 lo hi : ℕ) (rest : List ℕ)
    → (g && byte_in lo hi 0 rest && byte_in 0x80 0xBF 1 rest && byte_in 0x80 0xBF 2 rest) ≡ true
    → (g ≡ true → FourRange b0 lo hi)
    → Sequence b0 rest 4
four_of g b0 lo hi [] e r = ground arith
four_of g b0 lo hi (b1 ∷ []) e r = ground arith
four_of g b0 lo hi (b1 ∷ b2 ∷ []) e r = ground arith
four_of g b0 lo hi (b1 ∷ b2 ∷ b3 ∷ rest) e r =
    let (l, h, l1, h1, low, high) = r (ground arith) in
    let facts : (lo ≤ b1) × (b1 ≤ hi) × (0x80 ≤ b2) × (b2 ≤ 0xBF) × (0x80 ≤ b3) × (b3 ≤ 0xBF) =
      ground arith in
    four_bytes b0 b1 b2 b3 rest l h (omega (arith, facts)) (omega (arith, facts))
      (λ q. omega (arith, low q, facts)) (λ q. omega (arith, high q, facts)) facts.2 facts.3 facts.4
      facts.5

two_of :
    (b0 : ℕ) (rest : List ℕ)
    → (between 0xC2 0xDF b0 && byte_in 0x80 0xBF 0 rest) ≡ true
    → Sequence b0 rest 2
two_of b0 [] e = ground arith
two_of b0 (b1 ∷ rest) e =
    let facts : (0xC2 ≤ b0) × (b0 ≤ 0xDF) × (0x80 ≤ b1) × (b1 ≤ 0xBF) = ground arith in
    two_bytes b0 b1 rest facts.0 facts.1 facts.2 facts.3

-- What one round of the loop accepts is the encoding of a scalar value.
Sequence-encode : (b0 n : ℕ) (rest : List ℕ) → sequence_length b0 rest ≡ some n → Sequence b0 rest n
unfolding sequence_length
Sequence-encode b0 n rest h = elim (if_some (leb b0 0x7F) 1 _ h) [
  | inl (e, k) ↦ rw (← k) (one_byte b0 rest e)
  | inr h ↦ elim (if_some (between 0xC2 0xDF b0 && byte_in 0x80 0xBF 0 rest) 2 _ h) [
    | inl (e, k) ↦ rw (← k) (two_of b0 rest e)
    | inr h ↦
        elim (if_some (b0 == 0xE0 && byte_in 0xA0 0xBF 0 rest && byte_in 0x80 0xBF 1 rest) 3 _ h) [
          | inl (e, k) ↦ rw (← k) (three_of (b0 == 0xE0) b0 0xA0 0xBF rest e (λ q. ground arith))
          | inr h ↦
              elim (if_some
                (between 0xE1 0xEC b0 && byte_in 0x80 0xBF 0 rest && byte_in 0x80 0xBF 1 rest) 3 _
                h) [
                  | inl (e, k) ↦
                      rw (← k)
                        (three_of (between 0xE1 0xEC b0) b0 0x80 0xBF rest e (λ q. ground arith))
                  | inr h ↦
                      elim (if_some
                        (b0 == 0xED && byte_in 0x80 0x9F 0 rest && byte_in 0x80 0xBF 1 rest) 3 _
                        h) [
                          | inl (e, k) ↦
                              rw (← k)
                                (three_of (b0 == 0xED) b0 0x80 0x9F rest e (λ q. ground arith))
                          | inr h ↦
                              elim (if_some
                                ((b0 == 0xEE || b0 == 0xEF)
                                  && byte_in 0x80 0xBF 0 rest
                                  && byte_in 0x80 0xBF 1 rest)
                                3 _ h) [
                                  | inl (e, k) ↦ rw (← k) (
                                      three_of (b0 == 0xEE || b0 == 0xEF) b0 0x80 0xBF rest e
                                        (λ q. ground arith))
                                  | inr h ↦
                                      elim (if_some
                                        (b0 == 0xF0
                                          && byte_in 0x90 0xBF 0 rest
                                          && byte_in 0x80 0xBF 1 rest
                                          && byte_in 0x80 0xBF 2 rest)
                                        4 _ h) [
                                          | inl (e, k) ↦ rw (← k) (
                                              four_of (b0 == 0xF0) b0 0x90 0xBF rest e
                                                (λ q. ground arith))
                                          | inr h ↦
                                              elim (if_some
                                                (between 0xF1 0xF3 b0
                                                  && byte_in 0x80 0xBF 0 rest
                                                  && byte_in 0x80 0xBF 1 rest
                                                  && byte_in 0x80 0xBF 2 rest)
                                                4 _ h) [
                                                  | inl (e, k) ↦ rw (← k) (
                                                      four_of (between 0xF1 0xF3 b0) b0 0x80 0xBF
                                                        rest e (λ q. ground arith))
                                                  | inr h ↦
                                                      elim (if_some
                                                        (b0 == 0xF4
                                                          && byte_in 0x80 0x8F 0 rest
                                                          && byte_in 0x80 0xBF 1 rest
                                                          && byte_in 0x80 0xBF 2 rest)
                                                        4 _ h) [
                                                          | inl (e, k) ↦ rw (← k) (
                                                            four_of (b0 == 0xF4) b0 0x80 0x8F rest e
                                                            (λ q. ground arith))
                                                          | inr h ↦ cc
                                                        ]
                                                ]
                                        ]
                                ]
                        ]
                ]
        ]
  ]
]

-- The loop that still has to pass over `k` bytes stands where it will when it has.
validate-drop : (k : ℕ) (bs : List ℕ) → validate k bs ≡ validate 0 (drop k bs)
unfolding validate
validate-drop zero bs = refl
validate-drop (suc k) [] = refl
validate-drop (suc k) (b ∷ bs) = validate-drop k bs

-- The code points of a valid text, found with fuel for its bytes.
sound_within :
    (fuel : ℕ) (bs : List ℕ)
    → length bs ≤ fuel
    → validate 0 bs ≡ true
    → (cs : List ℕ) × All IsScalar cs × (encode_all cs ≡ bs)
unfolding validate encode_all
sound_within fuel [] h v = ([], tt, refl)
sound_within zero (b ∷ bs) h v = absurd (omega arith)
sound_within (suc fuel) (b ∷ bs) h v = elim (Option-cases (sequence_length b bs)) [
  | inl e ↦ cc (rw (e, validate) at v)
  | inr (n, e) ↦
      let (scalar, is) = Sequence-encode b n bs e in
      let (cs, scalars, are) =
        sound_within fuel (drop (n - 1) bs) (omega (arith, length-drop (n - 1) bs))
          (sym (validate-drop (n - 1) bs) ∙ rw (e, validate) at v) in
      (value b bs ∷ cs, (scalar, scalars), ap (◌++◌ (encode (value b bs))) are ∙ is)
]

-- A text that the check accepts is the encoding of a list of scalar values.
pub valid-scalars :
    (bs : List ℕ) → is_valid_utf8 bs ≡ true → (cs : List ℕ) × All IsScalar cs × (encode_all cs ≡ bs)
unfolding is_valid_utf8
valid-scalars bs v = sound_within (length bs) bs (omega arith) v
