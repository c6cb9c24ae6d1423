-- ===== src/Text/Normalize/Whole.antt =====
-- NormalizeText on valid UTF-8.
use librova.Text.Normalize.{
  collapse, is_whitespace_byte, pop_space, trim, normalize_text, normalize_lowercase_code_point,
  lowercase_from,
}
use librova.Text.CodePoint.{encode, encode_all, IsScalar}
use librova.Base.{
  Bool, List, ℕ, All, ◌≡◌, false, true, ◌<◌, ◌∷◌, length, [], Bool-cases, ◌++◌, arith, inl, ap, inr,
  refl, if◌then◌else◌, map, ◌∙◌, length-append, ap₂, sym, subst,
}
use librova.Text.Utf8.{is_valid_utf8}
use librova.Text.Normalize.Lowercase.{
  normalize-IsScalar, is_whitespace-normalize, length-encode-pos, lowercase-encode_all,
  normalize-normalize,
}
use librova.Text.Utf8.Sound.{valid-scalars}
use librova.Text.Normalize.Whitespace.{trim-trim}
use librova.Text.Utf8.Complete.{encode_all-valid}

-- The codes that stand for a white-space byte are those bytes, and no byte of a longer encoding is one.
collapse-append_plain :
    (white : Bool) (field rest : List ℕ)
    → All (λ b. is_whitespace_byte b ≡ false) field
    → 0 < length field
    → collapse white (field ++ rest) ≡ field ++ collapse false rest
unfolding collapse
collapse-append_plain white [] rest h l = absurd (omega arith)
collapse-append_plain white (b ∷ []) rest h l = rw h.0
collapse-append_plain white (b ∷ b' ∷ field) rest h l =
    rw h.0 (ap (◌∷◌ b) (collapse-append_plain false (b' ∷ field) rest h.1 (omega arith)))

encode_plain :
    (c : ℕ)
    → is_whitespace_byte c ≡ false
    → All (λ b. is_whitespace_byte b ≡ false) (encode c) × (0 < length (encode c))
unfolding encode is_whitespace_byte
encode_plain c h = ground arith

encode_white : (c : ℕ) → is_whitespace_byte c ≡ true → encode c ≡ c ∷ []
unfolding encode is_whitespace_byte
encode_white c h = ground arith

collapse_white :
    (white : Bool) (c : ℕ) (rest : List ℕ)
    → is_whitespace_byte c ≡ true
    → collapse white (c ∷ rest) ≡ (if white then collapse true rest else b' ' ∷ collapse true rest)
unfolding collapse
collapse_white white c rest e = rw e

collapse_plain :
    (white : Bool) (c : ℕ) (rest : List ℕ)
    → is_whitespace_byte c ≡ false
    → collapse white (c ∷ rest) ≡ c ∷ collapse false rest
unfolding collapse
collapse_plain white c rest e = rw e

encode_pushed :
    (white : Bool) (cs : List ℕ)
    → (if white then encode_all cs else b' ' ∷ encode_all cs)
      ≡ encode_all (if white then cs else b' ' ∷ cs)
unfolding encode_all encode
encode_pushed true cs = refl
encode_pushed false cs = refl

-- Collapsing the bytes is collapsing the code points.
collapse-encode_all :
    (white : Bool) (cs : List ℕ) → collapse white (encode_all cs) ≡ encode_all (collapse white cs)
unfolding encode_all
collapse-encode_all white [] = unfold collapse in refl
collapse-encode_all white (c ∷ cs) = elim (Bool-cases (is_whitespace_byte c)) [
  | inl e ↦
      rw (encode_white c e, collapse_white white c (encode_all cs) e, collapse_white white c cs e)
        (ap (λ p. if white then p else b' ' ∷ p) (collapse-encode_all true cs)
          ∙ encode_pushed white (collapse true cs))
  | inr e ↦
      let (plain, some_bytes) = encode_plain c e in
      collapse-append_plain white (encode c) (encode_all cs) plain some_bytes
      ∙ ap (◌++◌ (encode c)) (collapse-encode_all false cs)
      ∙ ap encode_all (sym (collapse_plain white c cs e))
]

pop_space-append :
    (xs rest : List ℕ) → 0 < length rest → pop_space (xs ++ rest) ≡ xs ++ pop_space rest
unfolding pop_space
pop_space-append [] rest h = refl
pop_space-append (x ∷ []) [] h = absurd (omega arith)
pop_space-append (x ∷ []) (y ∷ rest) h = refl
pop_space-append (x ∷ y ∷ xs) rest h = ap (◌∷◌ x) (pop_space-append (y ∷ xs) rest h)

pop_space-encode : (c : ℕ) → pop_space (encode c ++ []) ≡ encode_all (pop_space (c ∷ []))
unfolding pop_space encode_all encode
pop_space-encode c = ground arith

encode_pop :
    (c c' : ℕ) (cs : List ℕ)
    → encode_all (pop_space (c ∷ c' ∷ cs)) ≡ encode c ++ encode_all (pop_space (c' ∷ cs))
unfolding pop_space encode_all
encode_pop c c' cs = refl

pop_space-encode_all : (cs : List ℕ) → pop_space (encode_all cs) ≡ encode_all (pop_space cs)
unfolding encode_all
pop_space-encode_all [] = unfold pop_space in refl
pop_space-encode_all (c ∷ []) = pop_space-encode c
pop_space-encode_all (c ∷ c' ∷ cs) =
    pop_space-append (encode c) (encode_all (c' ∷ cs))
      (omega (arith, length-append (encode c') (encode_all cs), length-encode-pos c'))
    ∙ ap (◌++◌ (encode c)) (pop_space-encode_all (c' ∷ cs))
    ∙ sym (encode_pop c c' cs)

trim-encode_all : (cs : List ℕ) → trim (encode_all cs) ≡ encode_all (trim cs)
unfolding trim
trim-encode_all cs =
    ap pop_space (collapse-encode_all true cs) ∙ pop_space-encode_all (collapse true cs)

collapse-scalars : (white : Bool) (cs : List ℕ) → All IsScalar cs → All IsScalar (collapse white cs)
unfolding collapse
collapse-scalars white [] h = tt
collapse-scalars white (c ∷ cs) h =
    ground (arith, h.0, collapse-scalars true cs h.1, collapse-scalars false cs h.1)

pop_space-scalars : (cs : List ℕ) → All IsScalar cs → All IsScalar (pop_space cs)
unfolding pop_space
pop_space-scalars [] h = tt
pop_space-scalars (c ∷ []) h = ground (arith, h.0)
pop_space-scalars (c ∷ c' ∷ cs) h = (h.0, pop_space-scalars (c' ∷ cs) h.1)

trim-scalars : (cs : List ℕ) → All IsScalar cs → All IsScalar (trim cs)
unfolding trim
trim-scalars cs h = pop_space-scalars _ (collapse-scalars true cs h)

-- On the encoding of code points NormalizeText trims and lowercases the code points.
normalize_text-encode_all :
    (cs : List ℕ)
    → All IsScalar cs
    → normalize_text (encode_all cs) ≡ encode_all (map normalize_lowercase_code_point (trim cs))
unfolding normalize_text
normalize_text-encode_all cs h =
    ap (lowercase_from 0) (trim-encode_all cs) ∙ lowercase-encode_all (trim cs) (trim-scalars cs h)

map-scalars : (cs : List ℕ) → All IsScalar cs → All IsScalar (map normalize_lowercase_code_point cs)
map-scalars [] h = tt
map-scalars (c ∷ cs) h = (normalize-IsScalar c h.0, map-scalars cs h.1)

map-pushed :
    (white : Bool) (cs : List ℕ)
    → (if white
        then map normalize_lowercase_code_point cs
        else b' ' ∷ map normalize_lowercase_code_point cs)
      ≡ map normalize_lowercase_code_point (if white then cs else b' ' ∷ cs)
unfolding normalize_lowercase_code_point
map-pushed true cs = refl
map-pushed false cs = refl

collapse-map :
    (white : Bool) (cs : List ℕ)
    → collapse white (map normalize_lowercase_code_point cs)
      ≡ map normalize_lowercase_code_point (collapse white cs)
collapse-map white [] = unfold collapse in refl
collapse-map white (c ∷ cs) = elim (Bool-cases (is_whitespace_byte c)) [
  | inl e ↦
      collapse_white white _ _ (is_whitespace-normalize c ∙ e)
      ∙ ap (λ p. if white then p else b' ' ∷ p) (collapse-map true cs)
      ∙ map-pushed white (collapse true cs)
      ∙ ap (map normalize_lowercase_code_point) (sym (collapse_white white c cs e))
  | inr e ↦
      collapse_plain white _ _ (is_whitespace-normalize c ∙ e)
      ∙ ap (◌∷◌ (normalize_lowercase_code_point c)) (collapse-map false cs)
      ∙ ap (map normalize_lowercase_code_point) (sym (collapse_plain white c cs e))
]

pop_space-map :
    (cs : List ℕ)
    → pop_space (map normalize_lowercase_code_point cs)
      ≡ map normalize_lowercase_code_point (pop_space cs)
unfolding pop_space
pop_space-map [] = refl
pop_space-map (c ∷ []) = unfold normalize_lowercase_code_point in (ground arith)
pop_space-map (c ∷ c' ∷ cs) = ap (◌∷◌ (normalize_lowercase_code_point c)) (pop_space-map (c' ∷ cs))

trim-map :
    (cs : List ℕ)
    → trim (map normalize_lowercase_code_point cs) ≡ map normalize_lowercase_code_point (trim cs)
unfolding trim
trim-map cs = ap pop_space (collapse-map true cs) ∙ pop_space-map (collapse true cs)

map_twice :
    (cs : List ℕ)
    → map normalize_lowercase_code_point (map normalize_lowercase_code_point cs)
      ≡ map normalize_lowercase_code_point cs
map_twice [] = refl
map_twice (c ∷ cs) = ap₂ ◌∷◌ (normalize-normalize c) (map_twice cs)

-- The normalisation of a valid UTF-8 text is a valid UTF-8 text.
pub normalize_text-valid :
    (bs : List ℕ) → is_valid_utf8 bs ≡ true → is_valid_utf8 (normalize_text bs) ≡ true
normalize_text-valid bs v =
    let (cs, scalars, is) = valid-scalars bs v in
    subst (λ t. is_valid_utf8 (normalize_text t) ≡ true) is
      (rw (normalize_text-encode_all cs scalars)
        (encode_all-valid _ (map-scalars (trim cs) (trim-scalars cs scalars))))

normalize_text_twice_encoded :
    (cs : List ℕ)
    → All IsScalar cs
    → normalize_text (normalize_text (encode_all cs)) ≡ normalize_text (encode_all cs)
normalize_text_twice_encoded cs h =
    let lowered = map normalize_lowercase_code_point (trim cs) in
    rw (normalize_text-encode_all cs h) (
      normalize_text-encode_all lowered (map-scalars (trim cs) (trim-scalars cs h))
      ∙ ap (λ t. encode_all (map normalize_lowercase_code_point t))
          (trim-map (trim cs) ∙ ap (map normalize_lowercase_code_point) (trim-trim cs))
      ∙ ap encode_all (map_twice (trim cs)))

-- Normalising a valid UTF-8 text twice is normalising it once.
pub normalize_text-normalize_text :
    (bs : List ℕ) → is_valid_utf8 bs ≡ true → normalize_text (normalize_text bs) ≡ normalize_text bs
normalize_text-normalize_text bs v =
    let (cs, scalars, is) = valid-scalars bs v in
    subst (λ t. normalize_text (normalize_text t) ≡ normalize_text t) is
      (normalize_text_twice_encoded cs scalars)
