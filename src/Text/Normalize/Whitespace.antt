-- ===== src/Text/Normalize/Whitespace.antt =====
-- Trimming and the collapsing of white space, over any list of codes.
use librova.Base.{
  Bool, List, ℕ, ◌≡◌, true, ◌∷◌, false, if◌then◌else◌, arith, ◌⊎◌, Bool-cases, ap, [], inl, refl,
  inr,
}
use librova.Text.Normalize.{collapse, pop_space, trim, is_whitespace_byte}

-- After white space (or at the start) no space follows; the only white space is the space.
abbrev pub IsCollapsed : Bool → List ℕ → Type 0
IsCollapsed white [] = Unit {0}
IsCollapsed white (b ∷ rest) =
    ((is_whitespace_byte b ≡ false) ⊎ ((b ≡ b' ') × (white ≡ false)))
    × IsCollapsed (is_whitespace_byte b) rest

space_white : is_whitespace_byte b' ' ≡ true
unfolding is_whitespace_byte
space_white = refl

after_space :
    (white : Bool) (pushed : List ℕ)
    → IsCollapsed true pushed
    → IsCollapsed white (if white then pushed else b' ' ∷ pushed)
after_space true pushed h = h
after_space false pushed h = (inr (refl, refl), rw space_white h)

pub collapse-IsCollapsed : (white : Bool) (bs : List ℕ) → IsCollapsed white (collapse white bs)
unfolding collapse
collapse-IsCollapsed white [] = tt
collapse-IsCollapsed white (b ∷ bs) = elim (Bool-cases (is_whitespace_byte b)) [
  | inl e ↦ rw e (after_space white (collapse true bs) (collapse-IsCollapsed true bs))
  | inr e ↦ rw e (rw e (inl refl, collapse-IsCollapsed false bs))
]

-- What is collapsed stays.
collapse_of_collapsed : (white : Bool) (bs : List ℕ) → IsCollapsed white bs → collapse white bs ≡ bs
unfolding collapse is_whitespace_byte
collapse_of_collapsed white [] h = refl
collapse_of_collapsed white (b ∷ bs) h =
    ground (arith, collapse_of_collapsed (is_whitespace_byte b) bs h.1)

pop_space-IsCollapsed :
    (white : Bool) (bs : List ℕ) → IsCollapsed white bs → IsCollapsed white (pop_space bs)
unfolding pop_space
pop_space-IsCollapsed white [] h = tt
pop_space-IsCollapsed white (b ∷ []) h = ground arith
pop_space-IsCollapsed white (b ∷ b' ∷ bs) h =
    (h.0, pop_space-IsCollapsed (is_whitespace_byte b) (b' ∷ bs) h.1)

pop_space_twice :
    (white : Bool) (bs : List ℕ) → IsCollapsed white bs → pop_space (pop_space bs) ≡ pop_space bs
unfolding pop_space is_whitespace_byte
pop_space_twice white [] h = refl
pop_space_twice white (b ∷ []) h = ground arith
pop_space_twice white (b ∷ b' ∷ []) h = ground arith
pop_space_twice white (b ∷ b' ∷ b'' ∷ bs) h =
    ap (◌∷◌ b) (pop_space_twice (is_whitespace_byte b) (b' ∷ b'' ∷ bs) h.1)

-- Trimming a trimmed text changes nothing.
pub trim-trim : (bs : List ℕ) → trim (trim bs) ≡ trim bs
unfolding trim
trim-trim bs =
    let flat = collapse-IsCollapsed true bs in
    rw
      (collapse_of_collapsed true (pop_space (collapse true bs))
        (pop_space-IsCollapsed true _ flat))
      (pop_space_twice true _ flat)
