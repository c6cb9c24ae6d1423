-- ===== src/Text/Isbn/Exact.antt =====
-- What NormalizeIsbn accepts.
use librova.Base.{
  ℕ, List, ◌≤◌, length, ◌+◌, ◌≡◌, All, some, ◌⊎◌, true, ◌↔◌, Bool-cases, inl, ◌==◌, eq→==, subst,
  ==→eq, inr, arith, ◌∷◌, [], refl, Bool, if◌then◌else◌, none, false,
}
use librova.Text.Isbn.{accept_ten, all_digits, normalize_isbn, isbn_characters, accept, is_digit}

abbrev IsDigit : ℕ → Type 0
IsDigit b = (b'0' ≤ b) × (b ≤ b'9')

-- From an index on, every character is a digit, or an X that stands at index 9.
abbrev IsTenFrom : ℕ → List ℕ → Type 0
IsTenFrom index [] = Unit {0}
IsTenFrom index (b ∷ rest) = (IsDigit b ⊎ ((index ≡ 9) × (b ≡ b'X'))) × IsTenFrom (index + 1) rest

abbrev pub IsIsbn : List ℕ → Type 0
IsIsbn n = ((length n ≡ 10) × IsTenFrom 0 n) ⊎ ((length n ≡ 13) × All IsDigit n)

ten-IsTenFrom :
    (index : ℕ) (n : List ℕ) → index + length n ≡ 10 → accept_ten index n ≡ true → IsTenFrom index n
unfolding accept_ten
ten-IsTenFrom index [] e h = tt
ten-IsTenFrom index (b ∷ []) e h = ground arith
ten-IsTenFrom index (b ∷ b' ∷ rest) e h =
    let digit : is_digit b ≡ true = ground arith in
    let later : accept_ten (index + 1) (b' ∷ rest) ≡ true = ground arith in
    (inl (ground arith), ten-IsTenFrom (index + 1) (b' ∷ rest) (omega arith) later)

IsTenFrom-ten : (index : ℕ) (n : List ℕ) → IsTenFrom index n → accept_ten index n ≡ true
unfolding accept_ten
IsTenFrom-ten index [] h = refl
IsTenFrom-ten index (b ∷ rest) h = ground (arith, h.0, IsTenFrom-ten (index + 1) rest h.1)

all_digits-All : (n : List ℕ) → all_digits n ≡ true → All IsDigit n
unfolding all_digits
all_digits-All [] h = tt
all_digits-All (b ∷ rest) h = ground (arith, all_digits-All rest)

All-all_digits : (n : List ℕ) → All IsDigit n → all_digits n ≡ true
unfolding all_digits
All-all_digits [] h = refl
All-all_digits (b ∷ rest) h = ground (arith, h.0, All-all_digits rest h.1)

accept-IsIsbn : (n : List ℕ) → accept n ≡ true → IsIsbn n
accept-IsIsbn n h = elim (Bool-cases (length n == 10)) [
  | inl e ↦ inl (==→eq _ _ e, ten-IsTenFrom 0 n (omega (arith, ==→eq _ _ e)) (rw e at h))
  | inr e ↦ elim (Bool-cases (length n == 13)) [
    | inl e' ↦ inr (==→eq _ _ e', all_digits-All n (rw (e, e') at h))
    | inr e' ↦ cc (rw (e, e') at h)
  ]
]

IsIsbn-accept : (n : List ℕ) → IsIsbn n → accept n ≡ true
IsIsbn-accept n (inl (e, h)) = rw (eq→== _ _ e) (IsTenFrom-ten 0 n h)
IsIsbn-accept n (inr (e, h)) = rw e (All-all_digits n h)

kept_if :
    (t : Bool) (m : List ℕ) {n : List ℕ}
    → (if t then some m else none) ≡ some n
    → (t ≡ true) × (m ≡ n)
kept_if true m h = (refl, ground arith)
kept_if false m h = cc

-- NormalizeIsbn gives a text exactly when that text is what is left of the value (its digits, and
-- its letters x as X, in order) and is an ISBN: ten characters, all digits but for an X that may
-- stand last, or thirteen digits.
pub normalize_isbn_iff :
    (value n : List ℕ)
    → (normalize_isbn (some value) ≡ some n) ↔ ((isbn_characters value ≡ n) × IsIsbn n)
unfolding normalize_isbn
normalize_isbn_iff value n = (
  λ h.
      let (e, is) = kept_if (accept (isbn_characters value)) (isbn_characters value) h in
      (is, accept-IsIsbn n (subst (λ t. accept t ≡ true) is e)),
  λ h. rw (h.0, IsIsbn-accept n h.1),
)

characters_of_ten : (index : ℕ) (n : List ℕ) → IsTenFrom index n → isbn_characters n ≡ n
unfolding isbn_characters
characters_of_ten index [] h = refl
characters_of_ten index (b ∷ rest) h = ground (arith, h.0, characters_of_ten (index + 1) rest h.1)

characters_of_digits : (n : List ℕ) → All IsDigit n → isbn_characters n ≡ n
unfolding isbn_characters
characters_of_digits [] h = refl
characters_of_digits (b ∷ rest) h = ground (arith, h.0, characters_of_digits rest h.1)

characters_of_isbn : (n : List ℕ) → IsIsbn n → isbn_characters n ≡ n
characters_of_isbn n (inl (_, h)) = characters_of_ten 0 n h
characters_of_isbn n (inr (_, h)) = characters_of_digits n h

-- What NormalizeIsbn has given for a value it gives again for that text itself.
normalize_isbn_twice :
    (value n : List ℕ) → normalize_isbn (some value) ≡ some n → normalize_isbn (some n) ≡ some n
normalize_isbn_twice value n h =
    let (_, isbn) = (normalize_isbn_iff value n).0 h in
    (normalize_isbn_iff n n).1 (characters_of_isbn n isbn, isbn)
