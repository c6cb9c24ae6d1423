-- ===== src/Text/DuplicateKey/Sorted.antt =====
-- The sort does not depend on the order of its input.
use librova.Text.DuplicateKey.{text_le, insert_text}
use librova.Base.{List, ℕ, ◌≡◌, true, false, arith, [], ◌∷◌, refl}

text_le_refl : (a : List ℕ) → text_le a a ≡ true
unfolding text_le
text_le_refl [] = refl
text_le_refl (x ∷ a) = ground (arith, text_le_refl a)

pub text_le_total : (a b : List ℕ) → text_le a b ≡ false → text_le b a ≡ true
unfolding text_le
text_le_total [] b h = cc
text_le_total (x ∷ a) [] h = refl
text_le_total (x ∷ a) (y ∷ b) h = ground (arith, text_le_total a b)

pub text_le_antisymm : (a b : List ℕ) → text_le a b ≡ true → text_le b a ≡ true → a ≡ b
unfolding text_le
text_le_antisymm [] [] h k = refl
text_le_antisymm [] (y ∷ b) h k = cc
text_le_antisymm (x ∷ a) [] h k = cc
text_le_antisymm (x ∷ a) (y ∷ b) h k = ground (arith, text_le_antisymm a b)

pub text_le_trans : (a b c : List ℕ) → text_le a b ≡ true → text_le b c ≡ true → text_le a c ≡ true
unfolding text_le
text_le_trans [] b c h k = refl
text_le_trans (x ∷ a) [] c h k = cc
text_le_trans (x ∷ a) (y ∷ b) [] h k = cc
text_le_trans (x ∷ a) (y ∷ b) (z ∷ c) h k = ground (arith, text_le_trans a b c)

-- Two insertions commute.
pub insert-insert :
    (a b : List ℕ) (l : List (List ℕ))
    → insert_text a (insert_text b l) ≡ insert_text b (insert_text a l)
unfolding insert_text
insert-insert a b [] = ground (arith, text_le_total a b, text_le_total b a, text_le_antisymm a b)
insert-insert a b (c ∷ l) = ground (
  arith,
  insert-insert a b l,
  text_le_total a b,
  text_le_total b a,
  text_le_antisymm a b,
  text_le_trans a b c,
  text_le_trans b a c,
)
