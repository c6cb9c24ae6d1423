-- ===== src/Text/Isbn.antt =====
-- libs/Domain/MetadataNormalization.cpp: NormalizeIsbn. `std::isdigit` is that of the "C" locale.
pub mod Exact
use librova.Base.{
  ℕ, List, Option, Bool, some, between, true, if◌then◌else◌, length, none, ◌==◌, false, ◌∷◌, ◌||◌,
  ◌+◌, ◌&&◌, not, [],
}

abbrev pub is_digit : ℕ → Bool
is_digit b = between b'0' b'9' b

-- The loop over the value: the characters that it pushes.
unfoldable pub isbn_characters : List ℕ → List ℕ
isbn_characters [] = []
isbn_characters (b ∷ rest) =
    let pushed = isbn_characters rest in
    if is_digit b then b ∷ pushed else if b == b'x' || b == b'X' then b'X' ∷ pushed else pushed

-- The loop over a text of ten characters, from an index on: whether it returns the text.
unfoldable pub accept_ten : ℕ → List ℕ → Bool
accept_ten index [] = true
accept_ten index (b ∷ rest) =
    let later = accept_ten (index + 1) rest in
    if index == 9 && b == b'X' then true else if not (is_digit b) then false else later

-- std::ranges::all_of
unfoldable pub all_digits : List ℕ → Bool
all_digits [] = true
all_digits (b ∷ rest) = is_digit b && all_digits rest

abbrev pub accept : List ℕ → Bool
accept normalized =
    if length normalized == 10
    then accept_ten 0 normalized
    else if length normalized == 13
    then all_digits normalized
    else false

unfoldable pub normalize_isbn : Option (List ℕ) → Option (List ℕ)
unfolding isbn_characters accept_ten all_digits
normalize_isbn none = none
normalize_isbn (some value) =
    let normalized = isbn_characters value in if accept normalized then some normalized else none
