-- ===== src/Text/DuplicateKey.antt =====
-- libs/Domain/MetadataNormalization.cpp: BuildDuplicateKey. `std::sort` of byte strings is modelled
-- by an insertion sort in the order of `std::string`, which decides the result: equal strings are
-- the same string.
pub mod Sorted
pub mod Order
use librova.Base.{
  none, some, List, ℕ, Bool, ◌∷◌, true, if◌then◌else◌, ◌++◌, [], false, ltb, ◌==◌, ◌&&◌,
}
use librova.Text.Normalize.{non_empty, normalize_text}

-- `a <= b` in the lexicographic order of `std::string`
pub text_le : List ℕ → List ℕ → Bool
text_le [] b = true
text_le (x ∷ a) [] = false
text_le (x ∷ a) (y ∷ b) = let tails = text_le a b in if ltb x y then true else x == y && tails

pub insert_text : List ℕ → List (List ℕ) → List (List ℕ)
insert_text a [] = a ∷ []
insert_text a (b ∷ rest) =
    let later = insert_text a rest in if text_le a b then a ∷ b ∷ rest else b ∷ later

pub sort_texts : List (List ℕ) → List (List ℕ)
unfolding insert_text text_le
sort_texts [] = []
sort_texts (a ∷ rest) = insert_text a (sort_texts rest)

-- The loop over the authors: the normalised names that are not empty.
pub normalized_authors : List (List ℕ) → List (List ℕ)
unfolding non_empty
normalized_authors [] = []
normalized_authors (author ∷ rest) = elim (non_empty (normalize_text author)) [
  | none ↦ normalized_authors rest
  | some name ↦ name ∷ normalized_authors rest
]

-- The loop over the sorted names, from the second on, with a bar before each.
bars : List (List ℕ) → List ℕ
bars [] = []
bars (name ∷ rest) = b'|' ∷ (name ++ bars rest)

join_names : List (List ℕ) → List ℕ
unfolding bars
join_names [] = []
join_names (name ∷ rest) = name ++ bars rest

unfoldable pub build_duplicate_key : List ℕ → List (List ℕ) → List ℕ
unfolding normalized_authors sort_texts join_names
build_duplicate_key title_utf8 authors_utf8 =
    normalize_text title_utf8
    ++ (b'|' ∷ b'|' ∷ join_names (sort_texts (normalized_authors authors_utf8)))
