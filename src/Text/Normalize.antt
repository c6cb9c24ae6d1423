-- ===== src/Text/Normalize.antt =====
-- libs/Domain/MetadataNormalization.cpp: NormalizeText and what it calls, NormalizeOptionalText.
-- `std::tolower` is that of the "C" locale.
pub mod Whitespace
pub mod Lowercase
pub mod Whole
use librova.Text.CodePoint.{encode, try_decode}
use librova.Base.{
  ℕ, Bool, List, Option, ◌==◌, if◌then◌else◌, true, none, suc, some, ◌||◌, between, leb, ◌+◌, ◌∷◌,
  ◌++◌, [], ◌-◌, zero,
}

unfoldable pub is_whitespace_byte : ℕ → Bool
is_whitespace_byte b = b == b' ' || b == 0x09 || b == 0x0A || b == 0x0D

-- std::tolower on an ASCII code
abbrev to_lower_ascii : ℕ → ℕ
to_lower_ascii c = if between b'A' b'Z' c then c + 32 else c

-- The cases of the switch are each 0x50 below what they return; 0x0401 has been returned above it.
unfoldable pub normalize_lowercase_code_point : ℕ → ℕ
normalize_lowercase_code_point c =
    if leb c 0x7F
    then to_lower_ascii c
    else if c == 0x0401 || c == 0x0451
    then 0x0435
    else if between 0x0410 0x042F c
    then c + 0x20
    else if between 0x0400 0x040F c
    then (if c == 0x0400 || between 0x0402 0x040F c then c + 0x50 else c)
    else c

-- AppendLowercasedNormalizedUtf8: the bytes that the loop appends, with the number of bytes of the
-- current sequence that are still to be passed over.
unfoldable pub lowercase_from : ℕ → List ℕ → List ℕ
lowercase_from skip [] = []
lowercase_from (suc skip) (b ∷ rest) = lowercase_from skip rest
lowercase_from zero (b ∷ rest) = elim (try_decode (b ∷ rest)) [
  | none ↦ b ∷ lowercase_from zero rest
  | some (code_point, sequence_length) ↦
      encode (normalize_lowercase_code_point code_point)
      ++ lowercase_from (sequence_length - 1) rest
]

-- The first loop of NormalizeText: the bytes that it pushes, from the flag `previousWasWhitespace`.
unfoldable pub collapse : Bool → List ℕ → List ℕ
collapse previous_was_whitespace [] = []
collapse previous_was_whitespace (b ∷ rest) =
    let white = is_whitespace_byte b in
    let pushed = collapse white rest in
    if white then (if previous_was_whitespace then pushed else b' ' ∷ pushed) else b ∷ pushed

-- `if (!trimmed.empty() && trimmed.back() == ' ') trimmed.pop_back();`
unfoldable pub pop_space : List ℕ → List ℕ
pop_space [] = []
pop_space (b ∷ []) = if b == b' ' then [] else b ∷ []
pop_space (b ∷ b' ∷ rest) = b ∷ pop_space (b' ∷ rest)

unfoldable pub trim : List ℕ → List ℕ
unfolding collapse pop_space
trim value = pop_space (collapse true value)

unfoldable pub normalize_text : List ℕ → List ℕ
unfolding trim lowercase_from
normalize_text value = lowercase_from 0 (trim value)

-- normalized.empty()
unfoldable pub non_empty : List ℕ → Option (List ℕ)
non_empty [] = none
non_empty (b ∷ rest) = some (b ∷ rest)

unfoldable pub normalize_optional_text : Option (List ℕ) → Option (List ℕ)
unfolding non_empty
normalize_optional_text none = none
normalize_optional_text (some value) = non_empty (normalize_text value)
