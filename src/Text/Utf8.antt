-- ===== src/Text/Utf8.antt =====
-- libs/Foundation/UnicodeConversion.cpp: IsValidUtf8.
pub mod Sound
pub mod Complete
pub mod Exact
use librova.Base.{
  ℕ, zero, suc, ◌-◌, ◌==◌, List, [], ◌∷◌, Option, none, some, Bool, true, false, leb, between, ◌&&◌,
  ◌||◌, if◌then◌else◌,
}

-- `i + 1 + n < len && lo <= bytes[i + 1 + n] && bytes[i + 1 + n] <= hi`
abbrev pub byte_in : ℕ → ℕ → ℕ → List ℕ → Bool
byte_in lo hi n [] = false
byte_in lo hi zero (b ∷ rest) = between lo hi b
byte_in lo hi (suc n) (b ∷ rest) = byte_in lo hi n rest

-- How far one round of the loop advances from the byte `b0` with `rest` behind it; `none` where it
-- returns false.
unfoldable pub sequence_length : ℕ → List ℕ → Option ℕ
sequence_length b0 rest =
    if leb b0 0x7F
    then some 1
    else if between 0xC2 0xDF b0 && byte_in 0x80 0xBF 0 rest
    then some 2
    else if b0 == 0xE0 && byte_in 0xA0 0xBF 0 rest && byte_in 0x80 0xBF 1 rest
    then some 3
    else if between 0xE1 0xEC b0 && byte_in 0x80 0xBF 0 rest && byte_in 0x80 0xBF 1 rest
    then some 3
    else if b0 == 0xED && byte_in 0x80 0x9F 0 rest && byte_in 0x80 0xBF 1 rest
    then some 3
    else if (b0 == 0xEE || b0 == 0xEF) && byte_in 0x80 0xBF 0 rest && byte_in 0x80 0xBF 1 rest
    then some 3
    else if b0 == 0xF0
        && byte_in 0x90 0xBF 0 rest
        && byte_in 0x80 0xBF 1 rest
        && byte_in 0x80 0xBF 2 rest
    then some 4
    else if between 0xF1 0xF3 b0
        && byte_in 0x80 0xBF 0 rest
        && byte_in 0x80 0xBF 1 rest
        && byte_in 0x80 0xBF 2 rest
    then some 4
    else if b0 == 0xF4
        && byte_in 0x80 0x8F 0 rest
        && byte_in 0x80 0xBF 1 rest
        && byte_in 0x80 0xBF 2 rest
    then some 4
    else none

-- The loop, with the number of bytes of the current sequence that are still to be passed over.
unfoldable pub validate : ℕ → List ℕ → Bool
validate skip [] = true
validate (suc skip) (b ∷ rest) = validate skip rest
validate zero (b0 ∷ rest) = elim (sequence_length b0 rest) [
  | none ↦ false
  | some n ↦ validate (n - 1) rest
]

unfoldable pub is_valid_utf8 : List ℕ → Bool
unfolding validate
is_valid_utf8 value = validate 0 value
