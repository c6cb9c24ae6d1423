-- ===== src/Text/CodePoint.antt =====
-- libs/Domain/MetadataNormalization.cpp: TryDecodeUtf8CodePoint, AppendUtf8CodePoint.
-- `x & (2^k - 1)` is `x % 2 ^ k`, `x >> k` is `x / 2 ^ k`, and the `|` of fields with no bit in
-- common is their sum; `b & 0xE0` on a byte is `b / 32 * 32`, and so on for the other high masks.
pub mod Decoded
use librova.Base.{
  ℕ, ◌+◌, ◌*◌, ◌/◌, ◌%◌, ◌==◌, ◌<◌, ◌⊎◌, List, [], ◌∷◌, ◌++◌, Option, none, some, leb, ltb, ◌&&◌,
  if◌then◌else◌, Bool,
}

-- AppendUtf8CodePoint: the bytes that it appends.
unfoldable pub encode : ℕ → List ℕ
encode c =
    if leb c 0x7F
    then c ∷ []
    else if leb c 0x7FF
    then (0xC0 + c / 64 % 32) ∷ (0x80 + c % 64) ∷ []
    else if leb c 0xFFFF
    then (0xE0 + c / 4096 % 16) ∷ (0x80 + c / 64 % 64) ∷ (0x80 + c % 64) ∷ []
    else (0xF0 + c / 262144 % 8)
      ∷ (0x80 + c / 4096 % 64)
      ∷ (0x80 + c / 64 % 64)
      ∷ (0x80 + c % 64)
      ∷ []

-- (b & 0xC0) == 0x80
abbrev pub is_continuation : ℕ → Bool
is_continuation b = b / 64 * 64 == 0x80

decode_two : ℕ → List ℕ → Option (ℕ × ℕ)
decode_two b0 (b1 ∷ _) = if is_continuation b1 then some (b0 % 32 * 64 + b1 % 64, 2) else none
decode_two b0 _ = none

decode_three : ℕ → List ℕ → Option (ℕ × ℕ)
decode_three b0 (b1 ∷ b2 ∷ _) =
    if is_continuation b1 && is_continuation b2
    then some (b0 % 16 * 4096 + b1 % 64 * 64 + b2 % 64, 3)
    else none
decode_three b0 _ = none

decode_four : ℕ → List ℕ → Option (ℕ × ℕ)
decode_four b0 (b1 ∷ b2 ∷ b3 ∷ _) =
    if is_continuation b1 && is_continuation b2 && is_continuation b3
    then some (b0 % 8 * 262144 + b1 % 64 * 4096 + b2 % 64 * 64 + b3 % 64, 4)
    else none
decode_four b0 _ = none

-- TryDecodeUtf8CodePoint on the text from the index on: the code point and its length.
unfoldable pub try_decode : List ℕ → Option (ℕ × ℕ)
unfolding decode_two decode_three decode_four
try_decode [] = none
try_decode (b0 ∷ rest) =
    if ltb b0 0x80
    then some (b0, 1)
    else if b0 / 32 * 32 == 0xC0
    then decode_two b0 rest
    else if b0 / 16 * 16 == 0xE0
    then decode_three b0 rest
    else if b0 / 8 * 8 == 0xF0
    then decode_four b0 rest
    else none

-- Unicode scalar values: all code points but the surrogates.
abbrev pub IsScalar : ℕ → Type 0
IsScalar c = (c < 0xD800) ⊎ ((0xDFFF < c) × (c < 0x110000))

-- The UTF-8 text of code points.
unfoldable pub encode_all : List ℕ → List ℕ
encode_all [] = []
encode_all (c ∷ cs) = encode c ++ encode_all cs
