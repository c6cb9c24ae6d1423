-- ===== src/Text/Examples.antt =====
-- Tests of the text handling, and its theorems at concrete texts.
use mathlib.Core.List.Perm
use librova.Base.{List, ℕ, some, ◌≡◌, ◌∷◌, [], true, ◌↔◌, refl, false, All, ◌++◌, length, arith}
use librova.Text.Utf8.{is_valid_utf8, sequence_length}
use librova.Text.Normalize.{
  normalize_text, lowercase_from, is_whitespace_byte, normalize_lowercase_code_point,
}
use librova.Text.Isbn.{normalize_isbn, isbn_characters}
use librova.Text.DuplicateKey.{build_duplicate_key}
use librova.Text.Normalize.Whole.{normalize_text-normalize_text, normalize_text-valid}
use librova.Text.Isbn.Exact.{IsIsbn, normalize_isbn_iff}
use librova.Text.DuplicateKey.Order.{build_duplicate_key-perm}
use librova.Text.CodePoint.{try_decode, IsScalar, encode, encode_all}
use librova.Text.Utf8.Exact.{is_valid_utf8_iff}
use librova.Text.CodePoint.Decoded.{try_decode-encode}

-- "  ЁЖ \t b", in UTF-8
abbrev padded : List ℕ
padded = 32 ∷ 32 ∷ 0xD0 ∷ 0x81 ∷ 0xD0 ∷ 0x96 ∷ 32 ∷ 9 ∷ 32 ∷ b'B' ∷ []

padded_valid : is_valid_utf8 padded ≡ true
unfolding is_valid_utf8 sequence_length
padded_valid = refl

-- "еж b"
padded_normalized : normalize_text padded ≡ 0xD0 ∷ 0xB5 ∷ 0xD0 ∷ 0xB6 ∷ 32 ∷ b'b' ∷ []
unfolding normalize_text lowercase_from is_whitespace_byte normalize_lowercase_code_point try_decode
    encode
padded_normalized = refl

-- An encoded surrogate and an overlong slash are refused.
surrogate_invalid : is_valid_utf8 (0xED ∷ 0xA0 ∷ 0x80 ∷ []) ≡ false
unfolding is_valid_utf8 sequence_length
surrogate_invalid = refl

overlong_invalid : is_valid_utf8 (0xC0 ∷ 0xAF ∷ []) ≡ false
unfolding is_valid_utf8 sequence_length
overlong_invalid = refl

abbrev hyphenated : List ℕ
hyphenated =
    b'0' ∷ b'-' ∷ b'8' ∷ b'0' ∷ b'4' ∷ b'4' ∷ b'-' ∷ b'2' ∷ b'9' ∷ b'5' ∷ b'7' ∷ b'-' ∷ b'x' ∷ []

abbrev isbn_ten : List ℕ
isbn_ten = b'0' ∷ b'8' ∷ b'0' ∷ b'4' ∷ b'4' ∷ b'2' ∷ b'9' ∷ b'5' ∷ b'7' ∷ b'X' ∷ []

hyphenated_normalized : normalize_isbn (some hyphenated) ≡ some isbn_ten
unfolding normalize_isbn
hyphenated_normalized = refl

is_valid_utf8_iff_example :
    (is_valid_utf8 padded ≡ true) ↔ ((cs : List ℕ) × All IsScalar cs × (encode_all cs ≡ padded))
is_valid_utf8_iff_example = is_valid_utf8_iff padded

normalize_text-valid_example : is_valid_utf8 (normalize_text padded) ≡ true
normalize_text-valid_example = normalize_text-valid padded padded_valid

normalize_text-normalize_text_example :
    normalize_text (normalize_text padded) ≡ normalize_text padded
normalize_text-normalize_text_example = normalize_text-normalize_text padded padded_valid

normalize_isbn_iff_example :
    (normalize_isbn (some hyphenated) ≡ some isbn_ten)
    ↔ ((isbn_characters hyphenated ≡ isbn_ten) × IsIsbn isbn_ten)
normalize_isbn_iff_example = normalize_isbn_iff hyphenated isbn_ten

same_normal : normalize_text (b'A' ∷ []) ≡ normalize_text (b'a' ∷ [])
unfolding normalize_text lowercase_from is_whitespace_byte normalize_lowercase_code_point try_decode
    encode
same_normal = refl

build_duplicate_key-perm_example :
    build_duplicate_key (b'A' ∷ []) ((b'x' ∷ []) ∷ (b'y' ∷ []) ∷ [])
    ≡ build_duplicate_key (b'a' ∷ []) ((b'y' ∷ []) ∷ (b'x' ∷ []) ∷ [])
build_duplicate_key-perm_example =
    build_duplicate_key-perm (b'A' ∷ []) (b'a' ∷ []) ((b'x' ∷ []) ∷ (b'y' ∷ []) ∷ [])
      ((b'y' ∷ []) ∷ (b'x' ∷ []) ∷ []) same_normal (Perm.swap _ _ _)

-- U+0416 and a following letter
try_decode-encode_example :
    try_decode (encode 0x0416 ++ (b'b' ∷ [])) ≡ some (0x0416, length (encode 0x0416))
try_decode-encode_example = try_decode-encode 0x0416 (b'b' ∷ []) (omega arith)
