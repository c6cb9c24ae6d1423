-- ===== src/Text/Utf8/Exact.antt =====
-- IsValidUtf8 against the definition of UTF-8: a text is valid if it is the encoding of a list of
use librova.Base.{List, ℕ, ◌≡◌, true, ◌↔◌, All, subst}
use librova.Text.Utf8.{is_valid_utf8}
use librova.Text.CodePoint.{IsScalar, encode_all}
use librova.Text.Utf8.Sound.{valid-scalars}
use librova.Text.Utf8.Complete.{encode_all-valid}

-- Unicode scalar values.

-- The check of a byte string returns true exactly when some list of scalar values (code points below
-- 0x110000 other than the surrogates) has that byte string as its UTF-8 encoding.
pub is_valid_utf8_iff :
    (bs : List ℕ)
    → (is_valid_utf8 bs ≡ true) ↔ ((cs : List ℕ) × All IsScalar cs × (encode_all cs ≡ bs))
is_valid_utf8_iff bs =
    (valid-scalars bs, λ e. subst (λ t. is_valid_utf8 t ≡ true) e.2 (encode_all-valid e.0 e.1))
