-- ===== src/Text/Normalize/Lowercase.antt =====
-- Lowercasing the UTF-8 text of scalar values is lowercasing its code points.
use librova.Text.Normalize.{lowercase_from, normalize_lowercase_code_point, is_whitespace_byte}
use librova.Base.{
  ℕ, List, ◌≡◌, drop, All, arith, length, some, map, suc, ◌++◌, drop-append, ◌∷◌, zero, [], refl,
  ◌<◌, ◌-◌, ◌∙◌, ap,
}
use librova.Text.CodePoint.{encode_all, IsScalar, try_decode, encode}
use librova.Text.CodePoint.Decoded.{try_decode-encode}

lowercase_from-drop : (k : ℕ) (bs : List ℕ) → lowercase_from k bs ≡ lowercase_from 0 (drop k bs)
unfolding lowercase_from
lowercase_from-drop zero bs = refl
lowercase_from-drop (suc k) [] = refl
lowercase_from-drop (suc k) (b ∷ bs) = lowercase_from-drop k bs

-- One round of the loop where the decoder finds a code point.
lowercase_step :
    (b c n : ℕ) (bs : List ℕ)
    → 0 < n
    → try_decode (b ∷ bs) ≡ some (c, n)
    → lowercase_from 0 (b ∷ bs)
      ≡ encode (normalize_lowercase_code_point c) ++ lowercase_from 0 (drop n (b ∷ bs))
unfolding lowercase_from
lowercase_step b c zero bs h e = absurd (omega arith)
lowercase_step b c (suc n) bs h e =
    let one : suc n - 1 ≡ n = omega arith in
    rw (e, lowercase_from, one)
      (ap (◌++◌ (encode (normalize_lowercase_code_point c))) (lowercase_from-drop n bs))

pub length-encode-pos : (c : ℕ) → 0 < length (encode c)
unfolding encode
length-encode-pos c = ground arith

lowercase_at :
    (bs : List ℕ) (c n : ℕ)
    → 0 < n
    → try_decode bs ≡ some (c, n)
    → lowercase_from 0 bs
      ≡ encode (normalize_lowercase_code_point c) ++ lowercase_from 0 (drop n bs)
unfolding try_decode
lowercase_at [] c n h e = cc
lowercase_at (b ∷ bs) c n h e = lowercase_step b c n bs h e

-- On the encoding of scalar values the loop lowercases each of them.
pub lowercase-encode_all :
    (cs : List ℕ)
    → All IsScalar cs
    → lowercase_from 0 (encode_all cs) ≡ encode_all (map normalize_lowercase_code_point cs)
unfolding encode_all
lowercase-encode_all [] h = unfold lowercase_from in refl
lowercase-encode_all (c ∷ cs) h =
    lowercase_at (encode c ++ encode_all cs) c (length (encode c)) (length-encode-pos c)
      (try_decode-encode c (encode_all cs) (ground (arith, h.0)))
    ∙ ap (◌++◌ (encode (normalize_lowercase_code_point c))) (
        ap (lowercase_from 0) (drop-append (encode c) (encode_all cs))
        ∙ lowercase-encode_all cs h.1)

pub normalize-IsScalar : (c : ℕ) → IsScalar c → IsScalar (normalize_lowercase_code_point c)
unfolding normalize_lowercase_code_point
normalize-IsScalar c h = ground arith

pub normalize-normalize :
    (c : ℕ)
    → normalize_lowercase_code_point (normalize_lowercase_code_point c)
      ≡ normalize_lowercase_code_point c
unfolding normalize_lowercase_code_point
normalize-normalize c = ground arith

-- Lowercasing neither makes nor removes white space.
pub is_whitespace-normalize :
    (c : ℕ) → is_whitespace_byte (normalize_lowercase_code_point c) ≡ is_whitespace_byte c
unfolding normalize_lowercase_code_point is_whitespace_byte
is_whitespace-normalize c = ground arith
