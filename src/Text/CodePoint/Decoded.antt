-- ===== src/Text/CodePoint/Decoded.antt =====
-- Decoding after encoding.
use librova.Text.CodePoint.{try_decode, encode}
use librova.Base.{ℕ, List, ◌<◌, ◌++◌, ◌≡◌, some, length, Bool-cases, leb, inl, arith, inr}

-- The decoder reads back what the encoder wrote, whatever follows, for every code point of 21 bits.
pub try_decode-encode :
    (c : ℕ) (rest : List ℕ)
    → c < 0x200000
    → try_decode (encode c ++ rest) ≡ some (c, length (encode c))
unfolding try_decode encode
try_decode-encode c rest h = elim (Bool-cases (leb c 0x7F)) [
  | inl e ↦ rw e (ground arith)
  | inr e ↦ rw e (elim (Bool-cases (leb c 0x7FF)) [
    | inl e' ↦ rw e' (ground arith)
    | inr e' ↦ rw e' (elim (Bool-cases (leb c 0xFFFF)) [
      | inl e'' ↦ rw e'' (ground arith)
      | inr e'' ↦ rw e'' (ground arith)
    ])
  ])
]
