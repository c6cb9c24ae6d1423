-- ===== src/Text/Utf8/Complete.antt =====
-- Every encoding of scalar values is valid.
use librova.Text.Utf8.{validate, sequence_length, is_valid_utf8}
use librova.Text.CodePoint.{encode, IsScalar, encode_all}
use librova.Base.{
  ℕ, List, ◌++◌, ◌≡◌, Bool-cases, leb, inl, arith, inr, All, true, ◌∷◌, ◌∙◌, [], refl,
}

-- One round of the loop passes over the encoding of a scalar value.
validate-encode :
    (c : ℕ) (rest : List ℕ) → IsScalar c → validate 0 (encode c ++ rest) ≡ validate 0 rest
unfolding validate sequence_length encode
validate-encode c rest h = elim (Bool-cases (leb c 0x7F)) [
  | inl e ↦ rw e (ground arith)
  | inr e ↦ rw e (elim (Bool-cases (leb c 0x7FF)) [
    | inl e' ↦ rw e' (ground arith)
    | inr e' ↦ rw e' (elim (Bool-cases (leb c 0xFFFF)) [
      | inl e'' ↦ rw e'' (ground arith)
      | inr e'' ↦ rw e'' (ground arith)
    ])
  ])
]

-- The encoding of scalar values is a text that the check accepts.
pub encode_all-valid : (cs : List ℕ) → All IsScalar cs → is_valid_utf8 (encode_all cs) ≡ true
unfolding is_valid_utf8 encode_all
encode_all-valid [] h = unfold validate in refl
encode_all-valid (c ∷ cs) h = validate-encode c (encode_all cs) h.0 ∙ encode_all-valid cs h.1
