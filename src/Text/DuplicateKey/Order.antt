-- ===== src/Text/DuplicateKey/Order.antt =====
-- The key does not depend on the order of the authors.
use mathlib.Core.List.{Perm, Permᴰ}
use mathlib.Core.Logic.{∥∥₁_elim}
use librova.Base.{
  Option, List, ℕ, ◌≡◌, some, map, ◌∷◌, ◌∙◌, Option-cases, ap₂, none, sym, ◌++◌, inl, refl, [], ap,
  inr,
}
use librova.Text.DuplicateKey.{
  normalized_authors, build_duplicate_key, sort_texts, insert_text, join_names,
}
use librova.Text.Normalize.{normalize_text, non_empty}
use librova.Text.DuplicateKey.Sorted.{insert-insert}

-- What one more author does to the sorted names.
place : Option (List ℕ) → List (List ℕ) → List (List ℕ)
place none names = names
place (some name) names = insert_text name names

place-place :
    (o p : Option (List ℕ)) (names : List (List ℕ))
    → place o (place p names) ≡ place p (place o names)
unfolding place
place-place none p names = refl
place-place (some a) none names = refl
place-place (some a) (some b) names = insert-insert a b names

-- The names that are not empty.
named : List (List ℕ) → List (List ℕ)
named [] = []
named (name ∷ rest) = elim (non_empty name) [ none ↦ named rest | some kept ↦ kept ∷ named rest ]

normalized_authors-eq-named :
    (authors : List (List ℕ)) → normalized_authors authors ≡ named (map normalize_text authors)
unfolding normalized_authors named
normalized_authors-eq-named [] = refl
normalized_authors-eq-named (a ∷ rest) = elim (Option-cases (non_empty (normalize_text a))) [
  | inl e ↦ rw (e, normalized_authors, named) (normalized_authors-eq-named rest)
  | inr (name, e) ↦
      rw (e, normalized_authors, named) (ap (◌∷◌ name) (normalized_authors-eq-named rest))
]

sorted_name :
    (name : List ℕ) (rest : List (List ℕ))
    → sort_texts (named (name ∷ rest)) ≡ place (non_empty name) (sort_texts (named rest))
unfolding named place
sorted_name name rest = elim (Option-cases (non_empty name)) [
  | inl e ↦ rw (e, named) refl
  | inr (kept, e) ↦ rw (e, named) (unfold sort_texts in refl)
]

sorted-perm : {xs ys : List (List ℕ)} → Permᴰ xs ys → sort_texts (named xs) ≡ sort_texts (named ys)
sorted-perm Permᴰ.nil = refl
sorted-perm (Permᴰ.cons {a = a} {b = b} {l₁ = xs} {l₂ = ys} e p) =
    sorted_name a xs ∙ ap₂ (λ n l. place (non_empty n) l) e (sorted-perm p) ∙ sym (sorted_name b ys)
sorted-perm (Permᴰ.swap {a = a} {b = b} {a' = a'} {b' = b'} {l = rest} e e') =
    sorted_name a (b ∷ rest)
    ∙ ap (place (non_empty a)) (sorted_name b rest)
    ∙ place-place (non_empty a) (non_empty b) _
    ∙ ap₂ (λ x y. place (non_empty x) (place (non_empty y) (sort_texts (named rest)))) e' e
    ∙ ap (place (non_empty a')) (sym (sorted_name b' rest))
    ∙ sym (sorted_name a' (b' ∷ rest))
sorted-perm (Permᴰ.trans p q) = sorted-perm p ∙ sorted-perm q

-- Two books whose titles are equal after normalisation, and whose normalised author names are the
-- same up to their order, have the same duplicate key.
pub build_duplicate_key-perm :
    (title title' : List ℕ) (authors authors' : List (List ℕ))
    → normalize_text title ≡ normalize_text title'
    → Perm (map normalize_text authors) (map normalize_text authors')
    → build_duplicate_key title authors ≡ build_duplicate_key title' authors'
unfolding build_duplicate_key
build_duplicate_key-perm title title' authors authors' e p = ∥∥₁_elim p (texts_set _ _) λ q.
    ap₂ (λ t names. t ++ (b'|' ∷ b'|' ∷ join_names names)) e
      (ap sort_texts (normalized_authors-eq-named authors)
        ∙ sorted-perm q
        ∙ sym (ap sort_texts (normalized_authors-eq-named authors')))
  where
    texts_set : IsSet (List ℕ)
    texts_set = hlevel
