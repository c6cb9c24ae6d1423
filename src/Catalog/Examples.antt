-- ===== src/Catalog/Examples.antt =====
-- A repository of numbers as books: the state is the list of them, the number is
-- the id, and a removal empties the repository.
use librova.Base.{◌≡◌, ℕ, length, List, false, ◌∷◌, if◌then◌else◌, true, [], refl, inl}
use librova.Catalog.{BookRepository, add_batch, remove_batch, Insertion, added, duplicate_hash}
use librova.Rollback.{contains}
use librova.Base.Outcome.{ok}
use librova.Catalog.Batch.{remove_batch-gone}

abbrev insert : ℕ → List ℕ → Insertion × List ℕ
insert book w = (added book, book ∷ w)

abbrev sample : BookRepository (List ℕ) ℕ
sample = record {
  reserve_id = λ w. (ok (length w), w);
  add = λ book w. if contains book w then (duplicate_hash book, w) else insert book w;
  force_add = insert;
  remove = λ id w. (ok tt, []);
}

-- The third book is a duplicate, the fourth is forced.
add_batch-run :
    (add_batch sample ((3, false) ∷ (4, false) ∷ (3, false) ∷ (3, true) ∷ []) []).1 ≡ 3 ∷ 4 ∷ 3 ∷ []
unfolding add_batch
add_batch-run = refl

remove_batch-gone_example : contains 3 (remove_batch sample (4 ∷ 3 ∷ []) (3 ∷ 5 ∷ [])).1 ≡ false
unfolding remove_batch
remove_batch-gone_example =
    remove_batch-gone sample contains (λ id w e. refl) (λ id x w h. refl) (4 ∷ 3 ∷ []) 3
      (3 ∷ 5 ∷ []) (inl refl) refl
