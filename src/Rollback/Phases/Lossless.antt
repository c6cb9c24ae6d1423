-- ===== src/Rollback/Phases/Lossless.antt =====
-- RollbackImportedBooks as a whole: a book that is still in the library afterwards is reported.
use librova.Base.{
  ◌≡◌, ℕ, List, String, Bool, ◌++◌, reverse, ◌||◌, true, ap, ◌∷◌, arith, Bool-cases, [], ◌==◌, refl,
  inl, sym, ==→eq, inr, length, false, reverse_aux, All-intro, subst, true≢false, ◌∙◌,
}
use librova.Rollback.{Catalog, Cleanup, contains, BookPaths}
use librova.Rollback.Phases.Accounting.{failed_among, clean_books-remaining}
use librova.Rollback.Phases.Removing.{ids, collect-covers, remove_books-Accounted}
use librova.Rollback.Phases.{
  rollback_imported_books, collect, remove_books, first_progress, clean_books,
}
use librova.Base.Outcome.{ok}
use librova.Rollback.Phases.Cleaning.{clean_books-keeps, Spares}

pub contains-append :
    (x : ℕ) (xs ys : List ℕ) → contains x (xs ++ ys) ≡ (contains x xs || contains x ys)
contains-append x [] ys = refl
contains-append x (y ∷ xs) ys = grind (arith, contains-append x xs ys)

pub contains-reverse_aux :
    (x : ℕ) (xs done : List ℕ)
    → contains x (reverse_aux xs done) ≡ (contains x xs || contains x done)
contains-reverse_aux x [] done = refl
contains-reverse_aux x (y ∷ xs) done = grind (arith, contains-reverse_aux x xs (y ∷ done))

contains-reverse : (x : ℕ) (xs : List ℕ) → contains x xs ≡ true → contains x (reverse xs) ≡ true
contains-reverse x xs h = rw (contains-reverse_aux x xs [], h) refl

contains-failed_among :
    (failed : List ℕ) (books : List BookPaths) (x : ℕ)
    → contains x (ids books) ≡ true
    → contains x failed ≡ true
    → contains x (failed_among failed books) ≡ true
unfolding failed_among
contains-failed_among failed [] x listed h = cc
contains-failed_among failed (bp ∷ rest) x listed h = elim (Bool-cases (x == bp.id)) [
  | inl same ↦ rw (sym (==→eq x bp.id same), h) (ground arith)
  | inr other ↦
      let later = contains-failed_among failed rest x (ground arith) h in
      elim (Bool-cases (contains bp.id failed)) [ inl e ↦ rw e (ground arith) | inr e ↦ rw e later ]
]

contains-remaining :
    (failed : List ℕ) (books : List BookPaths) (unreachable : List ℕ) (x : ℕ)
    → (contains x (ids books) || contains x unreachable) ≡ true
    → (contains x (ids books) ≡ true → contains x failed ≡ true)
    → contains x (failed_among failed books ++ unreachable) ≡ true
contains-remaining failed books unreachable x covered fails =
    rw (contains-append x (failed_among failed books) unreachable)
      (elim (Bool-cases (contains x (ids books))) [
        | inl listed ↦ rw (contains-failed_among failed books x listed (fails listed)) refl
        | inr out ↦ ground arith
      ])

module _ (show_id : ℕ → String) {W : Type 0} (catalog : Catalog W) (cleanup : Cleanup W)
    (elapsed : ℕ → Bool) where
  -- The remaining ids are the ones whose removal failed, last import first, and then the ones that
  -- could not be looked up.
  pub rollback_imported_books-remaining :
      (imported : List ℕ) (w : W)
      → (rollback_imported_books show_id catalog cleanup elapsed imported w).0.remaining_book_ids
        ≡ (let found = collect show_id catalog (reverse imported) w in
            failed_among
              (remove_books show_id catalog found.book_paths w).removal_failed_ids
              found.book_paths
            ++ found.unreachable_ids)
  unfolding rollback_imported_books
  rollback_imported_books-remaining imported w =
      let found = collect show_id catalog (reverse imported) w in
      let removal = remove_books show_id catalog found.book_paths w in
      ap (λ r. r ++ found.unreachable_ids)
        (clean_books-remaining cleanup elapsed (length imported) (length found.book_paths)
          removal.removal_failed_ids found.book_paths
          (first_progress show_id catalog cleanup elapsed removal.world
            (found.lookup_warnings ++ removal.removal_warnings)))

  -- A book of the import that is in the catalog after the rollback is among the remaining ids that
  -- the rollback reports, so no book stays in the library unnoticed. Conditions: `present id w` is
  -- whether the catalog holds the book `id`; a removal that succeeds, alone or in a batch, takes its
  -- books out; a removal brings no book in, and neither does the cleanup of a file or a directory.
  pub rollback_imported_books_lossless :
      (present : ℕ → W → Bool)
      → ((id : ℕ) (w : W)
          → (catalog.remove id w).0 ≡ ok tt
          → present id (catalog.remove id w).1 ≡ false)
      → ((id x : ℕ) (w : W) → present x w ≡ false → present x (catalog.remove id w).1 ≡ false)
      → ((list : List ℕ) (x : ℕ) (w : W)
          → contains x list ≡ true
          → (catalog.remove_batch list w).0 ≡ ok tt
          → present x (catalog.remove_batch list w).1 ≡ false)
      → ((path : String) (x : ℕ) (w : W)
          → present x w ≡ false
          → present x (cleanup.cleanup_path path w).1 ≡ false)
      → ((id x : ℕ) (w : W)
          → present x w ≡ false
          → present x (cleanup.cleanup_directory id w).1 ≡ false)
      → (imported : List ℕ) (w : W) (x : ℕ) → contains x imported ≡ true
      → present x (rollback_imported_books show_id catalog cleanup elapsed imported w).1 ≡ true
      → contains x
          (rollback_imported_books show_id catalog cleanup elapsed imported w).0.remaining_book_ids
        ≡ true
  unfolding rollback_imported_books
  rollback_imported_books_lossless present gone stays batch path dir imported w x listed there =
      let found = collect show_id catalog (reverse imported) w in
      let removal = remove_books show_id catalog found.book_paths w in
      let start =
        first_progress show_id catalog cleanup elapsed removal.world
          (found.lookup_warnings ++ removal.removal_warnings) in
      let final =
        clean_books cleanup elapsed (length imported) (length found.book_paths)
          removal.removal_failed_ids found.book_paths start in
      let stays_out : present x removal.world ≡ false → present x final.world ≡ false =
        clean_books-keeps cleanup (λ w'. present x w' ≡ false) elapsed (length imported)
          (length found.book_paths) removal.removal_failed_ids found.book_paths start
          (All-intro
            (λ bp.
              contains bp.id removal.removal_failed_ids ≡ false
              → Spares cleanup (λ w'. present x w' ≡ false) bp)
            (λ bp _. (λ s _. path s x, λ s _. path s x, dir bp.id x)) found.book_paths) in
      subst (λ r. contains x r ≡ true) (sym (rollback_imported_books-remaining imported w))
        (contains-remaining removal.removal_failed_ids found.book_paths found.unreachable_ids x
          (collect-covers show_id catalog (reverse imported) w x
            (contains-reverse x imported listed))
          (λ listed'.
            elim (remove_books-Accounted show_id catalog present gone stays batch found.book_paths w
              x listed') [
                | inl out ↦ absurd (true≢false (sym there ∙ stays_out out))
                | inr failed ↦ failed
              ]))
