-- ===== src/Rollback/Phases/Accounting.antt =====
-- Which ids phase 3 of RollbackImportedBooks reports as remaining.
use librova.Base.{
  ◌≡◌, List, ℕ, Bool, ◌∷◌, if◌then◌else◌, Option, String, ◌++◌, some, [], ◌∙◌, none, refl, sym,
  append-nil, ap, append_assoc, arith, Bool-cases, inl, inr,
}
use librova.Rollback.{Cleanup, BookPaths, contains}
use librova.Rollback.Phases.{
  clean_books, note_cleanup, clean_cover, clean_file, report, clean_book, Progress,
}

-- The ids of `books` whose removal failed, in order.
unfoldable pub failed_among : List ℕ → List BookPaths → List ℕ
failed_among failed [] = []
failed_among failed (bp ∷ rest) =
    let others = failed_among failed rest in
    if contains bp.id failed then bp.id ∷ others else others

module _ {W : Type 0} (cleanup : Cleanup W) where
  note_cleanup-remaining :
      (o : Option String × W) (p : Progress W) → (note_cleanup cleanup o p).remaining ≡ p.remaining
  unfolding note_cleanup
  note_cleanup-remaining (none, w) p = refl
  note_cleanup-remaining (some warning, w) p = refl

  clean_cover-remaining :
      (path : Option String) (p : Progress W) → (clean_cover cleanup path p).remaining ≡ p.remaining
  unfolding clean_cover
  clean_cover-remaining none p = refl
  clean_cover-remaining (some path) p = note_cleanup-remaining (cleanup.cleanup_path path p.world) p

  clean_file-remaining :
      (id : ℕ) (path : Option String) (p : Progress W)
      → (clean_file cleanup id path p).remaining ≡ p.remaining
  unfolding clean_file
  clean_file-remaining id none p = refl
  clean_file-remaining id (some path) p =
      let p' = note_cleanup cleanup (cleanup.cleanup_path path p.world) p in
      note_cleanup-remaining (cleanup.cleanup_directory id p'.world) p'
      ∙ note_cleanup-remaining (cleanup.cleanup_path path p.world) p

  -- Phase 3, a book at a time.
  module _ (elapsed : ℕ → Bool) (total count : ℕ) where
    report-remaining :
        (p : Progress W) → (report cleanup elapsed total count p).remaining ≡ p.remaining
    unfolding report
    report-remaining p = ground arith

    clean_book-remaining :
        (failed : List ℕ) (bp : BookPaths) (p : Progress W)
        → (clean_book cleanup failed bp p).remaining
          ≡ p.remaining ++ (if contains bp.id failed then bp.id ∷ [] else [])
    unfolding clean_book
    clean_book-remaining failed bp p = elim (Bool-cases (contains bp.id failed)) [
      | inl h ↦ rw h refl
      | inr h ↦ rw h (
          clean_file-remaining bp.id bp.book_file_path (clean_cover cleanup bp.cover_path p)
          ∙ clean_cover-remaining bp.cover_path p
          ∙ sym (append-nil p.remaining))
    ]

    failed_among-cons :
        (failed : List ℕ) (bp : BookPaths) (rest : List BookPaths)
        → (if contains bp.id failed then bp.id ∷ [] else []) ++ failed_among failed rest
          ≡ failed_among failed (bp ∷ rest)
    unfolding failed_among
    failed_among-cons failed bp rest = elim (Bool-cases (contains bp.id failed)) [
      | inl h ↦ rw h refl
      | inr h ↦ rw h refl
    ]

    pub clean_books-remaining :
        (failed : List ℕ) (books : List BookPaths) (p : Progress W)
        → (clean_books cleanup elapsed total count failed books p).remaining
          ≡ p.remaining ++ failed_among failed books
    unfolding clean_books failed_among
    clean_books-remaining failed [] p = sym (append-nil p.remaining)
    clean_books-remaining failed (bp ∷ rest) p =
        let p' = clean_book cleanup failed bp p in
        let here : List ℕ = if contains bp.id failed then bp.id ∷ [] else [] in
        clean_books-remaining failed rest (report cleanup elapsed total count p')
        ∙ ap (λ r. r ++ failed_among failed rest)
            (report-remaining p' ∙ clean_book-remaining failed bp p)
        ∙ append_assoc p.remaining here (failed_among failed rest)
        ∙ ap (λ r. p.remaining ++ r) (failed_among-cons failed bp rest)
