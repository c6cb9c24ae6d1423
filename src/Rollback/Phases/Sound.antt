-- ===== src/Rollback/Phases/Sound.antt =====
-- What it takes for the rollback to report a book as remaining.
use librova.Base.{
  ◌≡◌, ◌⊎◌, ℕ, List, String, Option, Bool, reverse, ◌||◌, true, ap, ◌∷◌, arith, Bool-cases, [],
  ◌==◌, refl, inl, inr, sym, ==→eq, ◌∙◌, subst, some, none,
}
use librova.Base.Outcome.{Outcome, ok, err}
use librova.Rollback.{Catalog, Cleanup, contains, Book, BookPaths}
use librova.Rollback.Phases.Accounting.{failed_among}
use librova.Rollback.Phases.Removing.{ids}
use librova.Rollback.Phases.Lossless.{
  contains-append, contains-reverse_aux, rollback_imported_books-remaining,
}
use librova.Rollback.Phases.{
  rollback_imported_books, collect, remove_books, remove_each, after_batch, note_book, note_removal,
  Found, Removal,
}

contains-failed_among_only :
    (failed : List ℕ) (books : List BookPaths) (x : ℕ)
    → contains x (failed_among failed books) ≡ true
    → (contains x (ids books) ≡ true) × (contains x failed ≡ true)
unfolding failed_among
contains-failed_among_only failed [] x h = cc
contains-failed_among_only failed (bp ∷ rest) x h = elim (Bool-cases (contains bp.id failed)) [
  | inl e ↦ elim (Bool-cases (x == bp.id)) [
    | inl same ↦ (ground arith, subst (λ y. contains y failed ≡ true) (sym (==→eq x bp.id same)) e)
    | inr other ↦
        let later = contains-failed_among_only failed rest x (ground arith) in
        (ground arith, later.1)
  ]
  | inr e ↦
      let later = contains-failed_among_only failed rest x (ground arith) in (ground arith, later.1)
]

module _ (show_id : ℕ → String) {W : Type 0} (catalog : Catalog W) where
  abbrev pub IsUnreadable : ℕ → W → Type 0
  IsUnreadable x w = (message : String) × (catalog.get_by_id x w ≡ err message)

  abbrev pub IsIrremovable : ℕ → Type 0
  IsIrremovable x = (w : W) × (message : String) × ((catalog.remove x w).0 ≡ err message)

  note_book-ids :
      (id : ℕ) (o : Outcome (Option Book)) (f : Found) (x : ℕ)
      → contains x (ids (note_book show_id catalog id o f).book_paths) ≡ true
      → ((x == id) || contains x (ids f.book_paths)) ≡ true
  unfolding note_book
  note_book-ids id (ok none) f x h = h
  note_book-ids id (ok (some b)) f x h = h
  note_book-ids id (err message) f x h = rw h (ground arith)

  collect-ids :
      (imported : List ℕ) (w : W) (x : ℕ)
      → contains x (ids (collect show_id catalog imported w).book_paths) ≡ true
      → contains x imported ≡ true
  unfolding collect
  collect-ids [] w x h = h
  collect-ids (id ∷ rest) w x h =
      let now = note_book-ids id (catalog.get_by_id id w) (collect show_id catalog rest w) x h in
      elim (Bool-cases (x == id)) [
        | inl same ↦ ground arith
        | inr other ↦ let later = collect-ids rest w x (ground arith) in ground arith
      ]

  note_book-unreachable :
      (id : ℕ) (o : Outcome (Option Book)) (f : Found) (x : ℕ)
      → contains x (note_book show_id catalog id o f).unreachable_ids ≡ true
      → (contains x f.unreachable_ids ≡ true)
        ⊎ ((x == id ≡ true) × ((message : String) × (o ≡ err message)))
  unfolding note_book
  note_book-unreachable id (ok book) f x h = inl h
  note_book-unreachable id (err message) f x h = elim (Bool-cases (x == id)) [
    | inl same ↦ inr (same, (message, refl))
    | inr other ↦ inl (ground arith)
  ]

  collect-unreachable :
      (imported : List ℕ) (w : W) (x : ℕ)
      → contains x (collect show_id catalog imported w).unreachable_ids ≡ true
      → (contains x imported ≡ true) × IsUnreadable x w
  unfolding collect
  collect-unreachable [] w x h = cc
  collect-unreachable (id ∷ rest) w x h =
      elim (note_book-unreachable id (catalog.get_by_id id w) (collect show_id catalog rest w) x
        h) [
          | inl later ↦ let found = collect-unreachable rest w x later in (ground arith, found.1)
          | inr (same, failed) ↦
              (ground arith, subst (λ y. IsUnreadable y w) (sym (==→eq x id same)) failed)
        ]

  note_removal-failed :
      (id : ℕ) (o : Outcome (Unit {0})) (r : Removal W) (x : ℕ)
      → contains x (note_removal show_id catalog id o r).removal_failed_ids ≡ true
      → (contains x r.removal_failed_ids ≡ true)
        ⊎ ((x == id ≡ true) × ((message : String) × (o ≡ err message)))
  unfolding note_removal
  note_removal-failed id (ok _) r x h = inl h
  note_removal-failed id (err message) r x h = elim (Bool-cases (x == id)) [
    | inl same ↦ inr (same, (message, refl))
    | inr other ↦ inl (ground arith)
  ]

  remove_each-failed :
      (books : List BookPaths) (w : W) (x : ℕ)
      → contains x (remove_each show_id catalog books w).removal_failed_ids ≡ true
      → IsIrremovable x
  unfolding remove_each
  remove_each-failed [] w x h = cc
  remove_each-failed (bp ∷ rest) w x h =
      elim (note_removal-failed bp.id (catalog.remove bp.id w).0
        (remove_each show_id catalog rest (catalog.remove bp.id w).1) x h) [
          | inl later ↦ remove_each-failed rest (catalog.remove bp.id w).1 x later
          | inr (same, (message, failed)) ↦
              subst IsIrremovable (sym (==→eq x bp.id same)) (w, message, failed)
        ]

  after_batch-failed :
      (books : List BookPaths) (o : Outcome (Unit {0})) (w : W) (x : ℕ)
      → contains x (after_batch show_id catalog books o w).removal_failed_ids ≡ true
      → IsIrremovable x
  unfolding after_batch
  after_batch-failed books (ok _) w x h = cc
  after_batch-failed books (err message) w x h = remove_each-failed books w x h

  remove_books-failed :
      (books : List BookPaths) (w : W) (x : ℕ)
      → contains x (remove_books show_id catalog books w).removal_failed_ids ≡ true
      → IsIrremovable x
  unfolding remove_books
  remove_books-failed [] w x h = cc
  remove_books-failed (bp ∷ rest) w x h = after_batch-failed (bp ∷ rest) _ _ x h

  contains-reverse_only :
      (x : ℕ) (xs : List ℕ) → contains x (reverse xs) ≡ true → contains x xs ≡ true
  contains-reverse_only x xs h = let same = sym (contains-reverse_aux x xs []) ∙ h in ground arith

  -- The rollback reports no book without a reason: a remaining id is that of a book of the import, and
  -- either the catalog could not look the book up, or a removal of that very book failed.
  pub rollback_imported_books_sound :
      (cleanup : Cleanup W) (elapsed : ℕ → Bool) (imported : List ℕ) (w : W) (x : ℕ)
      → contains x
          (rollback_imported_books show_id catalog cleanup elapsed imported w).0.remaining_book_ids
        ≡ true
      → (contains x imported ≡ true) × (IsUnreadable x w ⊎ IsIrremovable x)
  rollback_imported_books_sound cleanup elapsed imported w x h =
      let found = collect show_id catalog (reverse imported) w in
      let failed = (remove_books show_id catalog found.book_paths w).removal_failed_ids in
      let split =
        sym (contains-append x (failed_among failed found.book_paths) found.unreachable_ids)
        ∙ sym (
            ap (contains x)
              (rollback_imported_books-remaining show_id catalog cleanup elapsed imported w))
        ∙ h in
      elim (Bool-cases (contains x (failed_among failed found.book_paths))) [
        | inl among ↦
            let (listed, refused) = contains-failed_among_only failed found.book_paths x among in
            (
              contains-reverse_only x imported (collect-ids (reverse imported) w x listed),
              inr (remove_books-failed found.book_paths w x refused),
            )
        | inr out ↦
            let (listed, unreadable) = collect-unreachable (reverse imported) w x (ground arith) in
            (contains-reverse_only x imported listed, inl unreadable)
      ]
