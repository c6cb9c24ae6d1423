-- ===== src/Rollback/Phases/Removing.antt =====
-- Phases 1 and 2 of RollbackImportedBooks: every imported id is looked up, and each that was found
-- is out of the catalog or among the failed ones.
use librova.Base.{
  ◌≡◌, List, ℕ, String, map, Option, true, ◌||◌, ◌∷◌, some, [], none, ◌⊎◌, refl, arith, Bool-cases,
  ◌==◌, inl, inr, sym, ==→eq, Bool, false, subst,
}
use librova.Rollback.{Catalog, BookPaths, Book, contains}
use librova.Rollback.Phases.{
  collect, paths_of, note_book, Found, note_removal, Removal, remove_books, remove_each,
  after_batch,
}
use librova.Base.Outcome.{Outcome, ok, err, Outcome-cases}

abbrev pub ids : List BookPaths → List ℕ
ids books = map (λ b. b.id) books

module _ (show_id : ℕ → String) {W : Type 0} (catalog : Catalog W) where
  paths_of-id : (id : ℕ) (found : Option Book) → (paths_of id found).id ≡ id
  paths_of-id id none = refl
  paths_of-id id (some book) = refl

  note_book-covers :
      (id : ℕ) (o : Outcome (Option Book)) (f : Found) (x : ℕ)
      → (contains x (ids f.book_paths) || contains x f.unreachable_ids) ≡ true ⊎ (id ≡ x)
      → (contains x (ids (note_book show_id catalog id o f).book_paths)
          || contains x (note_book show_id catalog id o f).unreachable_ids)
        ≡ true
  unfolding note_book
  note_book-covers id (ok none) f x h = ground arith
  note_book-covers id (ok (some b)) f x h = ground arith
  note_book-covers id (err message) f x h = ground arith

  pub collect-covers :
      (imported : List ℕ) (w : W) (x : ℕ)
      → contains x imported ≡ true
      → (contains x (ids (collect show_id catalog imported w).book_paths)
          || contains x (collect show_id catalog imported w).unreachable_ids)
        ≡ true
  unfolding collect
  collect-covers [] w x h = cc
  collect-covers (id ∷ rest) w x h =
      note_book-covers id (catalog.get_by_id id w) (collect show_id catalog rest w) x
        (elim (Bool-cases (x == id)) [
          | inl same ↦ inr (sym (==→eq x id same))
          | inr other ↦ inl (collect-covers rest w x (ground arith))
        ])

  note_removal-world :
      (id : ℕ) (o : Outcome (Unit {0})) (r : Removal W)
      → (note_removal show_id catalog id o r).world ≡ r.world
  unfolding note_removal
  note_removal-world id (ok _) r = refl
  note_removal-world id (err message) r = refl

  note_removal-err :
      (id : ℕ) (o : Outcome (Unit {0})) (message : String) (r : Removal W)
      → o ≡ err message
      → contains id (note_removal show_id catalog id o r).removal_failed_ids ≡ true
  unfolding note_removal
  note_removal-err id (ok _) message r h = cc
  note_removal-err id (err _) message r h = ground arith

  -- What the catalog promises: `present id w` is whether it has a book. Removed books are gone, and
  -- a removal brings none back.
  module _ (present : ℕ → W → Bool)
      (remove_gone : (id : ℕ) (w : W)
        → (catalog.remove id w).0 ≡ ok tt
        → present id (catalog.remove id w).1 ≡ false)
      (remove_stays : (id x : ℕ) (w : W)
        → present x w ≡ false
        → present x (catalog.remove id w).1 ≡ false)
      (batch_gone : (list : List ℕ) (x : ℕ) (w : W)
        → contains x list ≡ true
        → (catalog.remove_batch list w).0 ≡ ok tt
        → present x (catalog.remove_batch list w).1 ≡ false) where
    abbrev pub Accounted : ℕ → Removal W → Type 0
    Accounted x r = (present x r.world ≡ false) ⊎ (contains x r.removal_failed_ids ≡ true)

    note_removal-Accounted :
        (id : ℕ) (o : Outcome (Unit {0})) (r : Removal W) (x : ℕ)
        → Accounted x r
        → Accounted x (note_removal show_id catalog id o r)
    unfolding note_removal
    note_removal-Accounted id (ok _) r x h = h
    note_removal-Accounted id (err message) r x (inl gone) = inl gone
    note_removal-Accounted id (err message) r x (inr failed) = inr (ground arith)

    remove_each-Accounted :
        (books : List BookPaths) (w : W) (x : ℕ)
        → (contains x (ids books) ≡ true) ⊎ (present x w ≡ false)
        → Accounted x (remove_each show_id catalog books w)
    unfolding remove_each
    remove_each-Accounted [] w x (inl listed) = cc
    remove_each-Accounted [] w x (inr gone) = inl gone
    remove_each-Accounted (bp ∷ rest) w x h =
        let (o, after) = catalog.remove bp.id w in
        let others = remove_each show_id catalog rest after in
        elim (Bool-cases (x == bp.id)) [
          | inl same ↦
              let e = ==→eq x bp.id same in
              elim (Outcome-cases o) [
                | inl done ↦ note_removal-Accounted bp.id o others x (
                    remove_each-Accounted rest after x (
                      inr
                        (subst (λ y. present y after ≡ false) (sym e) (remove_gone bp.id w done))))
                | inr (message, e') ↦ inr (
                    subst
                      (λ y.
                        contains y (note_removal show_id catalog bp.id o others).removal_failed_ids
                        ≡ true)
                      (sym e) (note_removal-err bp.id o message others e'))
              ]
          | inr other ↦ note_removal-Accounted bp.id o others x (
              remove_each-Accounted rest after x (elim h [
                | inl listed ↦ inl (ground arith)
                | inr gone ↦ inr (remove_stays bp.id x w gone)
              ]))
        ]

    after_batch-Accounted :
        (books : List BookPaths) (o : Outcome (Unit {0})) (w : W) (x : ℕ)
        → contains x (ids books) ≡ true
        → (o ≡ ok tt → present x w ≡ false)
        → Accounted x (after_batch show_id catalog books o w)
    unfolding after_batch
    after_batch-Accounted books (ok tt) w x h gone = inl (gone refl)
    after_batch-Accounted books (err message) w x h gone = remove_each-Accounted books w x (inl h)

    -- After phase 2 every book that was to be removed is out of the catalog or among the failed.
    pub remove_books-Accounted :
        (books : List BookPaths) (w : W) (x : ℕ)
        → contains x (ids books) ≡ true
        → Accounted x (remove_books show_id catalog books w)
    unfolding remove_books
    remove_books-Accounted [] w x h = cc
    remove_books-Accounted (bp ∷ rest) w x h =
        let list = ids (bp ∷ rest) in
        after_batch-Accounted (bp ∷ rest) (catalog.remove_batch list w).0
          (catalog.remove_batch list w).1 x h (batch_gone list x w h)
