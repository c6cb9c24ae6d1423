-- ===== src/Rollback/Phases/Cleaning.antt =====
-- What phase 3 of RollbackImportedBooks may touch on the disk.
use librova.Base.{
  ◌≡◌, ℕ, String, Bool, some, List, All, false, ◌∷◌, Option, Bool-cases, arith, subst, sym, inl,
  none, inr, refl, [],
}
use librova.Rollback.{Cleanup, BookPaths, contains}
use librova.Rollback.Phases.{
  clean_books, Progress, note_cleanup, clean_cover, clean_file, clean_book, report,
}

module _ {W : Type 0} (cleanup : Cleanup W) where
  -- Cleaning up the cover, the file and the directory of a book keeps `P`.
  abbrev pub Spares : (W → Type 0) → BookPaths → Type 0
  Spares P bp =
      ((path : String)
        → bp.cover_path ≡ some path
        → (w : W) → P w
        → P (cleanup.cleanup_path path w).1)
      × ((path : String)
          → bp.book_file_path ≡ some path
          → (w : W) → P w
          → P (cleanup.cleanup_path path w).1)
      × ((w : W) → P w → P (cleanup.cleanup_directory bp.id w).1)

  module _ (P : W → Type 0) where
    note_cleanup-world :
        (o : Option String × W) (p : Progress W) → P o.1 → P (note_cleanup cleanup o p).world
    unfolding note_cleanup
    note_cleanup-world (none, w) p h = h
    note_cleanup-world (some warning, w) p h = h

    clean_cover-world :
        (path : Option String) (p : Progress W)
        → ((s : String) → path ≡ some s → (w : W) → P w → P (cleanup.cleanup_path s w).1)
        → P p.world
        → P (clean_cover cleanup path p).world
    unfolding clean_cover
    clean_cover-world none p spare h = h
    clean_cover-world (some path) p spare h =
        note_cleanup-world (cleanup.cleanup_path path p.world) p (spare path refl p.world h)

    clean_file-world :
        (id : ℕ) (path : Option String) (p : Progress W)
        → ((s : String) → path ≡ some s → (w : W) → P w → P (cleanup.cleanup_path s w).1)
        → ((w : W) → P w → P (cleanup.cleanup_directory id w).1)
        → P p.world
        → P (clean_file cleanup id path p).world
    unfolding clean_file
    clean_file-world id none p spare spare_dir h = h
    clean_file-world id (some path) p spare spare_dir h =
        let p' = note_cleanup cleanup (cleanup.cleanup_path path p.world) p in
        note_cleanup-world (cleanup.cleanup_directory id p'.world) p' (
          spare_dir p'.world
            (note_cleanup-world (cleanup.cleanup_path path p.world) p (spare path refl p.world h)))

    clean_book-world :
        (failed : List ℕ) (bp : BookPaths) (p : Progress W)
        → (contains bp.id failed ≡ false → Spares P bp)
        → P p.world
        → P (clean_book cleanup failed bp p).world
    unfolding clean_book
    clean_book-world failed bp p spares h = elim (Bool-cases (contains bp.id failed)) [
      | inl e ↦ rw e h
      | inr e ↦
          let s = spares e in
          rw e (
            clean_file-world bp.id bp.book_file_path (clean_cover cleanup bp.cover_path p) s.1 s.2
              (clean_cover-world bp.cover_path p s.0 h))
    ]

    module _ (elapsed : ℕ → Bool) (total count : ℕ) where
      report-world : (p : Progress W) → (report cleanup elapsed total count p).world ≡ p.world
      unfolding report
      report-world p = ground arith

      -- Phase 3 keeps a property of the database and the disk if cleaning up after each of its
      -- books keeps it, where nothing is asked of the books whose removal failed: these are not
      -- touched.
      pub clean_books-keeps :
          (failed : List ℕ) (books : List BookPaths) (p : Progress W)
          → All (λ bp. contains bp.id failed ≡ false → Spares P bp) books
          → P p.world
          → P (clean_books cleanup elapsed total count failed books p).world
      unfolding clean_books
      clean_books-keeps failed [] p spares h = h
      clean_books-keeps failed (bp ∷ rest) p spares h =
          clean_books-keeps failed rest
            (report cleanup elapsed total count (clean_book cleanup failed bp p)) spares.1
            (subst P (sym (report-world (clean_book cleanup failed bp p)))
              (clean_book-world failed bp p spares.0 h))
