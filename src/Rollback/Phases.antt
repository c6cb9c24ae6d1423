-- ===== src/Rollback/Phases.antt =====
-- The three phases of RollbackImportedBooks.
pub mod Accounting
pub mod Cleaning
pub mod Lossless
pub mod Sound
pub mod Removing
use librova.Base.{
  none, some, List, ℕ, String, Bool, Option, concat, true, if◌then◌else◌, ◌+◌, str_eq, ◌++◌, ◌==◌,
  [], ◌∷◌, ◌||◌, false, reverse, map, length,
}
use librova.Base.Outcome.{ok, err, Outcome}
use librova.Rollback.{Cleanup, BookPaths, Book, Catalog, contains, RollbackResult}

-- What phase 1 has found.
pub record Found : Type 0 where
  pub book_paths : List BookPaths
  pub unreachable_ids : List ℕ
  pub lookup_warnings : List String

-- The catalog after phase 2, the ids whose removal failed, and the warnings.
pub record Removal (W : Type 0) : Type 0 where
  pub world : W
  pub removal_failed_ids : List ℕ
  pub removal_warnings : List String

-- The accumulators of the loop of phase 3.
pub record Progress (W : Type 0) : Type 0 where
  pub world : W
  pub remaining : List ℕ
  pub residue : Bool
  pub warnings : List String
  pub rolled_back : ℕ
  pub reports : List (ℕ × ℕ)

abbrev paths_of : ℕ → Option Book → BookPaths
paths_of id none = record { id = id; cover_path = none; book_file_path = none }
paths_of id (some book) = record {
  id = id;
  cover_path = book.cover_path;
  book_file_path = if str_eq book.managed_path "" then none else some book.managed_path;
}

module _ (show_id : ℕ → String) where
  abbrev left_in_library : String → ℕ → String → String
  left_in_library because id message =
      concat "Cancellation rollback left book "
        (concat (show_id id) (concat " in the library because catalog " (concat because message)))

  module _ {W : Type 0} (catalog : Catalog W) where
    -- Phase 1, over the ids from the last imported to the first.
    note_book : ℕ → Outcome (Option Book) → Found → Found
    note_book id (ok book) f = record f { book_paths = paths_of id book ∷ f.book_paths }
    note_book id (err message) f = record f {
      unreachable_ids = id ∷ f.unreachable_ids;
      lookup_warnings = left_in_library "lookup failed: " id message ∷ f.lookup_warnings;
    }

    unfoldable pub collect : List ℕ → W → Found
    unfolding note_book
    collect [] w = record { book_paths = []; unreachable_ids = []; lookup_warnings = [] }
    collect (id ∷ rest) w = note_book id (catalog.get_by_id id w) (collect rest w)

    -- Phase 2. The handler of a failed batch removes book by book.
    note_removal : ℕ → Outcome (Unit {0}) → Removal W → Removal W
    note_removal id (ok _) r = r
    note_removal id (err message) r = record r {
      removal_failed_ids = id ∷ r.removal_failed_ids;
      removal_warnings = left_in_library "removal failed: " id message ∷ r.removal_warnings;
    }

    remove_each : List BookPaths → W → Removal W
    unfolding note_removal
    remove_each [] w = record { world = w; removal_failed_ids = []; removal_warnings = [] }
    remove_each (bp ∷ rest) w =
        let (outcome, after) = catalog.remove bp.id w in
        note_removal bp.id outcome (remove_each rest after)

    after_batch : List BookPaths → Outcome (Unit {0}) → W → Removal W
    unfolding remove_each
    after_batch books (ok _) w = record {
      world = w;
      removal_failed_ids = [];
      removal_warnings = [];
    }
    after_batch books (err message) w = remove_each books w

    unfoldable pub remove_books : List BookPaths → W → Removal W
    unfolding after_batch
    remove_books [] w = record { world = w; removal_failed_ids = []; removal_warnings = [] }
    remove_books (bp ∷ rest) w =
        let (outcome, after) = catalog.remove_batch (map (λ b. b.id) (bp ∷ rest)) w in
        after_batch (bp ∷ rest) outcome after

module _ {W : Type 0} (cleanup : Cleanup W) where
  -- A cleanup and its warning, if any.
  note_cleanup : Option String × W → Progress W → Progress W
  note_cleanup (none, w) p = record p { world = w }
  note_cleanup (some warning, w) p = record p {
    world = w;
    residue = true;
    warnings = p.warnings ++ (warning ∷ []);
  }

  clean_cover : Option String → Progress W → Progress W
  unfolding note_cleanup
  clean_cover none p = p
  clean_cover (some path) p = note_cleanup (cleanup.cleanup_path path p.world) p

  clean_file : ℕ → Option String → Progress W → Progress W
  unfolding note_cleanup
  clean_file id none p = p
  clean_file id (some path) p =
      let p' = note_cleanup (cleanup.cleanup_path path p.world) p in
      note_cleanup (cleanup.cleanup_directory id p'.world) p'

  -- The body of the loop of phase 3, up to the progress report.
  clean_book : List ℕ → BookPaths → Progress W → Progress W
  unfolding clean_cover clean_file
  clean_book failed bp p =
      if contains bp.id failed
      then record p { remaining = p.remaining ++ (bp.id ∷ []) }
      else clean_file bp.id bp.book_file_path (clean_cover bp.cover_path p)

  module _ (elapsed : ℕ → Bool) (total count : ℕ) where
    report : Progress W → Progress W
    report p =
        let done = p.rolled_back + 1 in
        if done == count || done == 1 || elapsed done
        then record p { rolled_back = done; reports = p.reports ++ ((done, total) ∷ []) }
        else record p { rolled_back = done }

    unfoldable pub clean_books : List ℕ → List BookPaths → Progress W → Progress W
    unfolding clean_book report
    clean_books failed [] p = p
    clean_books failed (bp ∷ rest) p = clean_books failed rest (report (clean_book failed bp p))

-- The whole call: the result, the world after it, and the progress reports.
module _ (show_id : ℕ → String) {W : Type 0} (catalog : Catalog W) (cleanup : Cleanup W)
    (elapsed : ℕ → Bool) where
  abbrev first_progress : W → List String → Progress W
  first_progress w warnings = record {
    world = w;
    remaining = [];
    residue = false;
    warnings = warnings;
    rolled_back = 0;
    reports = [];
  }

  unfoldable pub rollback_imported_books : List ℕ → W → RollbackResult × W × List (ℕ × ℕ)
  rollback_imported_books imported_book_ids w =
      let found = collect show_id catalog (reverse imported_book_ids) w in
      let removal = remove_books show_id catalog found.book_paths w in
      let done =
        clean_books cleanup elapsed (length imported_book_ids) (length found.book_paths)
          removal.removal_failed_ids found.book_paths
          (first_progress removal.world (found.lookup_warnings ++ removal.removal_warnings)) in
      (
        record {
          remaining_book_ids = done.remaining ++ found.unreachable_ids;
          warnings = done.warnings;
          has_cleanup_residue = done.residue;
        },
        done.world,
        done.reports,
      )
