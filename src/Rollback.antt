-- ===== src/Rollback.antt =====
-- libs/App/ImportRollbackService.hpp and .cpp: RollbackImportedBooks, which takes the books of a
-- cancelled import out of the library again. The catalog (IBookRepository) and the cleanup of files
-- and directories are interfaces over a state `W` of the database and the disk; `show_id` is
-- std::to_string, and `elapsed n` is whether the report interval has passed when `n` books are done.
-- Performance counters and the log are left out.
pub mod Phases
mod Examples
use librova.Base.{ℕ, String, Option, List, Bool, false, ◌∷◌, ◌==◌, ◌||◌, []}
use librova.Base.Outcome.{Outcome}

pub record RollbackResult : Type 0 where
  pub remaining_book_ids : List ℕ
  pub warnings : List String
  pub has_cleanup_residue : Bool

-- What rollback reads of an SBook.
pub record Book : Type 0 where
  pub cover_path : Option String
  pub managed_path : String

-- SBookPaths; `book_file_path` is there if and only if HasManagedFile is set.
pub record BookPaths : Type 0 where
  pub id : ℕ
  pub cover_path : Option String
  pub book_file_path : Option String

pub record Catalog (W : Type 0) : Type 0 where
  pub get_by_id : ℕ → W → Outcome (Option Book)
  pub remove : ℕ → W → Outcome (Unit {0}) × W
  pub remove_batch : List ℕ → W → Outcome (Unit {0}) × W

-- CleanupManagedPathNoThrow and CleanupCancelledBookDirectoryNoThrow: a warning, or none.
pub record Cleanup (W : Type 0) : Type 0 where
  pub cleanup_path : String → W → Option String × W
  pub cleanup_directory : ℕ → W → Option String × W

abbrev pub contains : ℕ → List ℕ → Bool
contains id [] = false
contains id (x ∷ rest) = id == x || contains id rest
