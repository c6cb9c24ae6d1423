-- ===== src/Storage.antt =====
-- libs/Storage/ManagedFileStorage.cpp: the move of a prepared book from the staging directory to its
-- place in the library, and the removal of both. The calls of std::filesystem are parameters over a
-- state `W` of the disk, with their error texts; the log is left out.
pub mod Views
pub mod Moves
pub mod Commit
mod Examples
use librova.Base.{
  ℕ, Bool, String, List, Option, true, false, [], ◌∷◌, ◌++◌, none, some, if◌then◌else◌, concat,
}
use librova.Base.Outcome.{Outcome, ok, err, then_do}
use librova.Conversion.{is_empty}
use librova.Importing.{PreparedStorage}

pub record FileSystem (W : Type 0) : Type 0 where
  pub rename : String → String → W → Option String × W
  pub copy_file : String → String → W → Option String × W
  pub remove : String → W → W
  pub remove_all : String → W → W
  pub ensure_directory : String → W → Outcome (Unit {0}) × W
  pub parent_path : String → String
  pub cleanup_empty_directories : String → String → W → W

-- BuildRollbackFailureMessage
unfoldable pub append_diagnostics : String → List String → String
append_diagnostics message [] = message
append_diagnostics message (d ∷ rest) =
    append_diagnostics (if is_empty d then message else concat message (concat " " d)) rest

unfoldable pub build_rollback_failure_message : String → List String → String
unfolding append_diagnostics
build_rollback_failure_message original diagnostics =
    append_diagnostics (concat "Managed storage commit failed: " original) diagnostics

module _ {W : Type 0} (system : FileSystem W) where
  -- RemovePathWithWarningNoThrow
  unfoldable pub remove_path : String → W → W
  remove_path path w = if is_empty path then w else system.remove_all path w

  abbrev pub after_copy : String → String → String → Option String × W → Outcome (Unit {0}) × W
  after_copy source destination renamed (none, w) = (ok tt, system.remove source w)
  after_copy source destination renamed (some copied, w) = (
    err (
        concat "Failed to move file from " (
          concat source (
            concat " to " (
              concat destination (
                concat ": rename failed (" (
                  concat renamed
                    (concat "), copy fallback also failed (" (concat copied ")")))))))),
    w,
  )

  abbrev pub after_rename : String → String → Option String × W → Outcome (Unit {0}) × W
  after_rename source destination (none, w) = (ok tt, w)
  after_rename source destination (some message, w) =
      after_copy source destination message (system.copy_file source destination w)

  -- MoveFile
  unfoldable pub move_file : String → String → W → Outcome (Unit {0}) × W
  move_file source destination w =
      after_rename source destination (system.rename source destination w)

  -- EnsureDirectory of the parent, then MoveFile.
  unfoldable pub place_file : String → String → W → Outcome (Unit {0}) × W
  unfolding move_file
  place_file source destination w =
      then_do (system.ensure_directory (system.parent_path destination) w)
        (λ _. move_file source destination)

  abbrev pub restore_message : String → String → String → String
  restore_message label final staged = concat "Rollback could not restore the managed " (
      concat label
        (concat " from '" (concat final (concat "' back to staging path '" (concat staged "'.")))))

  -- The end of the handler: the original error, or the one that names what could not be restored.
  abbrev pub restored_or_stuck : String → String → Outcome (Unit {0}) × W → Outcome (Unit {0}) × W
  restored_or_stuck original diagnostic (ok _, w) = (err original, w)
  restored_or_stuck original diagnostic (err message, w) =
      (err (build_rollback_failure_message original (diagnostic ∷ [])), w)

  -- The handler, once the book has been moved.
  unfoldable pub restore_book : PreparedStorage → String → W → Outcome (Unit {0}) × W
  unfolding place_file build_rollback_failure_message
  restore_book p original w =
      restored_or_stuck original (restore_message "book" p.final_book_path p.staged_book_path)
        (place_file p.final_book_path p.staged_book_path w)

  -- Moving the cover and what follows. Nothing throws once the cover is moved, so that the handler
  -- never has to restore it.
  abbrev pub finish_commit : PreparedStorage → Outcome (Unit {0}) × W → Outcome (Unit {0}) × W
  finish_commit p (ok _, w) = (ok tt, remove_path (system.parent_path p.staged_book_path) w)
  finish_commit p (err message, w) = restore_book p message w

  unfoldable pub place_cover : Option String → Option String → W → Outcome (Unit {0}) × W
  unfolding place_file
  place_cover none final w = (ok tt, w)
  place_cover (some staged) none w =
      (err "Prepared storage must contain a final cover path when a cover is staged.", w)
  place_cover (some staged) (some final) w = place_file staged final w

  -- CManagedFileStorage::CommitImport
  unfoldable pub commit_import : PreparedStorage → W → Outcome (Unit {0}) × W
  unfolding place_file place_cover restore_book remove_path
  commit_import p w =
      if is_empty p.staged_book_path
      then (err "Prepared storage must contain a staged book.", w)
      else then_do (place_file p.staged_book_path p.final_book_path w)
          (λ _ w'. finish_commit p (place_cover p.staged_cover_path p.final_cover_path w'))

  abbrev pub remove_if_any : Option String → W → W
  remove_if_any none w = w
  remove_if_any (some path) w = remove_path path w

  -- CManagedFileStorage::RollbackImport
  unfoldable pub rollback_import : String → String → PreparedStorage → W → W
  unfolding remove_path
  rollback_import staging_root objects_directory p w =
      let w1 = remove_path p.final_book_path (remove_path p.staged_book_path w) in
      let w2 = remove_if_any p.final_cover_path (remove_if_any p.staged_cover_path w1) in
      let w3 =
        system.cleanup_empty_directories (system.parent_path p.staged_book_path) staging_root w2 in
      system.cleanup_empty_directories (system.parent_path p.final_book_path) objects_directory w3
