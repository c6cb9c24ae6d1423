-- ===== src/Trash.antt =====
-- libs/App/LibraryTrashFacade.hpp and .cpp: a book is deleted. Its files are moved to the library's
-- trash, its row is removed, and the files go to the recycle bin, if there is one. The services work
-- over a state `W` of the database and the disk; an exception is `err`, and the log is left out.
pub mod Views
pub mod Atomic
pub mod Service
mod Examples
use librova.Base.{
  ℕ, Bool, String, List, Option, true, false, [], ◌∷◌, ◌||◌, not, none, some, if◌then◌else◌, str_eq,
  reverse,
}
use librova.Base.Outcome.{Outcome, ok, err, then_do}
use librova.Rollback.{Book}

pub data TrashDestination : Type 0 where
  managed_trash recycle_bin : TrashDestination

pub record TrashedBookResult : Type 0 where
  pub book_id : ℕ
  pub destination : TrashDestination
  pub has_orphaned_files : Bool

-- SStagedTrashEntry
pub record StagedEntry : Type 0 where
  pub original_path : String
  pub trashed_path : String

pub record TrashServices (W : Type 0) : Type 0 where
  pub get_by_id : ℕ → W → Outcome (Option Book)
  pub remove : ℕ → W → Outcome (Unit {0}) × W
  -- ResolveManagedSourcePathIfPresent
  pub resolve : String → W → Outcome (Option String)
  pub move_to_trash : String → W → Outcome String × W
  pub restore_from_trash : String → String → W → Outcome (Unit {0}) × W
  pub move_to_recycle_bin : Option (List String → W → Outcome (Unit {0}) × W)
  -- The loop of CleanupEmptyDirectoriesUpTo over the staged paths.
  pub cleanup_directories : List String → W → W
  pub path_exists : String → W → Bool

module _ {W : Type 0} (services : TrashServices W) where
  -- RestoreStagedPathsOrThrow. The entries have the newest first.
  unfoldable pub restore_staged : List StagedEntry → W → Outcome (Unit {0}) × W
  restore_staged [] w = (ok tt, w)
  restore_staged (e ∷ rest) w =
      then_do (services.restore_from_trash e.trashed_path e.original_path w)
        (λ _. restore_staged rest)

  -- A handler that restores what is staged and throws again.
  abbrev pub restore_and_throw : {A : Type 0} → List StagedEntry → String → W → Outcome A × W
  restore_and_throw staged message w = then_do (restore_staged staged w) (λ _ w'. (err message, w'))

  abbrev pub staged_or_restored :
      String → List StagedEntry → Outcome String × W → Outcome (List StagedEntry) × W
  staged_or_restored path staged (ok trashed, w) =
      (ok (record { original_path = path; trashed_path = trashed } ∷ staged), w)
  staged_or_restored path staged (err message, w) = restore_and_throw staged message w

  -- The staging of the book, with nothing staged, and of the cover.
  unfoldable pub stage_path : Option String → List StagedEntry → W → Outcome (List StagedEntry) × W
  unfolding restore_staged
  stage_path none staged w = (ok staged, w)
  stage_path (some path) staged w = staged_or_restored path staged (services.move_to_trash path w)

  abbrev pub removed_or_restored :
      List StagedEntry → Outcome (Unit {0}) × W → Outcome (List StagedEntry) × W
  removed_or_restored staged (ok _, w) = (ok staged, w)
  removed_or_restored staged (err message, w) = restore_and_throw staged message w

  unfoldable pub remove_row : ℕ → List StagedEntry → W → Outcome (List StagedEntry) × W
  unfolding restore_staged
  remove_row id staged w = removed_or_restored staged (services.remove id w)

  abbrev pub trashed_paths : List StagedEntry → List String
  trashed_paths [] = []
  trashed_paths (e ∷ rest) = e.trashed_path ∷ trashed_paths rest

  abbrev pub any_missing : List String → W → Bool
  any_missing [] w = false
  any_missing (path ∷ rest) w = not (services.path_exists path w) || any_missing rest w

  abbrev pub trashed_result :
      ℕ → TrashDestination → Bool → W → Outcome (Option TrashedBookResult) × W
  trashed_result id destination orphaned w = (
    ok (some (record { book_id = id; destination = destination; has_orphaned_files = orphaned })),
    w,
  )

  abbrev pub after_recycling :
      ℕ → List String → Bool → Outcome (Unit {0}) × W → Outcome (Option TrashedBookResult) × W
  after_recycling id paths orphaned (ok _, w) =
      trashed_result id recycle_bin orphaned (services.cleanup_directories paths w)
  after_recycling id paths orphaned (err message, w) =
      trashed_result id managed_trash (orphaned || any_missing paths w) w

  -- From the test for the recycle bin on; the paths have the book first.
  unfoldable pub recycle :
      ℕ
      → Option (List String → W → Outcome (Unit {0}) × W)
      → List String
      → Bool
      → W
      → Outcome (Option TrashedBookResult) × W
  recycle id none paths orphaned w = trashed_result id managed_trash orphaned w
  recycle id (some bin) [] orphaned w = trashed_result id managed_trash orphaned w
  recycle id (some bin) (path ∷ rest) orphaned w =
      after_recycling id (path ∷ rest) orphaned (bin (path ∷ rest) w)

  abbrev pub is_missing : Option String → Bool
  is_missing none = true
  is_missing (some path) = false

  -- A cover that the book has and the disk has not.
  abbrev pub misses_cover : Option String → Option String → Bool
  misses_cover none source = false
  misses_cover (some cover) source = is_missing source

  -- From the staging on. Fewer files are staged than expected just when the book's file is missing.
  unfoldable pub move_files :
      ℕ → Option String → Option String → Bool → W → Outcome (Option TrashedBookResult) × W
  unfolding stage_path remove_row recycle
  move_files id book cover missing w = then_do (stage_path book [] w) (λ staged w1.
      then_do (stage_path cover staged w1) (λ staged' w2.
        then_do (remove_row id staged' w2) (λ moved w3.
          recycle id services.move_to_recycle_bin (reverse (trashed_paths moved)) missing w3)))

  abbrev pub resolve_cover : Option String → W → Outcome (Option String) × W
  resolve_cover none w = (ok none, w)
  resolve_cover (some path) w = (services.resolve path w, w)

  unfoldable pub move_found : ℕ → Option Book → W → Outcome (Option TrashedBookResult) × W
  unfolding move_files
  move_found id none w = (ok none, w)
  move_found id (some book) w =
      if str_eq book.managed_path ""
      then (err "Book does not have a managed file path.", w)
      else then_do (services.resolve book.managed_path w, w)
          (λ source w1. then_do (resolve_cover book.cover_path w1) (λ cover w2.
            move_files id source cover (is_missing source || misses_cover book.cover_path cover)
              w2))

  -- CLibraryTrashFacade::MoveBookToTrash
  unfoldable pub move_book_to_trash : ℕ → W → Outcome (Option TrashedBookResult) × W
  unfolding move_found
  move_book_to_trash id w = then_do (services.get_by_id id w, w) (move_found id)
