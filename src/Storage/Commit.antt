-- ===== src/Storage/Commit.antt =====
-- CommitImport, from the move of the book to the end of its handler.
use librova.Base.{String, none, some, ◌≡◌, ◌⊎◌}
use librova.Base.Outcome.{Outcome, ok, err}
use librova.Importing.{PreparedStorage}
use librova.Storage.{FileSystem}
use librova.Storage.Views.{
  DiskView, IsKept, IsElsewhere, NeedsCopy, IsOutside, IsCoverPlaced, IsCoverKept,
}

module _ {W C : Type 0} (v : DiskView W C) (system : FileSystem W) (p : PreparedStorage)
    (w : W) where
  -- The book has been moved; `w'` is the world.
  abbrev IsPlaced : C → W → Type 0
  IsPlaced c w' =
      (v.content p.final_book_path w' ≡ some c)
      × ((path : String)
          → IsElsewhere v system p.staged_book_path p.final_book_path path
          → IsKept v system w w' path)
      × ((v.content p.staged_book_path w' ≡ none)
          ⊎ NeedsCopy v system p.staged_book_path p.final_book_path)

  -- The move of the cover, and that no other file has changed.
  abbrev IsCoverMove : C → Outcome (Unit {0}) × W → Type 0
  IsCoverMove c (ok _, w') =
      (v.content p.final_book_path w' ≡ some c)
      × IsCoverPlaced v system p.staged_cover_path p.final_cover_path w w'
      × ((path : String) → IsOutside v system p path → IsKept v system w w' path)
  IsCoverMove c (err message, w') =
      (v.content p.final_book_path w' ≡ some c)
      × IsCoverKept v system p.staged_cover_path w w'
      × ((path : String) → IsOutside v system p path → IsKept v system w w' path)
