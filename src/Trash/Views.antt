-- ===== src/Trash/Views.antt =====
-- How the deletion of a book is seen from outside, and what its services promise.
use librova.Base.{ℕ, String, List, Option, [], ◌∷◌, none, some, ◌≡◌, ◌⊎◌}
use librova.Base.Outcome.{Outcome, ok, err}
use librova.Rollback.{Book}
use librova.Trash.{TrashServices, TrashedBookResult, StagedEntry, resolve_cover}

-- The rows of the catalog and the files outside the trash; `without id c` is `c` without a row.
pub record TrashView (W C D : Type 0) : Type 0 where
  pub catalog : W → C
  pub files : W → D
  pub without : ℕ → C → C

module _ {W C D : Type 0} (v : TrashView W C D) (services : TrashServices W) where
  -- What the services promise.
  pub record IsLawful : Type 0 where
    pub move_catalog :
        (path : String) (w : W) → v.catalog (services.move_to_trash path w).1 ≡ v.catalog w
    pub move_refused :
        (path : String) (w : W) (message : String)
        → (services.move_to_trash path w).0 ≡ err message
        → v.files (services.move_to_trash path w).1 ≡ v.files w
    pub restore_catalog :
        (trashed original : String) (w : W)
        → v.catalog (services.restore_from_trash trashed original w).1 ≡ v.catalog w
    -- Restoring the file that was moved last brings the files back.
    pub restore_undoes :
        (path trashed : String) (before w : W)
        → (services.move_to_trash path before).0 ≡ ok trashed
        → v.files w ≡ v.files (services.move_to_trash path before).1
        → (services.restore_from_trash trashed path w).0 ≡ ok tt
        → v.files (services.restore_from_trash trashed path w).1 ≡ v.files before
    pub remove_files : (id : ℕ) (w : W) → v.files (services.remove id w).1 ≡ v.files w
    pub remove_refused :
        (id : ℕ) (w : W) (message : String)
        → (services.remove id w).0 ≡ err message
        → v.catalog (services.remove id w).1 ≡ v.catalog w
    pub remove_done :
        (id : ℕ) (w : W)
        → (services.remove id w).0 ≡ ok tt
        → v.catalog (services.remove id w).1 ≡ v.without id (v.catalog w)
    pub bin_catalog :
        (bin : List String → W → Outcome (Unit {0}) × W) (paths : List String) (w : W)
        → services.move_to_recycle_bin ≡ some bin
        → v.catalog (bin paths w).1 ≡ v.catalog w
    pub bin_files :
        (bin : List String → W → Outcome (Unit {0}) × W) (paths : List String) (w : W)
        → services.move_to_recycle_bin ≡ some bin
        → v.files (bin paths w).1 ≡ v.files w
    pub cleanup_catalog :
        (paths : List String) (w : W)
        → v.catalog (services.cleanup_directories paths w) ≡ v.catalog w
    pub cleanup_files :
        (paths : List String) (w : W) → v.files (services.cleanup_directories paths w) ≡ v.files w

  -- The files `f` are `d` after the staged moves, the newest of which comes first.
  abbrev pub AreMoved : List StagedEntry → D → D → Type 0
  AreMoved [] f d = f ≡ d
  AreMoved (e ∷ rest) f d =
      (before : W) × ((services.move_to_trash e.original_path before).0 ≡ ok e.trashed_path)
      × (f ≡ v.files (services.move_to_trash e.original_path before).1)
      × AreMoved rest (v.files before) d

  -- A file that was staged could not be restored.
  abbrev pub IsStuck : C → String → W → Type 0
  IsStuck c message w =
      (v.catalog w ≡ c)
      × ((trashed : String) × (original : String) × (before : W) × (services.restore_from_trash
              trashed original before
            ≡ (err message, w)))

  -- What holds after an exception.
  abbrev pub IsThrown : C → D → String → W → Type 0
  IsThrown c d message w = ((v.catalog w ≡ c) × (v.files w ≡ d)) ⊎ IsStuck c message w

  -- A step either ends with what `Q` says, or with an exception after which nothing has changed.
  abbrev pub Ends : {A : Type 0} → C → D → (A → W → Type 0) → Outcome A × W → Type 0
  Ends c d Q (ok a, w) = Q a w
  Ends c d Q (err message, w) = IsThrown c d message w

  -- The original paths of the staged files.
  abbrev pub originals : List StagedEntry → List String
  originals [] = []
  originals (e ∷ rest) = e.original_path ∷ originals rest

  -- A path that there is, in front of those already there.
  abbrev pub with_path : Option String → List String → List String
  with_path none paths = paths
  with_path (some path) paths = path ∷ paths

  -- The book is in the catalog, and `paths` are those of its files that exist: the cover, if it has
  -- one on the disk, and the book.
  abbrev pub IsFound : ℕ → List String → W → Type 0
  IsFound id paths w =
      (book : Book) × (source : Option String) × (cover : Option String) × (services.get_by_id id w
        ≡ ok (some book))
      × (services.resolve book.managed_path w ≡ ok source)
      × ((resolve_cover services book.cover_path w).0 ≡ ok cover)
      × (paths ≡ with_path cover (with_path source []))

  -- What MoveBookToTrash leaves when it returns, of the world `w`.
  abbrev pub IsTrashed : ℕ → W → Option TrashedBookResult → W → Type 0
  IsTrashed id w none w' =
      (services.get_by_id id w ≡ ok none) × (v.catalog w' ≡ v.catalog w) × (v.files w' ≡ v.files w)
  IsTrashed id w (some r) w' =
      (r.book_id ≡ id)
      × (v.catalog w' ≡ v.without id (v.catalog w))
      × ((staged : List StagedEntry) × IsFound id (originals staged) w
          × AreMoved staged (v.files w') (v.files w))
