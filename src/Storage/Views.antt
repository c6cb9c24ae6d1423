-- ===== src/Storage/Views.antt =====
-- What the files of a disk hold, and what std::filesystem promises of it.
use librova.Base.{Bool, String, Option, [], ◌∷◌, true, false, none, some, ◌≡◌, ◌⊎◌, str_eq}
use librova.Base.Outcome.{Outcome, ok, err}
use librova.Importing.{PreparedStorage}
use librova.Storage.{FileSystem, restore_message, build_rollback_failure_message}

-- `content path w` is what the regular file at the path holds, and none if there is no such file.
pub record DiskView (W C : Type 0) : Type 0 where
  pub content : String → W → Option C
  pub is_within : String → String → Bool

module _ {W C : Type 0} (v : DiskView W C) (system : FileSystem W) where
  abbrev pub IsKept : W → W → String → Type 0
  IsKept w w' path = v.content path w' ≡ v.content path w

  abbrev pub IsElsewhere : String → String → String → Type 0
  IsElsewhere a b path = (str_eq path a ≡ false) × (str_eq path b ≡ false)

  abbrev pub AreDistinct : String → String → Type 0
  AreDistinct a b = (str_eq a b ≡ false) × (str_eq b a ≡ false)

  -- A rename moves a file or changes nothing. A copy that fails may leave a part of the file at the
  -- destination; the removal of a file may fail, and then the file stays.
  pub record IsLawful : Type 0 where
    pub ensure_content :
        (directory path : String) (w : W) → IsKept w (system.ensure_directory directory w).1 path
    pub rename_done :
        (a b : String) (c : C) (w : W)
        → v.content a w ≡ some c
        → str_eq a b ≡ false
        → (system.rename a b w).0 ≡ none
        → (v.content b (system.rename a b w).1 ≡ some c)
          × (v.content a (system.rename a b w).1 ≡ none)
          × ((path : String) → IsElsewhere a b path → IsKept w (system.rename a b w).1 path)
    pub rename_refused :
        (a b message path : String) (w : W)
        → (system.rename a b w).0 ≡ some message
        → IsKept w (system.rename a b w).1 path
    pub copy_done :
        (a b : String) (c : C) (w : W)
        → v.content a w ≡ some c
        → (system.copy_file a b w).0 ≡ none
        → v.content b (system.copy_file a b w).1 ≡ some c
    pub copy_kept :
        (a b path : String) (w : W)
        → str_eq path b ≡ false
        → IsKept w (system.copy_file a b w).1 path
    pub remove_kept :
        (a path : String) (w : W) → str_eq path a ≡ false → IsKept w (system.remove a w) path
    pub remove_all_kept :
        (directory path : String) (w : W)
        → v.is_within directory path ≡ false
        → IsKept w (system.remove_all directory w) path

  -- At some time the file could only be copied from `a` to `b`, not renamed.
  abbrev pub NeedsCopy : String → String → Type 0
  NeedsCopy a b = (w : W) × (message : String) × ((system.rename a b w).0 ≡ some message)

  -- How a move of a file that holds `c` may end.
  abbrev pub IsMove : String → String → C → W → Outcome (Unit {0}) × W → Type 0
  IsMove a b c w (ok _, w') =
      (v.content b w' ≡ some c)
      × ((path : String) → IsElsewhere a b path → IsKept w w' path)
      × ((v.content a w' ≡ none) ⊎ NeedsCopy a b)
  IsMove a b c w (err message, w') =
      ((path : String) → str_eq path b ≡ false → IsKept w w' path) × (IsKept w w' b ⊎ NeedsCopy a b)

  abbrev pub IsOther : Option String → String → Type 0
  IsOther none path = Unit
  IsOther (some taken) path = str_eq path taken ≡ false

  -- Neither a file of the prepared book nor a file of its staging directory.
  abbrev pub IsOutside : PreparedStorage → String → Type 0
  IsOutside p path =
      IsElsewhere p.staged_book_path p.final_book_path path
      × IsOther p.staged_cover_path path
      × IsOther p.final_cover_path path
      × (v.is_within (system.parent_path p.staged_book_path) path ≡ false)

  abbrev pub IsCoverReady : PreparedStorage → W → Option String → Option String → Type 0
  IsCoverReady p w none final = Unit
  IsCoverReady p w (some staged) none = IsElsewhere p.staged_book_path p.final_book_path staged
  IsCoverReady p w (some staged) (some final) =
      ((d : C) × (v.content staged w ≡ some d))
      × IsElsewhere p.staged_book_path p.final_book_path staged
      × IsElsewhere staged final p.final_book_path
      × AreDistinct staged final
      × (v.is_within (system.parent_path p.staged_book_path) final ≡ false)

  -- What PrepareImport leaves for a new id: the staged files exist, the book's place is free, the
  -- paths differ, and the places in the library are not in the staging directory.
  abbrev pub IsPrepared : PreparedStorage → W → Type 0
  IsPrepared p w =
      ((c : C) × (v.content p.staged_book_path w ≡ some c))
      × (v.content p.final_book_path w ≡ none)
      × AreDistinct p.staged_book_path p.final_book_path
      × (v.is_within (system.parent_path p.staged_book_path) p.final_book_path ≡ false)
      × IsCoverReady p w p.staged_cover_path p.final_cover_path

  -- The final cover file holds what the staged one held.
  abbrev pub IsCoverPlaced : Option String → Option String → W → W → Type 0
  IsCoverPlaced none final w w' = Unit
  IsCoverPlaced (some staged) none w w' = true ≡ false
  IsCoverPlaced (some staged) (some final) w w' = v.content final w' ≡ v.content staged w

  abbrev pub IsCoverKept : Option String → W → W → Type 0
  IsCoverKept none w w' = Unit
  IsCoverKept (some staged) w w' = IsKept w w' staged

  -- The book is in its staging directory again, and its place in the library is free unless a copy
  -- took the place of a rename; or it is still in the library, and the message says so.
  abbrev pub IsReturned : PreparedStorage → W → String → W → Type 0
  IsReturned p w message w' =
      (IsKept w w' p.staged_book_path
        × ((v.content p.final_book_path w' ≡ none)
            ⊎ (NeedsCopy p.staged_book_path p.final_book_path
                ⊎ NeedsCopy p.final_book_path p.staged_book_path)))
      ⊎ ((v.content p.final_book_path w' ≡ v.content p.staged_book_path w)
          × ((original : String) × (message
                ≡ build_rollback_failure_message original
                    (restore_message system "book" p.final_book_path p.staged_book_path ∷ []))))

  -- How CommitImport may end.
  abbrev pub IsCommit : PreparedStorage → W → Outcome (Unit {0}) × W → Type 0
  IsCommit p w (ok _, w') =
      (v.content p.final_book_path w' ≡ v.content p.staged_book_path w)
      × IsCoverPlaced p.staged_cover_path p.final_cover_path w w'
      × ((path : String) → IsOutside p path → IsKept w w' path)
  IsCommit p w (err message, w') =
      IsReturned p w message w'
      × IsCoverKept p.staged_cover_path w w'
      × ((path : String) → IsOutside p path → IsKept w w' path)
