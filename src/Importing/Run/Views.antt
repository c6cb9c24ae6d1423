-- ===== src/Importing/Run/Views.antt =====
-- How an import is seen from outside: the rows of the catalog and the files of the managed library.
-- The staging directory and the working directory are not part of the view.
pub mod Open
pub mod Writing
pub mod Staging
pub mod Atomic
pub mod Handled
use librova.Base.{ℕ, String, List, Option, some, none, ◌≡◌, ◌≢◌, [], ◌∷◌}
use librova.Base.Outcome.{Outcome, ok, err}
use librova.Catalog.{added}
use librova.Conversion.{ConversionResult}
use librova.Importing.{Book, PreparedStorage}
use librova.Importing.Services.{Services}

-- `own p w` are the managed files at the final places of `p`, `rest p w` are all others, and
-- `row id b c` is the catalog `c` with the new row of `b`.
pub record View (W Metadata C D : Type 0) : Type 0 where
  pub catalog : W → C
  pub managed : W → D
  pub rest : PreparedStorage → W → D
  pub own : PreparedStorage → W → D
  pub row : ℕ → Book Metadata → C → C

module _ {W Metadata C D : Type 0} (v : View W Metadata C D) where
  -- Nothing that the view shows has changed.
  abbrev pub Quiet : W → W → Type 0
  Quiet w w' =
      (v.catalog w' ≡ v.catalog w)
      × (v.managed w' ≡ v.managed w)
      × ((p : PreparedStorage) → v.rest p w' ≡ v.rest p w)
      × ((p : PreparedStorage) → v.own p w' ≡ v.own p w)

  -- What the services promise. `IsTemporary` are the paths in the working directory.
  pub record IsLawful (services : Services W Metadata) (IsTemporary : String → Type 0)
      : Type 0 where
    -- The files that are not of `p` are a part of the managed files.
    pub managed_rest :
        (p : PreparedStorage) (w w' : W) → v.managed w ≡ v.managed w' → v.rest p w ≡ v.rest p w'
    pub report_quiet :
        (percent : ℕ) (message : String) (w : W) → Quiet w (services.report_value percent message w)
    pub remove_path_quiet :
        (path : String) (w : W) → IsTemporary path → Quiet w (services.remove_path_no_throw path w)
    pub reserve_quiet : (w : W) → Quiet w (services.repository.reserve_id w).1
    pub convert_quiet : (request : _) (w : W) → Quiet w (services.convert request w).1
    pub convert_temporary :
        (request : _) (w : W) (r : ConversionResult)
        → (services.convert request w).0 ≡ ok r
        → IsTemporary r.output_path
    pub write_cover_quiet :
        (directory : String) (id : ℕ) (cover : _) (w : W)
        → Quiet w (services.write_cover_temp_file directory id cover w).1
    pub write_cover_temporary :
        (directory : String) (id : ℕ) (cover : _) (w : W) (path : String)
        → (services.write_cover_temp_file directory id cover w).0 ≡ ok path
        → IsTemporary path
    -- Preparing writes to the staging directory.
    pub prepare_quiet : (plan : _) (w : W) → Quiet w (services.storage.prepare_import plan w).1
    pub commit_catalog :
        (p : PreparedStorage) (w : W)
        → v.catalog (services.storage.commit_import p w).1 ≡ v.catalog w
    pub commit_rest :
        (p : PreparedStorage) (w : W) → v.rest p (services.storage.commit_import p w).1 ≡ v.rest p w
    pub rollback_catalog :
        (p : PreparedStorage) (w : W)
        → v.catalog (services.storage.rollback_import p w) ≡ v.catalog w
    -- Whether or not it can remove them, a rollback only touches the files of its storage.
    pub rollback_rest :
        (p : PreparedStorage) (w : W) → v.rest p (services.storage.rollback_import p w) ≡ v.rest p w
    pub add_rest :
        (b : Book Metadata) (p : PreparedStorage) (w : W)
        → v.rest p (services.repository.add b w).1 ≡ v.rest p w
    pub add_managed :
        (b : Book Metadata) (w : W) → v.managed (services.repository.add b w).1 ≡ v.managed w
    pub add_row :
        (b : Book Metadata) (w : W) (id : ℕ)
        → (services.repository.add b w).0 ≡ added id
        → v.catalog (services.repository.add b w).1 ≡ v.row id b (v.catalog w)
    pub add_refused :
        (b : Book Metadata) (w : W)
        → ((id : ℕ) → (services.repository.add b w).0 ≢ added id)
        → v.catalog (services.repository.add b w).1 ≡ v.catalog w
    pub remove_rest :
        (id : ℕ) (p : PreparedStorage) (w : W)
        → v.rest p (services.repository.remove id w).1 ≡ v.rest p w
    pub remove_own :
        (id : ℕ) (p : PreparedStorage) (w : W)
        → v.own p (services.repository.remove id w).1 ≡ v.own p w
    -- Removing a row that was just added brings the catalog back.
    pub remove_undoes :
        (b : Book Metadata) (id : ℕ) (before w : W)
        → (services.repository.add b before).0 ≡ added id
        → v.catalog w ≡ v.row id b (v.catalog before)
        → (services.repository.remove id w).0 ≡ ok tt
        → v.catalog (services.repository.remove id w).1 ≡ v.catalog before
    pub remove_refused :
        (id : ℕ) (w : W) (message : String)
        → (services.repository.remove id w).0 ≡ err message
        → v.catalog (services.repository.remove id w).1 ≡ v.catalog w
