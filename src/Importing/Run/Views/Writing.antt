-- ===== src/Importing/Run/Views/Writing.antt =====
-- The writing half of an import: the catalog row, then the commit of the files.
use librova.Base.{refl, ◌≡◌, String, ℕ, ◌≢◌, ◌⊎◌, ◌∙◌, some, List, ap, inr, inl, sym, subst}
use librova.Importing.Run.Views.{View, IsLawful}
use librova.Base.Outcome.{ok, err}
use librova.Importing.Services.{Services}
use librova.Importing.{SingleFileImportResult, Book, PreparedStorage, imported, DuplicateMatch}
use librova.Importing.Run.{RunState, commit, after_add, call, remove_temporaries}
use librova.Importing.Run.Views.Open.{
  IsOpen, TemporaryIfSet, Holds, and_then-Holds, Holds-cases, remove_temporaries-Quiet, Undo,
  IsStaged, AreRestored,
}
use librova.Conversion.{ImportConversionOutcome}
use librova.Catalog.{added, Insertion, duplicate_hash, other_failure}

module _ {W Metadata C D : Type 0} (v : View W Metadata C D) (services : Services W Metadata)
    (IsTemporary : String → Type 0) (lawful : IsLawful v services IsTemporary) (w0 : W) where
  -- The book is stored, in the catalog and on the disk.
  pub record IsCommitted (r : SingleFileImportResult) (w : W) : Type 0 where
    pub id : ℕ
    pub book : Book Metadata
    pub storage : PreparedStorage
    pub is_imported : r.status ≡ imported
    pub imported_id : r.imported_book_id ≡ some id
    pub row_added : v.catalog w ≡ v.row id book (v.catalog w0)
    pub located : book.managed_path ≡ storage.relative_book_path
    pub before : W
    pub commit_succeeded : (services.storage.commit_import storage before).0 ≡ ok tt
    pub files_placed :
        v.own storage w ≡ v.own storage (services.storage.commit_import storage before).1
    pub others_kept : IsStaged v services IsTemporary lawful w0 storage w

  -- Nothing is stored.
  pub record IsUnchanged (r : SingleFileImportResult) (w : W) : Type 0 where
    pub not_imported : r.status ≢ imported
    pub catalog_kept : v.catalog w ≡ v.catalog w0
    pub files_restored : AreRestored v services IsTemporary lawful w0 w

  abbrev pub Done : SingleFileImportResult → RunState W → Type 0
  Done r s = IsUnchanged r s.world ⊎ IsCommitted r s.world

  -- The row is in the catalog, and the files of `p` are on their way.
  pub record IsWritten (p : PreparedStorage) (id : ℕ) (s : RunState W) : Type 0 where
    pub book : Book Metadata
    pub before : W
    pub cover : TemporaryIfSet v services IsTemporary lawful w0 s.temporary_cover_path
    pub converted : TemporaryIfSet v services IsTemporary lawful w0 s.temporary_converted_path
    pub was_added : (services.repository.add book before).0 ≡ added id
    pub located : book.managed_path ≡ p.relative_book_path
    pub from_start : v.catalog before ≡ v.catalog w0
    pub row_added : v.catalog s.world ≡ v.row id book (v.catalog w0)
    pub prepared : s.prepared_storage ≡ some p
    pub undo : IsStaged v services IsTemporary lawful w0 p s.world
    pub added_id : s.added_book_id ≡ some id

  -- Committing the files has failed, and nothing has touched them since.
  pub record IsFailedCommit (p : PreparedStorage) (w : W) : Type 0 where
    pub before : W
    pub error : String
    pub commit_failed : (services.storage.commit_import p before).0 ≡ err error
    pub files_left : v.own p w ≡ v.own p (services.storage.commit_import p before).1

  -- The state in which an exception may leave the body of Run.
  abbrev pub Broken : RunState W → Type 0
  Broken s =
      IsOpen v services IsTemporary lawful w0 s
      ⊎ ((p : PreparedStorage) × (id : ℕ) × IsWritten p id s × IsFailedCommit p s.world)

  -- The files are in place too.
  record IsPlaced (p : PreparedStorage) (id : ℕ) (s : RunState W) : Type 0 where
    book : Book Metadata
    cover : TemporaryIfSet v services IsTemporary lawful w0 s.temporary_cover_path
    converted : TemporaryIfSet v services IsTemporary lawful w0 s.temporary_converted_path
    row_added : v.catalog s.world ≡ v.row id book (v.catalog w0)
    located : book.managed_path ≡ p.relative_book_path
    before : W
    commit_succeeded : (services.storage.commit_import p before).0 ≡ ok tt
    files_placed : v.own p s.world ≡ v.own p (services.storage.commit_import p before).1
    others_kept : IsStaged v services IsTemporary lawful w0 p s.world

  -- What a step leaves alone that keeps the catalog and the files other than those of `p`.
  IsWritten-after :
      (p : PreparedStorage) (id : ℕ) (s : RunState W) (w : W)
      → v.catalog w ≡ v.catalog s.world
      → v.rest p w ≡ v.rest p s.world
      → IsWritten p id s
      → IsWritten p id (record s { world = w })
  IsWritten-after p id s w same_catalog same_rest h = record {
    book = h.book;
    before = h.before;
    cover = h.cover;
    converted = h.converted;
    was_added = h.was_added;
    located = h.located;
    from_start = h.from_start;
    row_added = same_catalog ∙ h.row_added;
    prepared = h.prepared;
    undo = (h.undo.0, same_rest ∙ h.undo.1);
    added_id = h.added_id;
  }

  module _ (p : PreparedStorage) (outcome : ImportConversionOutcome)
      (duplicates : List DuplicateMatch) (warnings : List String) where
    commit-Ends :
        (id : ℕ) (s : RunState W)
        → IsWritten p id s
        → Holds Done Broken (commit services p outcome duplicates warnings id s)
    unfolding commit
    commit-Ends id s h =
        let reported = services.report_value 95 "Committing managed files" s.world in
        let q = lawful.report_quiet 95 "Committing managed files" s.world in
        let h1 = IsWritten-after p id s reported q.0 (q.2 p) h in
        let s1 : RunState W = record s { world = reported } in
        let after = (services.storage.commit_import p reported).1 in
        and_then-Holds (λ _ s'. IsPlaced p id s') Done Broken
          (call (services.storage.commit_import p) s1) _
          (Holds-cases (λ _ s'. IsPlaced p id s') Broken
            (services.storage.commit_import p reported).0 (record s { world = after })
            (λ a e. record {
              book = h1.book;
              cover = h1.cover;
              converted = h1.converted;
              row_added = lawful.commit_catalog p reported ∙ h1.row_added;
              located = h1.located;
              before = reported;
              commit_succeeded = e;
              files_placed = refl;
              others_kept = (h1.undo.0, lawful.commit_rest p reported ∙ h1.undo.1);
            })
            (λ message e. inr (
              p,
              id,
              IsWritten-after p id s1 after (lawful.commit_catalog p reported)
                  (lawful.commit_rest p reported) h1,
              record { before = reported; error = message; commit_failed = e; files_left = refl },
            )))
          (λ a s' placed.
            let r =
              remove_temporaries-Quiet v services IsTemporary lawful w0 s' placed.cover
                placed.converted in
            let w = (remove_temporaries services s').1.world in
            let t = lawful.report_quiet 100 "Import completed" w in
            inr (record {
              id = id;
              book = placed.book;
              storage = p;
              is_imported = refl;
              imported_id = refl;
              row_added = t.0 ∙ r.0 ∙ placed.row_added;
              located = placed.located;
              before = placed.before;
              commit_succeeded = placed.commit_succeeded;
              files_placed = t.3 p ∙ r.3 p ∙ placed.files_placed;
              others_kept = (placed.others_kept.0, t.2 p ∙ r.2 p ∙ placed.others_kept.1);
            }))

    pub after_add_ends :
        (book : Book Metadata) (s : RunState W) (o : Insertion)
        → (services.repository.add book s.world).0 ≡ o
        → s.prepared_storage ≡ some p
        → IsStaged v services IsTemporary lawful w0 p s.world
        → book.managed_path ≡ p.relative_book_path
        → IsOpen v services IsTemporary lawful w0 s
        → Holds Done Broken (
            after_add services p outcome duplicates warnings o
              (record s { world = (services.repository.add book s.world).1 }))
    unfolding after_add
    after_add_ends book s (added id) e prepared undo located h =
        commit-Ends id
          (record s { world = (services.repository.add book s.world).1; added_book_id = some id })
          (record {
            book = book;
            before = s.world;
            cover = h.cover;
            converted = h.converted;
            was_added = e;
            located = located;
            from_start = h.catalog_kept;
            row_added = lawful.add_row book s.world id e ∙ ap (v.row id book) h.catalog_kept;
            prepared = prepared;
            undo = (undo.0, lawful.add_rest book p s.world ∙ undo.1);
            added_id = refl;
          })
    after_add_ends book s (duplicate_hash existing) e prepared undo located h =
        let w = (services.repository.add book s.world).1 in
        let undone = services.storage.rollback_import p w in
        let r =
          remove_temporaries-Quiet v services IsTemporary lawful w0 (record s { world = undone })
            h.cover h.converted in
        inl (record {
          not_imported = λ same. cc;
          catalog_kept =
              r.0
              ∙ lawful.rollback_catalog p w
              ∙ lawful.add_refused book s.world (λ id e'. let clash = sym e ∙ e' in cc)
              ∙ h.catalog_kept;
          files_restored = inr (
            p,
            w,
            (undo.0, r.2 p ∙ lawful.rollback_rest p w ∙ lawful.add_rest book p s.world ∙ undo.1),
            r.3 p,
          );
        })
    after_add_ends book s (other_failure message) e prepared undo located h =
        let w = (services.repository.add book s.world).1 in
        inl (record {
          cover = h.cover;
          converted = h.converted;
          catalog_kept =
              lawful.add_refused book s.world (λ id e'. let clash = sym e ∙ e' in cc)
              ∙ h.catalog_kept;
          managed_kept = lawful.add_managed book s.world ∙ h.managed_kept;
          undo =
              subst (λ o. Undo v services IsTemporary lawful w0 o w) (sym prepared)
                (undo.0, lawful.add_rest book p s.world ∙ undo.1);
          not_added = h.not_added;
        })
