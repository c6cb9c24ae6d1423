-- ===== src/Importing/Run/Views/Handled.antt =====
-- The exception handler of Run, and Run as a whole.
use librova.Importing.Run.Views.{View, IsLawful}
use librova.Base.{
  ◌≡◌, String, ℕ, Option, ◌⊎◌, Bool-cases, none, some, inl, inr, ◌∙◌, refl, subst, sym, ap,
  some-injective,
}
use librova.Importing.Services.{Services}
use librova.Importing.{
  SingleFileImportResult, PreparedStorage, SingleFileImportRequest, Book, failed, is_valid_request,
}
use librova.Importing.Run.{
  handle, after_removal, catch_error, run, RunState, import_source, first_state,
}
use librova.Importing.Run.Views.Writing.{IsUnchanged, IsCommitted, IsWritten, IsFailedCommit}
use librova.Base.Outcome.{Outcome, err, ok}
use librova.Importing.Run.Views.Staging.{Ends}
use librova.Importing.Run.Views.Open.{IsOpen, discard_restores, Undo, IsStaged}
use librova.Importing.Run.Views.Atomic.{import_source-Ends}

module _ {W Metadata C D : Type 0} (v : View W Metadata C D) (services : Services W Metadata)
    (IsTemporary : String → Type 0) (lawful : IsLawful v services IsTemporary) where
  -- The one case that is neither: the files could not be committed, and then the catalog refused to
  -- take the row out again. The row stays, and the files of its storage are as the commit left them.
  pub record IsLeftOver (w0 : W) (r : SingleFileImportResult) (w : W) : Type 0 where
    pub id : ℕ
    pub book : Book Metadata
    pub storage : PreparedStorage
    pub before : W
    pub refusal : String
    pub is_failed : r.status ≡ failed
    pub refused : services.repository.remove id before ≡ (err refusal, w)
    pub row_kept : v.catalog w ≡ v.row id book (v.catalog w0)
    pub failed_commit : IsFailedCommit v services IsTemporary lawful w0 storage w
    pub others_kept : IsStaged v services IsTemporary lawful w0 storage w

  -- How an import may end that began in the world `w0`.
  abbrev pub IsAtomic : W → SingleFileImportResult → W → Type 0
  IsAtomic w0 r w =
      IsUnchanged v services IsTemporary lawful w0 r w
      ⊎ IsCommitted v services IsTemporary lawful w0 r w
      ⊎ IsLeftOver w0 r w

  module _ (w0 : W) where
    handle_open :
        (message : String) (o : Option ℕ) (s : RunState W)
        → o ≡ none
        → IsOpen v services IsTemporary lawful w0 s
        → IsAtomic w0 (handle services message o s).0 (handle services message o s).1.world
    unfolding handle
    handle_open message (some id) s e h = cc
    handle_open message none s e h =
        let q = discard_restores v services IsTemporary lawful w0 s h.cover h.converted h.undo in
        inl (record {
          not_imported = λ same. cc;
          catalog_kept = q.0 ∙ h.catalog_kept;
          files_restored = q.1;
        })

    after_removal_written :
        (message : String) (p : PreparedStorage) (id : ℕ) (s : RunState W) (o : Outcome (Unit {0}))
        → (services.repository.remove id s.world).0 ≡ o
        → IsWritten v services IsTemporary lawful w0 p id s
        → IsFailedCommit v services IsTemporary lawful w0 p s.world
        → (let end =
              after_removal services message id o
                (record s { world = (services.repository.remove id s.world).1 }) in
            IsAtomic w0 end.0 end.1.world)
    unfolding after_removal
    after_removal_written message p id s (ok tt) e h f =
        let w = (services.repository.remove id s.world).1 in
        let undo : Undo v services IsTemporary lawful w0 s.prepared_storage w =
          subst (λ o. Undo v services IsTemporary lawful w0 o w) (sym h.prepared)
            (h.undo.0, lawful.remove_rest id p s.world ∙ h.undo.1) in
        let q =
          discard_restores v services IsTemporary lawful w0 (record s { world = w }) h.cover
            h.converted undo in
        inl (record {
          not_imported = λ same. cc;
          catalog_kept =
              q.0
              ∙ lawful.remove_undoes h.book id h.before s.world h.was_added
                  (h.row_added ∙ ap (v.row id h.book) (sym h.from_start)) e
              ∙ h.from_start;
          files_restored = q.1;
        })
    after_removal_written message p id s (err refusal) e h f = inr (
        inr (record {
          id = id;
          book = h.book;
          storage = p;
          before = s.world;
          refusal = refusal;
          is_failed = refl;
          refused = ap (λ o. (o, (services.repository.remove id s.world).1)) e;
          row_kept = lawful.remove_refused id s.world refusal e ∙ h.row_added;
          failed_commit = record {
            before = f.before;
            error = f.error;
            commit_failed = f.commit_failed;
            files_left = lawful.remove_own id p s.world ∙ f.files_left;
          };
          others_kept = (h.undo.0, lawful.remove_rest id p s.world ∙ h.undo.1);
        }))

    handle_written :
        (message : String) (p : PreparedStorage) (id : ℕ) (o : Option ℕ) (s : RunState W)
        → o ≡ some id
        → IsWritten v services IsTemporary lawful w0 p id s
        → IsFailedCommit v services IsTemporary lawful w0 p s.world
        → IsAtomic w0 (handle services message o s).0 (handle services message o s).1.world
    unfolding handle
    handle_written message p id none s e h f = cc
    handle_written message p id (some id') s e h f =
        subst
          (λ k.
            let end =
              after_removal services message k (services.repository.remove k s.world).0
                (record s { world = (services.repository.remove k s.world).1 }) in
            IsAtomic w0 end.0 end.1.world)
          (sym (some-injective id' id e)) (after_removal_written message p id s _ refl h f)

    catch_error-IsAtomic :
        (x : Outcome SingleFileImportResult × RunState W)
        → Ends v services IsTemporary lawful w0 x
        → IsAtomic w0 (catch_error services x).0 (catch_error services x).1.world
    unfolding catch_error
    catch_error-IsAtomic (ok r, s) (inl h) = inl h
    catch_error-IsAtomic (ok r, s) (inr h) = inr (inl h)
    catch_error-IsAtomic (err message, s) (inl h) =
        handle_open message s.added_book_id s h.not_added h
    catch_error-IsAtomic (err message, s) (inr (p, id, h, f)) =
        handle_written message p id s.added_book_id s h.added_id h f

  -- The import of a file is atomic, whatever throws and whenever it is cancelled. If the result says
  -- Imported, the catalog has the one new row of the reported id, the row has the path of the prepared
  -- storage, committing that storage has succeeded and its files are as the commit left them. If not,
  -- the catalog is as it was, and either no managed file has changed or the prepared storage was rolled
  -- back and its files are what the rollback left. There is one exception, which is reported as a
  -- failure: committing the files failed and the catalog refused to remove the new row, which then
  -- stays. In every case the files outside the prepared storage are as they were. Condition: the
  -- services are lawful.
  pub run-IsAtomic :
      (request : SingleFileImportRequest) (w : W)
      → IsAtomic w (run services request w).0 (run services request w).1
  unfolding run
  run-IsAtomic request w = elim (Bool-cases (is_valid_request request)) [
    | inl e ↦ rw e (
        catch_error-IsAtomic w (import_source services request (first_state services w)) (
          import_source-Ends v services IsTemporary lawful w request (first_state services w)
            (record {
              cover = tt;
              converted = tt;
              catalog_kept = refl;
              managed_kept = refl;
              undo = refl;
              not_added = refl;
            })))
    | inr e ↦
        rw e
          (inl (record { not_imported = λ k. cc; catalog_kept = refl; files_restored = inl refl }))
  ]
