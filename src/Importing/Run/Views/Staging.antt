-- ===== src/Importing/Run/Views/Staging.antt =====
-- The staging half of an import: the cover, PrepareImport, and what follows.
use librova.Base.{
  ◌≡◌, String, ℕ, ◌≢◌, Option, List, some, inl, refl, ◌∙◌, Bool-cases, ◌&&◌, inr, none,
}
use librova.Importing.Run.Views.{View, IsLawful, Quiet}
use librova.Importing.Run.{
  RunState, Step, build_cancelled, build_failed, write_cover, store_cover, store_book, and_then,
  report, call, discard, resolve_managed_cover, store_cover_of, stage, prepare_staging,
  prepare_storage,
}
use librova.Importing.Services.{Services}
use librova.Base.Outcome.{Outcome, ok, err}
use librova.Importing.Run.Views.Open.{
  IsOpen, Holds, and_then-Holds, Quiet-IsOpen, discard_restores, IsStaged,
}
use librova.Importing.{
  SingleFileImportResult, PreparedStorage, SingleFileImportRequest, imported, CoverData, ParsedBook,
  DuplicateMatch, CoverProcessingResult, has_cover, StoragePlan,
}
use librova.Importing.Run.Views.Writing.{Done, Broken, after_add_ends}
use librova.Conversion.{BookFormat, ImportConversionOutcome}

pub and_then-cases :
    {W A B : Type 0} (P : B → RunState W → Type 0) (Q : RunState W → Type 0) (o : Outcome A)
    (s : RunState W) (f : A → Step W B)
    → Q s
    → ((a : A) → o ≡ ok a → Holds P Q (f a s))
    → Holds P Q (and_then (o, s) f)
and_then-cases P Q (ok a) s f broken next = next a refl
and_then-cases P Q (err message) s f broken next = broken

module _ {W Metadata C D : Type 0} (v : View W Metadata C D) (services : Services W Metadata)
    (IsTemporary : String → Type 0) (lawful : IsLawful v services IsTemporary) (w0 : W) where
  abbrev pub Opened : RunState W → Type 0
  Opened s = IsOpen v services IsTemporary lawful w0 s

  abbrev pub Ends : Outcome SingleFileImportResult × RunState W → Type 0
  Ends x = Holds (Done v services IsTemporary lawful w0) (Broken v services IsTemporary lawful w0) x

  -- A step that leaves the import open.
  abbrev pub Keeps : {A : Type 0} → Outcome A × RunState W → Type 0
  Keeps x = Holds (λ _ s. Opened s) (Broken v services IsTemporary lawful w0) x

  pub then-Ends :
      {A : Type 0} (x : Outcome A × RunState W) (f : A → Step W SingleFileImportResult)
      → Keeps x
      → ((a : A) (s : RunState W) → Opened s → Ends (f a s))
      → Ends (and_then x f)
  then-Ends x f h next = and_then-Holds (λ _ s. Opened s) _ _ x f h next

  pub reported :
      (percent : ℕ) (message : String) (s : RunState W)
      → Opened s
      → Opened (report services percent message s).1
  reported percent message s h =
      Quiet-IsOpen v services IsTemporary lawful w0 s
        (services.report_value percent message s.world)
        (lawful.report_quiet percent message s.world) h

  -- A call that does not change the view.
  pub called :
      {A B : Type 0} (P : B → RunState W → Type 0) (f : W → Outcome A × W) (s : RunState W)
      (k : A → Step W B)
      → Quiet v s.world (f s.world).1
      → Opened s
      → ((a : A)
          → (f s.world).0 ≡ ok a
          → Opened (record s { world = (f s.world).1 })
          → Holds P
              (Broken v services IsTemporary lawful w0)
              (k a (record s { world = (f s.world).1 })))
      → Holds P (Broken v services IsTemporary lawful w0) (and_then (call f s) k)
  called P f s k q h next =
      let h' = Quiet-IsOpen v services IsTemporary lawful w0 s (f s.world).1 q h in
      and_then-cases P (Broken v services IsTemporary lawful w0) (f s.world).0
        (record s { world = (f s.world).1 }) k (inl h') (λ a e. next a e h')

  pub unchanged_after_discard :
      (r : SingleFileImportResult) (s : RunState W)
      → r.status ≢ imported
      → Opened s
      → Done v services IsTemporary lawful w0 r (discard services s).1
  unchanged_after_discard r s other h =
      let q = discard_restores v services IsTemporary lawful w0 s h.cover h.converted h.undo in
      inl
        (record { not_imported = other; catalog_kept = q.0 ∙ h.catalog_kept; files_restored = q.1 })

  pub build_cancelled-Ends :
      (format : Option BookFormat) (duplicates : List DuplicateMatch) (warnings : List String)
      (s : RunState W)
      → Opened s
      → Ends (build_cancelled services format duplicates warnings s)
  unfolding build_cancelled
  build_cancelled-Ends format duplicates warnings s h = unchanged_after_discard _ s (λ e. cc) h

  pub build_failed-Ends :
      (message : String) (warnings : List String) (s : RunState W)
      → Opened s
      → Ends (build_failed services message warnings s)
  unfolding build_failed
  build_failed-Ends message warnings s h = unchanged_after_discard _ s (λ e. cc) h

  -- The state after PrepareImport.
  abbrev pub Prepared : PreparedStorage → RunState W → Type 0
  Prepared p s =
      Opened s × (s.prepared_storage ≡ some p) × IsStaged v services IsTemporary lawful w0 p s.world

  resolve_managed_cover-Keeps :
      (o : Option (CoverData → Outcome CoverProcessingResult)) (source : CoverData) (s : RunState W)
      → Opened s
      → Keeps (resolve_managed_cover services o source s)
  unfolding resolve_managed_cover
  resolve_managed_cover-Keeps none source s h = h
  resolve_managed_cover-Keeps (some process) source s h =
      and_then-cases (λ _ s'. Opened s') (Broken v services IsTemporary lawful w0) (process source)
        s _ (inl h) (λ r e. h)

  write_cover-Keeps :
      (request : SingleFileImportRequest) (source : CoverData) (id : ℕ) (s : RunState W)
      → Opened s
      → Keeps (write_cover services request source id s)
  unfolding write_cover
  write_cover-Keeps request source id s h =
      and_then-Holds (λ _ s'. Opened s') (λ _ s'. Opened s')
        (Broken v services IsTemporary lawful w0)
        (resolve_managed_cover services services.process_cover source s) _
        (resolve_managed_cover-Keeps services.process_cover source s h)
        (λ cover s' h'.
          called (λ _ s''. Opened s'')
            (services.write_cover_temp_file request.working_directory id cover) s' _
            (lawful.write_cover_quiet request.working_directory id cover s'.world) h'
            (λ path e h''. record {
              cover =
                  lawful.write_cover_temporary request.working_directory id cover s'.world path e;
              converted = h''.converted;
              catalog_kept = h''.catalog_kept;
              managed_kept = h''.managed_kept;
              undo = h''.undo;
              not_added = h''.not_added;
            }))

  store_cover_of-Keeps :
      (request : SingleFileImportRequest) (book : ParsedBook Metadata) (id : ℕ) (o : Option String)
      (s : RunState W)
      → Opened s
      → Keeps (store_cover_of services request book id o s)
  unfolding store_cover_of
  store_cover_of-Keeps request book id none s h = h
  store_cover_of-Keeps request book id (some extension) s h =
      elim (Bool-cases (request.import_covers && has_cover book)) [
        | inl e ↦ rw e (
            write_cover-Keeps request (record { extension = extension; bytes = book.cover_bytes })
              id s h)
        | inr e ↦ rw e h
      ]

  store_cover-Keeps :
      (request : SingleFileImportRequest) (book : ParsedBook Metadata) (id : ℕ) (s : RunState W)
      → Opened s
      → Keeps (store_cover services request book id s)
  unfolding store_cover
  store_cover-Keeps request book id s h =
      store_cover_of-Keeps request book id book.cover_extension s h

  store_book-Ends :
      (request : SingleFileImportRequest) (book : ParsedBook Metadata) (hash : Option String)
      (duplicates : List DuplicateMatch) (warnings : List String) (id : ℕ)
      (outcome : ImportConversionOutcome) (p : PreparedStorage) (s : RunState W)
      → Prepared p s
      → Ends (store_book services request book hash duplicates warnings id outcome p s)
  unfolding store_book
  store_book-Ends request book hash duplicates warnings id outcome p s h =
      elim (Bool-cases (services.cancelled 3)) [
        | inl e ↦ rw e (build_cancelled-Ends (some outcome.format) duplicates warnings s h.0)
        | inr e ↦ rw e (
            and_then-cases (Done v services IsTemporary lawful w0)
              (Broken v services IsTemporary lawful w0)
              (services.file_size p.staged_book_path s.world) s _ (inl h.0)
              (λ size _.
                let message : String = "Writing book metadata" in
                after_add_ends v services IsTemporary lawful w0 p outcome duplicates warnings _
                  (report services 85 message s).1 _ refl h.1
                  (h.2.0, (lawful.report_quiet 85 message s.world).2 p ∙ h.2.1) refl
                  (reported 85 message s h.0)))
      ]

  prepare_staging-Prepared :
      (plan : StoragePlan) (s : RunState W)
      → Opened s
      → Holds
          (λ p s'. Prepared p s')
          (Broken v services IsTemporary lawful w0)
          (prepare_staging services plan s)
  prepare_staging-Prepared plan s h =
      called (λ p s'. Prepared p s') (services.storage.prepare_import plan) s _
        (lawful.prepare_quiet plan s.world) h
        (λ p e h'.
          let undone : IsStaged v services IsTemporary lawful w0 p _ =
            ((plan, s.world, e), lawful.managed_rest p _ w0 h'.managed_kept) in
          (
            record {
              cover = h'.cover;
              converted = h'.converted;
              catalog_kept = h'.catalog_kept;
              managed_kept = h'.managed_kept;
              undo = undone;
              not_added = h'.not_added;
            },
            refl,
            undone,
          ))

  stage-Ends :
      (request : SingleFileImportRequest) (book : ParsedBook Metadata) (hash : Option String)
      (duplicates : List DuplicateMatch) (warnings : List String) (id : ℕ)
      (outcome : ImportConversionOutcome) (s : RunState W)
      → Opened s
      → Ends (stage services request book hash duplicates warnings id outcome s)
  unfolding stage
  stage-Ends request book hash duplicates warnings id outcome s h =
      let message : String = "Preparing managed storage" in
      and_then-Holds (λ p s'. Prepared p s') (Done v services IsTemporary lawful w0)
        (Broken v services IsTemporary lawful w0)
        (prepare_staging services _ (report services 70 message s).1) _
        (prepare_staging-Prepared _ (report services 70 message s).1 (reported 70 message s h))
        (λ p s' h'. store_book-Ends request book hash duplicates warnings id outcome p s' h')

  pub prepare_storage-Ends :
      (request : SingleFileImportRequest) (book : ParsedBook Metadata) (hash : Option String)
      (duplicates : List DuplicateMatch) (warnings : List String) (id : ℕ)
      (outcome : ImportConversionOutcome) (s : RunState W)
      → Opened s
      → Ends (prepare_storage services request book hash duplicates warnings id outcome s)
  unfolding prepare_storage
  prepare_storage-Ends request book hash duplicates warnings id outcome s h =
      then-Ends (store_cover services request book id s) _ (store_cover-Keeps request book id s h)
        (λ a s' h'. elim (Bool-cases (services.cancelled 2)) [
          | inl e ↦ rw e (build_cancelled-Ends (some outcome.format) duplicates warnings s' h')
          | inr e ↦ rw e (stage-Ends request book hash duplicates warnings id outcome s' h')
        ])
