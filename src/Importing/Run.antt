-- ===== src/Importing/Run.antt =====
-- CSingleFileImportCoordinator::Run as a chain of steps over the state that its lambdas and its
-- exception handler share. Log lines and stage timers are left out.
pub mod Views
use Prim.Native.String.{slice}
use text.Mathlib.Text.{starts_with, find?}
use librova.Base.{
  ℕ, Bool, String, List, Option, some, none, [], ◌∷◌, ◌++◌, ◌&&◌, ◌||◌, not, true, false, concat,
  if◌then◌else◌,
}
use librova.Base.Outcome.{Outcome, ok, err}
use librova.Catalog.{Insertion, added, duplicate_hash, other_failure}
use librova.Conversion.{
  BookFormat, ConversionResult, ImportConversionPlan, ImportConversionOutcome,
  plan_import_conversion, resolve_import_conversion, has_output, ImportConversionDecision,
  cancel_import, fail_import, store_source, store_converted, ConversionRequest, is_empty,
}
use librova.Importing.{
  SingleFileImportRequest, SingleFileImportResult, imported, rejected_duplicate, cancelled, failed,
  unsupported_format, is_valid_request, has_strict_duplicate, has_probable_duplicate, blank_result,
  DuplicateMatch, strict, same_hash, ParsedBook, has_cover, CoverData, is_empty_cover, processed,
  unchanged, unsupported, processing_failed, PreparedStorage, determine_storage_encoding, Book,
  CoverProcessingResult, StoragePlan,
}
use librova.Importing.Services.{Services}

-- The locals that Run's lambdas capture, and the world.
pub record RunState (W : Type 0) : Type 0 where
  pub world : W
  pub temporary_cover_path : Option String
  pub temporary_converted_path : Option String
  pub prepared_storage : Option PreparedStorage
  pub added_book_id : Option ℕ

abbrev pub Step : Type 0 → Type 0 → Type 0
Step W A = RunState W → Outcome A × RunState W

-- What follows a step: nothing if it threw.
abbrev pub and_then :
    {W A B : Type 0} → Outcome A × RunState W → (A → Step W B) → Outcome B × RunState W
and_then (ok a, s) f = f a s
and_then (err message, s) f = (err message, s)

infixl 5 ◌>>=◌ ◌>>◌
abbrev pub ◌>>=◌ : {W A B : Type 0} → Step W A → (A → Step W B) → Step W B
◌>>=◌ m f s = and_then (m s) f

abbrev pub ◌>>◌ : {W B : Type 0} → Step W (Unit {0}) → Step W B → Step W B
m >> k = m >>= λ _. k

abbrev pub pure : {W A : Type 0} → A → Step W A
pure a s = (ok a, s)

-- A call that only reads the world.
abbrev pub read : {W A : Type 0} → (W → Outcome A) → Step W A
read f s = (f s.world, s)

-- A call that changes the world and may throw, whatever it has done before.
abbrev pub call : {W A : Type 0} → (W → Outcome A × W) → Step W A
call f s = let (o, w) = f s.world in (o, record s { world = w })

-- A call that changes the world and does not throw.
abbrev pub act : {W : Type 0} → (W → W) → Step W (Unit {0})
act f s = (ok tt, record s { world = f s.world })

-- The part of a message that may leave the process: up to the diagnostics in brackets.
unfoldable pub sanitize_transport_error_message : String → String
sanitize_transport_error_message message =
    if starts_with message "FB2 metadata must contain at least one non-empty title-info/author."
    then "FB2 metadata must contain at least one non-empty title-info/author."
    else elim (find? message " [") [ none ↦ message | some i ↦ slice message 0 i ]

abbrev strict_duplicate_warning : String
strict_duplicate_warning = "Import rejected because a strict duplicate already exists."

abbrev probable_duplicate_warning : String
probable_duplicate_warning = "Import skipped because a probable duplicate was found."

abbrev forced_probable_duplicate_warning : String
forced_probable_duplicate_warning = "Import continued with explicit probable duplicate override."

-- What ResolveManagedCoverData makes of the processor's answer.
unfoldable pub managed_cover : CoverData → CoverProcessingResult → CoverData
managed_cover source r =
    let output : CoverData = if is_empty_cover r.cover then source else r.cover in
    elim r.status [ processed ↦ output | unchanged ↦ output | _ ↦ source ]

module _ {W Metadata : Type 0} (services : Services W Metadata) where
  abbrev pub report : ℕ → String → Step W (Unit {0})
  report percent message = act (services.report_value percent message)

  -- RemovePathNoThrow of a path that may not be there: an empty path is left alone.
  abbrev pub remove_temporary : Option String → W → W
  remove_temporary none w = w
  remove_temporary (some path) w = if is_empty path then w else services.remove_path_no_throw path w

  abbrev pub remove_temporaries : Step W (Unit {0})
  remove_temporaries s =
      let w = remove_temporary s.temporary_converted_path s.world in
      (ok tt, record s { world = remove_temporary s.temporary_cover_path w })

  -- `if (preparedStorage.has_value()) m_managedStorage.RollbackImport(*preparedStorage);`
  abbrev pub rollback_prepared : Option PreparedStorage → W → W
  rollback_prepared none w = w
  rollback_prepared (some p) w = services.storage.rollback_import p w

  abbrev pub discard : Step W (Unit {0})
  discard s = remove_temporaries (record s { world = rollback_prepared s.prepared_storage s.world })

  -- buildCancelledResult
  unfoldable pub build_cancelled :
      Option BookFormat → List DuplicateMatch → List String → Step W SingleFileImportResult
  build_cancelled format duplicates warnings = do
    discard
    pure (record (blank_result cancelled) {
      stored_format = format;
      duplicate_matches = duplicates;
      warnings = warnings;
    })

  -- buildFailedResult
  unfoldable pub build_failed : String → List String → Step W SingleFileImportResult
  build_failed message warnings = do
    discard
    pure (record (blank_result failed) {
      warnings = warnings;
      error = message;
      diagnostic_error = message;
    })

  -- The hash that the request brings, or that of the file; a failure to hash is only logged.
  unfoldable pub effective_sha256_hex : SingleFileImportRequest → W → Option String
  effective_sha256_hex request w = elim request.sha256_hex [
    | some hash ↦ some hash
    | none ↦ elim (services.compute_file_sha256_hex request.source_path w) [
      | ok hash ↦ some hash
      | err _ ↦ none
    ]
  ]

  -- request.PreReservedBookId.value_or(repo.ReserveId()), whose argument is computed in any case.
  unfoldable pub reserve : SingleFileImportRequest → Step W ℕ
  reserve request = do
    fresh ← call services.repository.reserve_id
    pure (elim request.pre_reserved_book_id [ some id ↦ id | none ↦ fresh ])

  -- The external conversion, if the plan asks for one.
  unfoldable pub run_conversion : Option ConversionRequest → Step W (Option ConversionResult)
  run_conversion none = pure none
  run_conversion (some request) = do
    report 45 "Running external conversion"
    result ← call (services.convert request)
    λ s.
        let converted =
          if has_output result then some result.output_path else s.temporary_converted_path in
        (ok (some result), record s { temporary_converted_path = converted })

  -- ResolveManagedCoverData, with or without a processor.
  unfoldable pub resolve_managed_cover :
      Option (CoverData → Outcome CoverProcessingResult) → CoverData → Step W CoverData
  resolve_managed_cover none source = pure source
  resolve_managed_cover (some process) source = do
    result ← read (λ _. process source)
    pure (managed_cover source result)

  unfoldable pub write_cover : SingleFileImportRequest → CoverData → ℕ → Step W (Unit {0})
  write_cover request source id = do
    cover ← resolve_managed_cover services.process_cover source
    path ← call (services.write_cover_temp_file request.working_directory id cover)
    λ s. (ok tt, record s { temporary_cover_path = some path })

  unfoldable pub store_cover_of :
      SingleFileImportRequest → ParsedBook Metadata → ℕ → Option String → Step W (Unit {0})
  unfolding write_cover
  store_cover_of request book id none = pure tt
  store_cover_of request book id (some extension) =
      if request.import_covers && has_cover book
      then write_cover request (record { extension = extension; bytes = book.cover_bytes }) id
      else pure tt

  unfoldable pub store_cover : SingleFileImportRequest → ParsedBook Metadata → ℕ → Step W (Unit {0})
  unfolding store_cover_of
  store_cover request book id = store_cover_of request book id book.cover_extension

  -- From `repo.Add(book)` on.
  abbrev pub rejected_at_write : List String → BookFormat → ℕ → SingleFileImportResult
  rejected_at_write warnings format existing = record (blank_result rejected_duplicate) {
    stored_format = some format;
    duplicate_matches =
        record {
          severity = strict;
          reason = same_hash;
          existing_book_id = existing;
          existing_title = "";
          existing_authors = "";
        }
        ∷ [];
    warnings = warnings ++ (strict_duplicate_warning ∷ []);
  }

  unfoldable pub commit :
      PreparedStorage
      → ImportConversionOutcome
      → List DuplicateMatch
      → List String
      → ℕ
      → Step W SingleFileImportResult
  commit p outcome duplicates warnings id = do
    report 95 "Committing managed files"
    call (services.storage.commit_import p)
    remove_temporaries
    report 100 "Import completed"
    pure (record (blank_result imported) {
      imported_book_id = some id;
      stored_format = some outcome.format;
      duplicate_matches = duplicates;
      warnings = warnings ++ outcome.warnings;
    })

  unfoldable pub after_add :
      PreparedStorage
      → ImportConversionOutcome
      → List DuplicateMatch
      → List String
      → Insertion
      → Step W SingleFileImportResult
  unfolding commit
  after_add p outcome duplicates warnings (added id) s =
      commit p outcome duplicates warnings id (record s { added_book_id = some id })
  after_add p outcome duplicates warnings (duplicate_hash existing) s =
      and_then
        (remove_temporaries (record s { world = services.storage.rollback_import p s.world }))
        (λ _ s'. (ok (rejected_at_write warnings outcome.format existing), s'))
  after_add p outcome duplicates warnings (other_failure message) s = (err message, s)

  abbrev pub add_book : Book Metadata → RunState W → Insertion × RunState W
  add_book book s = let (o, w) = services.repository.add book s.world in (o, record s { world = w })

  unfoldable pub write_metadata :
      PreparedStorage
      → ImportConversionOutcome
      → List DuplicateMatch
      → List String
      → Book Metadata
      → Step W SingleFileImportResult
  unfolding after_add
  write_metadata p outcome duplicates warnings book s =
      let (o, s') = add_book book s in after_add p outcome duplicates warnings o s'

  -- From the third test for cancellation on: nothing is in the catalog yet.
  unfoldable pub store_book :
      SingleFileImportRequest
      → ParsedBook Metadata
      → Option String
      → List DuplicateMatch
      → List String
      → ℕ
      → ImportConversionOutcome
      → PreparedStorage
      → Step W SingleFileImportResult
  unfolding write_metadata build_cancelled
  store_book request book hash duplicates warnings id outcome p =
      if services.cancelled 3 then build_cancelled (some outcome.format) duplicates warnings else do
        size ← read (services.file_size p.staged_book_path)
        now ← read (λ w. ok (services.now w))
        report 85 "Writing book metadata"
        write_metadata p outcome duplicates warnings (record {
          id = id;
          metadata = book.metadata;
          format = outcome.format;
          storage_encoding =
              determine_storage_encoding outcome.format request.force_epub_conversion;
          managed_path = p.relative_book_path;
          size_bytes = size;
          sha256_hex = elim hash [ none ↦ "" | some h ↦ h ];
          cover_path = p.relative_cover_path;
          added_at_utc = now;
        })

  abbrev pub prepare_staging : StoragePlan → Step W PreparedStorage
  prepare_staging plan = do
    p ← call (services.storage.prepare_import plan)
    λ s. (ok p, record s { prepared_storage = some p })

  -- From the second test on.
  unfoldable pub stage :
      SingleFileImportRequest
      → ParsedBook Metadata
      → Option String
      → List DuplicateMatch
      → List String
      → ℕ
      → ImportConversionOutcome
      → Step W SingleFileImportResult
  unfolding store_book
  stage request book hash duplicates warnings id outcome = do
    report 70 "Preparing managed storage"
    cover ← λ s. (ok s.temporary_cover_path, s)
    p ← prepare_staging (record {
      book_id = id;
      format = outcome.format;
      storage_encoding = determine_storage_encoding outcome.format request.force_epub_conversion;
      source_path = outcome.source_path;
      cover_source_path = cover;
    })
    store_book request book hash duplicates warnings id outcome p

  unfoldable pub prepare_storage :
      SingleFileImportRequest
      → ParsedBook Metadata
      → Option String
      → List DuplicateMatch
      → List String
      → ℕ
      → ImportConversionOutcome
      → Step W SingleFileImportResult
  unfolding store_cover stage build_cancelled
  prepare_storage request book hash duplicates warnings id outcome =
      store_cover request book id
      >> (if services.cancelled 2
          then build_cancelled (some outcome.format) duplicates warnings
          else stage request book hash duplicates warnings id outcome)

  -- What the decision of the conversion policy leads to.
  unfoldable pub decide :
      SingleFileImportRequest
      → ParsedBook Metadata
      → Option String
      → List DuplicateMatch
      → List String
      → ℕ
      → ImportConversionOutcome
      → ImportConversionDecision
      → Step W SingleFileImportResult
  unfolding prepare_storage build_cancelled build_failed
  decide request book hash duplicates warnings id outcome cancel_import =
      build_cancelled (some book.source_format) duplicates (warnings ++ outcome.warnings)
  decide request book hash duplicates warnings id outcome fail_import =
      build_failed outcome.error (warnings ++ outcome.warnings)
  decide request book hash duplicates warnings id outcome store_source =
      prepare_storage request book hash duplicates warnings id outcome
  decide request book hash duplicates warnings id outcome store_converted =
      prepare_storage request book hash duplicates warnings id outcome

  unfoldable pub after_conversion :
      SingleFileImportRequest
      → ParsedBook Metadata
      → Option String
      → List DuplicateMatch
      → List String
      → ℕ
      → ImportConversionOutcome
      → Step W SingleFileImportResult
  unfolding decide
  after_conversion request book hash duplicates warnings id outcome =
      decide request book hash duplicates warnings id outcome outcome.decision

  unfoldable pub convert_with :
      SingleFileImportRequest
      → ParsedBook Metadata
      → Option String
      → List DuplicateMatch
      → List String
      → ℕ
      → ImportConversionPlan
      → Step W SingleFileImportResult
  unfolding run_conversion after_conversion
  convert_with request book hash duplicates warnings id plan = do
    result ← run_conversion plan.request
    after_conversion request book hash duplicates warnings id
        (resolve_import_conversion plan result)

  -- Past the decision on duplicates.
  unfoldable pub convert_source :
      SingleFileImportRequest
      → ParsedBook Metadata
      → Option String
      → List DuplicateMatch
      → Step W SingleFileImportResult
  unfolding reserve convert_with
  convert_source request book hash duplicates = do
    id ← reserve request
    report 30 "Planning conversion"
    convert_with request book hash duplicates
        (if has_probable_duplicate duplicates && request.allow_probable_duplicates
          then forced_probable_duplicate_warning ∷ []
          else [])
        id
        (plan_import_conversion request.source_path book.source_format
          (concat request.working_directory
            (concat "/converted-" (concat (services.show_id id) ".epub")))
          services.can_convert request.force_epub_conversion)

  abbrev pub rejected : BookFormat → List DuplicateMatch → String → SingleFileImportResult
  rejected format duplicates warning = record (blank_result rejected_duplicate) {
    stored_format = some format;
    duplicate_matches = duplicates;
    warnings = warning ∷ [];
  }

  -- The decision on duplicates.
  unfoldable pub check_duplicates :
      SingleFileImportRequest
      → ParsedBook Metadata
      → Option String
      → List DuplicateMatch
      → Step W SingleFileImportResult
  unfolding convert_source build_cancelled
  check_duplicates request book hash duplicates =
      if services.cancelled 1
      then build_cancelled (some book.source_format) duplicates []
      else if has_strict_duplicate duplicates
      then pure (rejected book.source_format duplicates strict_duplicate_warning)
      else if has_probable_duplicate duplicates && not request.allow_probable_duplicates
      then pure (rejected book.source_format duplicates probable_duplicate_warning)
      else convert_source request book hash duplicates

  unfoldable pub parse_source : SingleFileImportRequest → Step W SingleFileImportResult
  unfolding check_duplicates effective_sha256_hex
  parse_source request = do
    report 15 "Parsing source book"
    book ← read (services.parse request.source_path request.import_covers)
    hash ← read (λ w. ok (effective_sha256_hex request w))
    duplicates ← read (
        services.find_duplicates
          (record { metadata = book.metadata; format = book.source_format; sha256_hex = hash }))
    check_duplicates request book hash duplicates

  unfoldable pub after_detection :
      SingleFileImportRequest → Option BookFormat → Step W SingleFileImportResult
  unfolding parse_source
  after_detection request none =
      pure (record (blank_result unsupported_format) { error = "Unsupported input format." })
  after_detection request (some format) = parse_source request

  -- The body of the try block.
  unfoldable pub import_source : SingleFileImportRequest → Step W SingleFileImportResult
  unfolding after_detection build_cancelled
  import_source request = if services.cancelled 0 then build_cancelled none [] [] else do
    report 5 "Detecting source format"
    after_detection request (services.try_detect_format request.source_path)

  cleanup_failure_message : ℕ → String → String
  cleanup_failure_message id message =
      concat
        "Managed storage commit failed and the cleanup path could not remove partially persisted book "
        (concat (services.show_id id) (
          concat
            " from the catalog. Managed storage was left unchanged to avoid breaking the persisted catalog entry: "
            message))

  abbrev pub failed_with : String → String → SingleFileImportResult
  failed_with message diagnostic = record (blank_result failed) {
    error = sanitize_transport_error_message message;
    diagnostic_error = diagnostic;
  }

  -- The handler, after the repository has been asked to remove the book again.
  unfoldable pub after_removal :
      String → ℕ → Outcome (Unit {0}) → RunState W → SingleFileImportResult × RunState W
  unfolding cleanup_failure_message
  after_removal message id (ok _) s = (failed_with message message, (discard s).1)
  after_removal message id (err cleanup) s =
      let failure = cleanup_failure_message id cleanup in
      (failed_with failure (concat message (concat " [cleanup_failure: " (concat failure "]"))), s)

  unfoldable pub handle : String → Option ℕ → RunState W → SingleFileImportResult × RunState W
  unfolding after_removal
  handle message none s = (failed_with message message, (discard s).1)
  handle message (some id) s =
      let (o, w) = services.repository.remove id s.world in
      after_removal message id o (record s { world = w })

  unfoldable pub catch_error :
      Outcome SingleFileImportResult × RunState W → SingleFileImportResult × RunState W
  unfolding handle
  catch_error (ok result, s) = (result, s)
  catch_error (err message, s) = handle message s.added_book_id s

  abbrev pub first_state : W → RunState W
  first_state w = record {
    world = w;
    temporary_cover_path = none;
    temporary_converted_path = none;
    prepared_storage = none;
    added_book_id = none;
  }

  -- CSingleFileImportCoordinator::Run
  unfoldable pub run : SingleFileImportRequest → W → SingleFileImportResult × W
  unfolding import_source catch_error
  run request w =
      let (result, s) = catch_error (import_source request (first_state w)) in
      if is_valid_request request then (result, s.world) else (
        record (blank_result failed) {
          error = "Import request must contain source path and working directory.";
        },
        w,
      )
