-- ===== src/Facade/Run/Whole.antt =====
-- The loop of CLibraryImportFacade::Run over its sources, and Run as a whole.
use librova.Base.{
  ℕ, Bool, String, List, Option, true, false, [], ◌∷◌, ◌++◌, ◌||◌, ◌&&◌, none, some, if◌then◌else◌,
  concat, length, ltb, max, not,
}
use librova.Base.Outcome.{Outcome, ok, err}
use librova.Planning.{PreparedImportWorkload, find}
use librova.Facade.{
  ImportRequest, ImportResult, ZipEntryImportResult, is_valid_import_request, reason_none,
  reason_unsupported_format,
}
use librova.Facade.Tally.{Tally, note_archive, note_archive_failure, merge_warnings}
use librova.Facade.Run.{
  FacadeServices, RunState, Segment, archive, files, segments, determine_import_mode, is_batch,
  with_tally, note_fatal, process_files, next_round, process_parallel_single_sources,
}

module _ {W : Type 0} (services : FacadeServices W) where
  -- The entries that an archive stands for in the progress: at least one.
  abbrev pub entry_count : Option ℕ → ℕ
  entry_count none = 1
  entry_count (some n) = max n 1

  abbrev pub reserved_count : Option ℕ → ℕ
  reserved_count none = 0
  reserved_count (some n) = n

  -- What follows the run of an archive, or the exception it ended with.
  unfoldable pub after_archive :
      String
      → ℕ
      → Outcome (List ZipEntryImportResult)
      → RunState W
      → Outcome (Unit {0}) × RunState W
  after_archive path count (ok entries) s =
      (ok tt, note_fatal services (with_tally services (note_archive entries s.tally) s))
  after_archive path count (err message) s =
      if is_batch services s.tally.result.summary.mode
      then (
        ok tt,
        note_fatal services (
            with_tally services
              (note_archive_failure count
                (concat "ZIP archive '" (concat path (concat "' failed: " message))) s.tally)
              s),
      )
      else (err message, s)

  abbrev pub run_archive : String → Outcome (List ℕ) → W → Outcome (List ZipEntryImportResult) × W
  run_archive path (err message) w = (err message, w)
  run_archive path (ok ids) w =
      services.run_zip (record { zip_path = path; reserved_book_ids = ids }) w

  unfoldable pub process_archive :
      PreparedImportWorkload String → String → RunState W → Outcome (Unit {0}) × RunState W
  unfolding after_archive
  process_archive workload path s =
      let planned = find services.same_path path workload.planned_entries_by_source in
      let (ids, w) = services.reserve_ids (reserved_count planned) s.world in
      let (o, w') = run_archive path ids w in
      after_archive path (entry_count planned) o (record s { world = w' })

  -- The two ways to import the files of a segment.
  unfoldable pub process_segment_files :
      ImportRequest → Bool → List String → RunState W → Outcome (Unit {0}) × RunState W
  unfolding process_files process_parallel_single_sources
  process_segment_files request only paths s =
      let (cancelled, w) = services.poll_cancellation s.world in
      let polled = record s { world = w } in
      if is_batch services s.tally.result.summary.mode && ltb 1 (length paths) && not cancelled
      then process_parallel_single_sources services request paths polled
      else process_files services request only paths polled

  unfoldable pub process_segment :
      ImportRequest
      → Bool
      → PreparedImportWorkload String
      → Segment
      → RunState W
      → Outcome (Unit {0}) × RunState W
  unfolding process_archive process_segment_files
  process_segment request only workload (archive path) s = process_archive workload path s
  process_segment request only workload (files paths) s = process_segment_files request only paths s

  -- The loop over the sources.
  unfoldable pub process_sources :
      ImportRequest
      → Bool
      → PreparedImportWorkload String
      → List Segment
      → RunState W
      → Outcome (Unit {0}) × RunState W
  unfolding process_segment
  process_sources request only workload [] s = (ok tt, s)
  process_sources request only workload (segment ∷ rest) s =
      let (cancelled, w) = services.poll_cancellation s.world in
      let polled = record s { world = w } in
      let this = process_segment request only workload segment polled in
      next_round services (s.had_fatal_writer_error || cancelled) polled this
        (process_sources request only workload rest this.1)

  -- The rollback of a cancelled import.
  unfoldable pub roll_back : ImportResult → W → ImportResult × W
  unfolding merge_warnings
  roll_back r w =
      let (rolled, w') =
        services.rollback_imported_books r.imported_book_ids
          (services.begin_rollback (length r.imported_book_ids) w) in
      let merged = merge_warnings rolled.warnings r in
      (
        record merged {
          imported_book_ids = rolled.remaining_book_ids;
          summary = record merged.summary { imported_entries = length rolled.remaining_book_ids };
          has_rollback_cleanup_residue = rolled.has_cleanup_residue;
        },
        services.compact (services.begin_compacting w'),
      )

  -- From the end of the loop on, for the ids that were imported.
  abbrev pub settle : Bool → List ℕ → ImportResult → W → ImportResult × W
  settle undo [] r w = (r, w)
  settle undo (id ∷ ids) r w = if undo then roll_back r w else (r, services.optimize_search_index w)

  unfoldable pub finish_import : ImportRequest → RunState W → ImportResult × W
  unfolding roll_back
  finish_import request s =
      let drained = note_fatal services (record s { world = services.drain s.world }) in
      let (polled, w) = services.poll_cancellation drained.world in
      let r = drained.tally.result in
      let cancelled = r.was_cancelled || polled in
      let (settled, w') =
        settle (cancelled || drained.had_fatal_writer_error) r.imported_book_ids
          (record r { was_cancelled = cancelled }) w in
      (settled, services.cleanup_working_directory request.working_directory w')

  -- The tally before the first source.
  abbrev pub first_tally :
      ImportRequest → List String → List String → PreparedImportWorkload String → W → Tally
  first_tally request candidates warnings workload w = record {
    processed_entries = 0;
    result = record {
      summary = record {
        mode = determine_import_mode services request candidates w;
        total_entries = workload.total_entries;
        imported_entries = 0;
        failed_entries = 0;
        skipped_entries = 0;
        warnings = warnings ++ workload.warnings;
      };
      single_file_result = none;
      zip_result = none;
      imported_book_ids = [];
      no_successful_import_reason = elim candidates [
        | [] ↦ reason_unsupported_format
        | _ ∷ _ ↦ reason_none
      ];
      has_rollback_cleanup_residue = false;
      was_cancelled = false;
    };
  }

  abbrev pub finish_sources :
      ImportRequest → Outcome (Unit {0}) × RunState W → Outcome ImportResult × W
  finish_sources request (err message, s) = (err message, s.world)
  finish_sources request (ok tt, s) = let (r, w) = finish_import request s in (ok r, w)

  abbrev pub has_one : List String → Bool
  has_one [] = false
  has_one (_ ∷ []) = true
  has_one (_ ∷ _ ∷ _) = false

  unfoldable pub run_prepared :
      ImportRequest
      → List String
      → List String
      → Outcome (PreparedImportWorkload String)
      → W
      → Outcome ImportResult × W
  unfolding process_sources finish_import
  run_prepared request candidates warnings (err message) w = (err message, w)
  run_prepared request candidates warnings (ok workload) w =
      let t = first_tally request candidates warnings workload w in
      finish_sources request (
        process_sources request (has_one candidates) workload (segments services candidates)
          (with_tally services t (record { world = w; tally = t; had_fatal_writer_error = false })))

  abbrev pub run_expanded :
      ImportRequest → Outcome (List String × List String) → W → Outcome ImportResult × W
  run_expanded request (err message) w = (err message, w)
  run_expanded request (ok (candidates, warnings)) w =
      let (o, w') = services.prepare_workload candidates w in
      run_prepared request candidates warnings o w'

  -- CLibraryImportFacade::Run
  unfoldable pub run_import : ImportRequest → W → Outcome ImportResult × W
  unfolding run_prepared
  run_import request w =
      if is_valid_import_request request
      then run_expanded request (services.expand request.source_paths w) w
      else (err "Import request must contain source path and working directory.", w)
