-- ===== src/Facade/Run.antt =====
-- CLibraryImportFacade::Run over a state `W` of the database, the disk, the writer and the sinks. An
-- exception that leaves Run is `err`. Performance counters and the log are left out, and so are the
-- messages that come with the reports.
pub mod Whole
pub mod Counting
pub mod Settled
pub mod Lossless
use librova.Base.{
  ℕ, Bool, String, List, Option, true, false, [], ◌∷◌, ◌++◌, ◌+◌, ◌-◌, ◌||◌, ◌&&◌, none, some,
  if◌then◌else◌, concat, length, ltb, max, not,
}
use librova.Base.Outcome.{Outcome, ok, err}
use librova.Importing.{SingleFileImportRequest, SingleFileImportResult}
use librova.Planning.{PreparedImportWorkload, find}
use librova.Rollback.{RollbackResult}
use librova.Facade.{
  ImportRequest, ImportResult, ImportMode, ZipEntryImportResult, single_file, zip_archive, batch,
  is_valid_import_request, reason_none, reason_unsupported_format,
}
use librova.Facade.Tally.{
  Tally, apply_progress_event, build_single_file_progress_event, note_single_file, note_archive,
  note_archive_failure, note_task, note_tasks, note_events, task_event, merge_warnings,
}

-- SZipImportRequest, but for the members that every archive of a job shares.
pub record ZipImportRequest : Type 0 where
  pub zip_path : String
  pub reserved_book_ids : List ℕ

-- What the thread pool leaves: the results of the tasks that were submitted, and the same results in
-- the order in which they ended.
pub record PoolRun : Type 0 where
  pub submitted : List (Outcome SingleFileImportResult)
  pub ended : List (Outcome SingleFileImportResult)

pub record FacadeServices (W : Type 0) : Type 0 where
  -- CImportSourceExpander::Expand, the planner and DetermineImportMode's look at the disk.
  pub expand : List String → W → Outcome (List String × List String)
  pub prepare_workload : List String → W → Outcome (PreparedImportWorkload String) × W
  pub is_directory : String → W → Bool
  pub is_supported_standalone_import_path : String → Bool
  pub is_zip_path : String → Bool
  pub same_path : String → String → Bool
  pub is_empty_path : String → Bool
  -- stopToken.stop_requested() || progressSink.IsCancellationRequested()
  pub poll_cancellation : W → Bool × W
  -- ReportStructuredProgressIfSupported
  pub report_structured_progress : Tally → W → W
  pub begin_rollback : ℕ → W → W
  pub begin_compacting : W → W
  -- The single-file import, directly or over the writer, and the archive import.
  pub run_single_file : SingleFileImportRequest → Bool → W → Outcome SingleFileImportResult × W
  pub run_pool : List SingleFileImportRequest → W → PoolRun × W
  pub run_zip : ZipImportRequest → W → Outcome (List ZipEntryImportResult) × W
  pub reserve_ids : ℕ → W → Outcome (List ℕ) × W
  pub has_fatal_error : W → Bool
  pub drain : W → W
  pub rollback_imported_books : List ℕ → W → RollbackResult × W
  -- Compact and OptimizeSearchIndex, whose exceptions are only logged.
  pub compact : W → W
  pub optimize_search_index : W → W
  pub cleanup_entry_workspace : String → String → W → W
  pub remove_entries : String → W → W
  pub cleanup_working_directory : String → W → W
  pub show_number : ℕ → String

-- The locals of Run.
pub record RunState (W : Type 0) : Type 0 where
  pub world : W
  pub tally : Tally
  pub had_fatal_writer_error : Bool

-- An archive, or a longest run of other files.
pub data Segment : Type 0 where
  archive : String → Segment
  files : List String → Segment

module _ {W : Type 0} (services : FacadeServices W) where
  -- The grouping that the loop over the sources does.
  abbrev pub add_source : String → List Segment → List Segment
  add_source path (files paths ∷ rest) =
      if services.is_zip_path path
      then archive path ∷ files paths ∷ rest
      else files (path ∷ paths) ∷ rest
  add_source path rest =
      if services.is_zip_path path then archive path ∷ rest else files (path ∷ []) ∷ rest

  unfoldable pub segments : List String → List Segment
  segments [] = []
  segments (path ∷ rest) = add_source path (segments rest)

  unfoldable pub determine_import_mode : ImportRequest → List String → W → ImportMode
  determine_import_mode request candidates w = elim request.source_paths [
    | [] ↦ batch
    | source ∷ others ↦ elim others [
      | _ ∷ _ ↦ batch
      | [] ↦
          if services.is_empty_path source || services.is_directory source w
          then batch
          else elim candidates [
            | [] ↦ batch
            | candidate ∷ more ↦ elim more [
              | _ ∷ _ ↦ batch
              | [] ↦
                  if services.is_supported_standalone_import_path candidate
                    && services.is_zip_path candidate
                  then zip_archive
                  else single_file
            ]
          ]
    ]
  ]

  abbrev pub is_batch : ImportMode → Bool
  is_batch batch = true
  is_batch single_file = false
  is_batch zip_archive = false

  abbrev pub entry_directory : ImportRequest → ℕ → String
  entry_directory request n =
      concat request.working_directory (concat "/entries/" (services.show_number n))

  abbrev pub single_request :
      ImportRequest → String → String → Option String → Option ℕ → SingleFileImportRequest
  single_request request path directory hash id = record {
    source_path = path;
    working_directory = directory;
    sha256_hex = hash;
    pre_reserved_book_id = id;
    logical_source_label = none;
    allow_probable_duplicates = request.allow_probable_duplicates;
    force_epub_conversion = request.force_epub_conversion;
    import_covers = request.import_covers;
  }

  abbrev pub with_tally : Tally → RunState W → RunState W
  with_tally t s = record s { tally = t; world = services.report_structured_progress t s.world }

  -- hadFatalWriterError = hadFatalWriterError || writerRepo.HasFatalError();
  abbrev pub note_fatal : RunState W → RunState W
  note_fatal s = record s {
    had_fatal_writer_error = s.had_fatal_writer_error || services.has_fatal_error s.world;
  }

  abbrev pub after_single_file :
      Outcome SingleFileImportResult → RunState W → Outcome (Unit {0}) × RunState W
  after_single_file (err message) s = (err message, s)
  after_single_file (ok r) s =
      let s' = with_tally (apply_progress_event (build_single_file_progress_event r) s.tally) s in
      (ok tt, note_fatal (record s' { tally = note_single_file r s'.tally }))

  -- ProcessSequentialSingleSource; `only` is whether there is one candidate.
  unfoldable pub process_sequential_single_source :
      ImportRequest → Bool → String → RunState W → Outcome (Unit {0}) × RunState W
  process_sequential_single_source request only path s =
      let own = is_batch s.tally.result.summary.mode in
      let directory : String =
        if own
        then entry_directory request (s.tally.processed_entries + 1)
        else request.working_directory in
      let (o, w) =
        services.run_single_file
          (single_request request path directory (if only then request.sha256_hex else none) none)
          own s.world in
      after_single_file o (record s {
        world =
            if own
            then services.cleanup_entry_workspace request.working_directory directory w
            else w;
      })

  -- One round of a loop: `this` is what the body does, `later` what the rounds after it do.
  abbrev pub next_round :
      Bool
      → RunState W
      → Outcome (Unit {0}) × RunState W
      → Outcome (Unit {0}) × RunState W
      → Outcome (Unit {0}) × RunState W
  next_round true stopped this later = (ok tt, stopped)
  next_round false stopped (err message, s) later = (err message, s)
  next_round false stopped (ok _, s) later = later

  -- The loop over the files of a segment that are not imported in parallel.
  unfoldable pub process_files :
      ImportRequest → Bool → List String → RunState W → Outcome (Unit {0}) × RunState W
  unfolding process_sequential_single_source
  process_files request only [] s = (ok tt, s)
  process_files request only (path ∷ rest) s =
      let (cancelled, w) = services.poll_cancellation s.world in
      let polled = record s { world = w } in
      let this = process_sequential_single_source request only path polled in
      next_round (s.had_fatal_writer_error || cancelled) polled this
        (process_files request only rest this.1)

  -- The requests of the pool; an id is there for every path, since ReserveIds returns as many.
  abbrev pub pool_requests : ImportRequest → ℕ → List String → List ℕ → List SingleFileImportRequest
  pool_requests request n [] ids = []
  pool_requests request n (path ∷ rest) [] = []
  pool_requests request n (path ∷ rest) (id ∷ ids) =
      single_request request path (entry_directory request n) none (some id)
      ∷ pool_requests request (n + 1) rest ids

  -- The events of the tasks as they end, each reported, then their results.
  abbrev pub report_events : List (Outcome SingleFileImportResult) → RunState W → RunState W
  report_events [] s = s
  report_events (o ∷ rest) s =
      report_events rest (with_tally (apply_progress_event (task_event o) s.tally) s)

  abbrev pub note_unsubmitted : ℕ → RunState W → RunState W
  note_unsubmitted n s =
      if ltb 0 n
      then with_tally (record s.tally { result = record s.tally.result { was_cancelled = true } }) s
      else s

  abbrev pub after_pool : ImportRequest → ℕ → PoolRun → RunState W → RunState W
  after_pool request count run s =
      let s' = report_events run.ended s in
      let noted = record s' {
        tally = record s'.tally { result = note_tasks run.submitted s'.tally.result };
      } in
      let s'' = note_unsubmitted (count - length run.submitted) noted in
      record s'' { world = services.remove_entries request.working_directory s''.world }

  abbrev pub run_reserved :
      ImportRequest → List String → Outcome (List ℕ) → RunState W → Outcome (Unit {0}) × RunState W
  run_reserved request paths (err message) s = (err message, s)
  run_reserved request paths (ok ids) s =
      let (run, w) =
        services.run_pool (pool_requests request (s.tally.processed_entries + 1) paths ids)
          s.world in
      (ok tt, note_fatal (after_pool request (length paths) run (record s { world = w })))

  -- ProcessParallelSingleSources
  unfoldable pub process_parallel_single_sources :
      ImportRequest → List String → RunState W → Outcome (Unit {0}) × RunState W
  process_parallel_single_sources request paths s =
      let (o, w) = services.reserve_ids (length paths) s.world in
      run_reserved request paths o (record s { world = w })
