-- ===== src/Facade/Tally.antt =====
-- What the main thread of CLibraryImportFacade::Run counts and collects while the results come in.
pub mod Entries
pub mod Counted
use librova.Base.{
  ℕ, Bool, String, List, Option, true, false, [], ◌∷◌, ◌++◌, ◌+◌, ◌||◌, none, some, if◌then◌else◌,
  concat,
}
use librova.Base.Outcome.{Outcome, ok, err}
use librova.Conversion.{is_empty}
use librova.Importing.{
  SingleFileImportResult, SingleFileImportStatus, imported, rejected_duplicate, cancelled, failed,
  unsupported_format,
}
use librova.Facade.{
  ImportResult, NoSuccessfulImportReason, ImportMode, ZipEntryImportStatus, ZipEntryImportResult,
  entry_imported, entry_skipped, unsupported_entry, nested_archive_skipped, entry_failed,
  entry_cancelled, is_success, is_imported, combine_no_successful_import_reason,
  classify_single_file_skip_reason, classify_zip_entry_skip_reason, single_file, zip_archive, batch,
}

-- The result so far, and `processedEntries`.
pub record Tally : Type 0 where
  pub processed_entries : ℕ
  pub result : ImportResult

-- SParallelProgressEvent
pub record ProgressEvent : Type 0 where
  pub imported_delta : ℕ
  pub failed_delta : ℕ
  pub skipped_delta : ℕ
  pub was_cancelled : Bool

abbrev pub failed_event : ProgressEvent
failed_event = record {
  imported_delta = 0;
  failed_delta = 1;
  skipped_delta = 0;
  was_cancelled = false;
}

abbrev pub event_of : SingleFileImportStatus → ProgressEvent
event_of imported = record {
  imported_delta = 1;
  failed_delta = 0;
  skipped_delta = 0;
  was_cancelled = false;
}
event_of rejected_duplicate = record {
  imported_delta = 0;
  failed_delta = 0;
  skipped_delta = 1;
  was_cancelled = false;
}
event_of unsupported_format = record {
  imported_delta = 0;
  failed_delta = 0;
  skipped_delta = 1;
  was_cancelled = false;
}
event_of cancelled = record {
  imported_delta = 0;
  failed_delta = 0;
  skipped_delta = 1;
  was_cancelled = true;
}
event_of failed = failed_event

unfoldable pub build_single_file_progress_event : SingleFileImportResult → ProgressEvent
build_single_file_progress_event r = event_of r.status

-- ApplyProgressEvent but for its report.
unfoldable pub apply_progress_event : ProgressEvent → Tally → Tally
apply_progress_event event t = record {
  processed_entries = t.processed_entries + 1;
  result = record t.result {
    summary = record t.result.summary {
      imported_entries = t.result.summary.imported_entries + event.imported_delta;
      failed_entries = t.result.summary.failed_entries + event.failed_delta;
      skipped_entries = t.result.summary.skipped_entries + event.skipped_delta;
    };
    was_cancelled = t.result.was_cancelled || event.was_cancelled;
  };
}

unfoldable pub merge_warnings : List String → ImportResult → ImportResult
merge_warnings source r = record r {
  summary = record r.summary { warnings = r.summary.warnings ++ source };
}

-- `if (!error.empty()) result.Summary.Warnings.push_back(error);`
unfoldable pub merge_error : String → ImportResult → ImportResult
unfolding merge_warnings
merge_error error r = if is_empty error then r else merge_warnings (error ∷ []) r

abbrev pub note_id : Option ℕ → ImportResult → ImportResult
note_id none r = r
note_id (some id) r = record r { imported_book_ids = r.imported_book_ids ++ (id ∷ []) }

abbrev pub merge_reason : NoSuccessfulImportReason → ImportResult → ImportResult
merge_reason reason r = record r {
  no_successful_import_reason =
      combine_no_successful_import_reason r.no_successful_import_reason reason;
}

-- The switch of processSingleFileResultDetails.
abbrev pub note_unsuccessful : SingleFileImportStatus → ImportResult → ImportResult
note_unsuccessful rejected_duplicate r =
    merge_reason (classify_single_file_skip_reason rejected_duplicate) r
note_unsuccessful unsupported_format r =
    merge_reason (classify_single_file_skip_reason unsupported_format) r
note_unsuccessful cancelled r = record r { was_cancelled = true }
note_unsuccessful failed r = r
note_unsuccessful imported r = r

-- processSingleFileResultDetails
unfoldable pub process_single_file_result_details :
    SingleFileImportResult → ImportResult → ImportResult
unfolding merge_error merge_warnings
process_single_file_result_details s r =
    if is_success s
    then note_id s.imported_book_id r
    else note_unsuccessful s.status (merge_error s.error (merge_warnings s.warnings r))

abbrev pub merge_result_warnings :
    String → Option SingleFileImportResult → ImportResult → ImportResult
merge_result_warnings error (some s) r = merge_error s.error (merge_warnings s.warnings r)
merge_result_warnings error none r = merge_error error r

-- The warnings of an entry that was not imported.
unfoldable pub merge_entry_warnings : ZipEntryImportResult → ImportResult → ImportResult
unfolding merge_error merge_warnings
merge_entry_warnings entry r = merge_result_warnings entry.error entry.single_file_result r

abbrev pub note_result_id : Option SingleFileImportResult → ImportResult → ImportResult
note_result_id none r = r
note_result_id (some s) r = note_id s.imported_book_id r

unfoldable pub note_entry_id : ZipEntryImportResult → ImportResult → ImportResult
note_entry_id entry r = if is_imported entry then note_result_id entry.single_file_result r else r

-- The first loop over the entries of an archive.
unfoldable pub note_entry_ids : List ZipEntryImportResult → ImportResult → ImportResult
note_entry_ids [] r = r
note_entry_ids (entry ∷ rest) r = note_entry_ids rest (note_entry_id entry r)

abbrev pub count_imported_entry : ImportResult → ImportResult
count_imported_entry r = record r {
  summary = record r.summary { imported_entries = r.summary.imported_entries + 1 };
}

abbrev pub count_skipped_entry : ImportResult → ImportResult
count_skipped_entry r = record r {
  summary = record r.summary { skipped_entries = r.summary.skipped_entries + 1 };
}

abbrev pub count_failed_entries : ℕ → ImportResult → ImportResult
count_failed_entries n r = record r {
  summary = record r.summary { failed_entries = r.summary.failed_entries + n };
}

abbrev pub note_skipped_entry : ZipEntryImportResult → ImportResult → ImportResult
note_skipped_entry entry r =
    merge_entry_warnings entry
      (merge_reason (classify_zip_entry_skip_reason entry) (count_skipped_entry r))

abbrev pub note_entry_as : ZipEntryImportStatus → ZipEntryImportResult → ImportResult → ImportResult
note_entry_as entry_imported entry r = count_imported_entry r
note_entry_as entry_skipped entry r = note_skipped_entry entry r
note_entry_as unsupported_entry entry r = note_skipped_entry entry r
note_entry_as nested_archive_skipped entry r = note_skipped_entry entry r
note_entry_as entry_failed entry r = merge_entry_warnings entry (count_failed_entries 1 r)
note_entry_as entry_cancelled entry r =
    merge_entry_warnings entry (record r { was_cancelled = true })

-- The body of the second loop.
unfoldable pub note_entry : ZipEntryImportResult → ImportResult → ImportResult
note_entry entry r = note_entry_as entry.status entry r

unfoldable pub note_entries : List ZipEntryImportResult → ImportResult → ImportResult
note_entries [] r = r
note_entries (entry ∷ rest) r = note_entries rest (note_entry entry r)

abbrev pub not_cancelled : ZipEntryImportStatus → ℕ
not_cancelled entry_cancelled = 0
not_cancelled _ = 1

unfoldable pub count_not_cancelled : List ZipEntryImportResult → ℕ
count_not_cancelled [] = 0
count_not_cancelled (entry ∷ rest) = not_cancelled entry.status + count_not_cancelled rest

abbrev pub keep_zip_result : ImportMode → List ZipEntryImportResult → ImportResult → ImportResult
keep_zip_result zip_archive entries r = record r { zip_result = some entries }
keep_zip_result single_file entries r = r
keep_zip_result batch entries r = r

-- What follows the run of an archive, but for the report.
unfoldable pub note_archive : List ZipEntryImportResult → Tally → Tally
note_archive entries t = record {
  processed_entries = t.processed_entries + count_not_cancelled entries;
  result =
      note_entries entries
        (note_entry_ids entries (keep_zip_result t.result.summary.mode entries t.result));
}

-- The handler of an archive whose run threw.
unfoldable pub note_archive_failure : ℕ → String → Tally → Tally
unfolding merge_warnings
note_archive_failure entry_count warning t = record {
  processed_entries = t.processed_entries + entry_count;
  result = merge_warnings (warning ∷ []) (count_failed_entries entry_count t.result);
}

abbrev pub keep_single_result : ImportMode → SingleFileImportResult → ImportResult → ImportResult
keep_single_result single_file s r = record r { single_file_result = some s }
keep_single_result zip_archive s r = r
keep_single_result batch s r = r

-- The result of a file that was imported on the main thread, after its event.
unfoldable pub note_single_file : SingleFileImportResult → Tally → Tally
unfolding process_single_file_result_details
note_single_file s t = record t {
  result =
      process_single_file_result_details s (keep_single_result t.result.summary.mode s t.result);
}

-- A task of the thread pool: the single-file import, or the exception that it ended with. Its event
-- is queued when it ends, and its result is read when all have ended.
abbrev pub task_event : Outcome SingleFileImportResult → ProgressEvent
task_event (ok s) = build_single_file_progress_event s
task_event (err message) = failed_event

-- drainProgressEvents
unfoldable pub note_events : List (Outcome SingleFileImportResult) → Tally → Tally
note_events [] t = t
note_events (o ∷ rest) t = note_events rest (apply_progress_event (task_event o) t)

unfoldable pub note_task : Outcome SingleFileImportResult → ImportResult → ImportResult
note_task (ok s) r = process_single_file_result_details s r
note_task (err message) r = merge_warnings (message ∷ []) r

-- The loop over the futures.
unfoldable pub note_tasks : List (Outcome SingleFileImportResult) → ImportResult → ImportResult
note_tasks [] r = r
note_tasks (o ∷ rest) r = note_tasks rest (note_task o r)
