-- ===== src/Facade/Examples.antt =====
-- An import of three files and an archive whose importers always answer the same. The world counts
-- how often the import has looked whether it is cancelled.
use mathlib.Core.List.{Permᴰ}
use librova.Facade.Tally.Entries.{IsNamed, IsNamedEntry}
use librova.Base.{
  All, subst, ◌≡◌, List, ℕ, String, ◌∷◌, [], none, some, true, false, refl, ◌+◌, ltb, str_eq, Bool,
  ◌==◌,
}
use librova.Base.Outcome.{ok, err, ok-injective}
use librova.Importing.{SingleFileImportResult, imported, rejected_duplicate, blank_result}
use librova.Planning.{PreparedImportWorkload}
use librova.Facade.{
  ImportResult, batch, reason_duplicate_rejected, ImportRequest, ZipEntryImportResult,
  entry_imported, entry_skipped, entry_cancelled, is_imported, is_success,
}
use librova.Facade.Run.{FacadeServices, RunState, archive, files, Segment}
use librova.Facade.Run.Whole.{run_import, process_sources, first_tally}
use librova.Facade.Run.Counting.{IsNaming, process_sources-IsCounted}
use librova.Facade.Run.Lossless
use librova.Facade.Run.Lossless.{run_import_lossless, AreListed}
use librova.Facade.Run.Settled.{
  IsFinished, run_import-HasIds, run_import-IsUndone, HasIds, IsUndone,
}
use librova.Facade.Reasons.{note_entries_reason-perm}
use librova.Facade.Tally.{note_entries}
use librova.Facade.Tally.Counted.{IsCounted}

abbrev book : ℕ → SingleFileImportResult
book id = record (blank_result imported) { imported_book_id = some id }

abbrev entry_of : ℕ → ZipEntryImportResult
entry_of id = record {
  archive_path = "inner.fb2";
  status = entry_imported;
  single_file_result = some (book id);
  error = "";
}

abbrev duplicate_entry : ZipEntryImportResult
duplicate_entry = record {
  archive_path = "old.fb2";
  status = entry_skipped;
  single_file_result = some (blank_result rejected_duplicate);
  error = "";
}

abbrev picture_entry : ZipEntryImportResult
picture_entry = record {
  archive_path = "picture.png";
  status = entry_skipped;
  single_file_result = none;
  error = "Unsupported entry.";
}

abbrev workload : PreparedImportWorkload String
workload = record {
  total_entries = 5;
  planned_entries_by_source = ("books.zip", 2) ∷ [];
  warnings = [];
}

-- `limit` is the number of looks before the import is found to be cancelled.
abbrev pub sample : ℕ → FacadeServices ℕ
sample limit = record {
  expand = λ paths w. ok (paths, []);
  prepare_workload = λ paths w. (ok workload, w);
  is_directory = λ path w. false;
  is_supported_standalone_import_path = λ path. true;
  is_zip_path = λ path. str_eq path "books.zip";
  same_path = str_eq;
  is_empty_path = λ path. str_eq path "";
  poll_cancellation = λ w. (ltb limit w, w + 1);
  report_structured_progress = λ t w. w;
  begin_rollback = λ n w. w;
  begin_compacting = λ w. w;
  run_single_file = λ request own w. (ok (book 3), w);
  run_pool = λ requests w. (
    record { submitted = ok (book 1) ∷ err "broken" ∷ []; ended = err "broken" ∷ ok (book 1) ∷ [] },
    w,
  );
  run_zip = λ request w. (ok (entry_of 2 ∷ duplicate_entry ∷ []), w);
  reserve_ids = λ n w. (ok (1 ∷ 2 ∷ []), w);
  has_fatal_error = λ w. false;
  drain = λ w. w;
  rollback_imported_books =
      λ ids w. (record { remaining_book_ids = []; warnings = []; has_cleanup_residue = true }, w);
  compact = λ w. w;
  optimize_search_index = λ w. w;
  cleanup_entry_workspace = λ root directory w. w;
  remove_entries = λ root w. w;
  cleanup_working_directory = λ root w. w;
  show_number = λ n. "n";
}

abbrev pub request : ImportRequest
request = record {
  source_paths = "a.fb2" ∷ "b.fb2" ∷ "books.zip" ∷ "c.fb2" ∷ [];
  working_directory = "work";
  sha256_hex = none;
  allow_probable_duplicates = false;
  force_epub_conversion = false;
  import_covers = true;
}

sample-IsNaming : (limit : ℕ) → IsNaming (sample limit)
unfolding is_imported is_success
sample-IsNaming limit = record {
  single_named = λ request own w r e. subst IsNamed (ok-injective e) (λ same. refl);
  zip_named = λ request w entries e.
      subst (All IsNamedEntry) (ok-injective e) ((λ same. refl), (λ same. absurd (cc), tt));
  pool_named = λ requests w. ((λ e. refl), (tt, tt));
  pool_same = λ requests w. Permᴰ.swap refl refl;
}

abbrev whole_result : ImportResult
whole_result = record {
  summary = record {
    mode = batch;
    total_entries = 5;
    imported_entries = 3;
    failed_entries = 1;
    skipped_entries = 1;
    warnings = "broken" ∷ [];
  };
  single_file_result = none;
  zip_result = none;
  imported_book_ids = 1 ∷ 2 ∷ 3 ∷ [];
  no_successful_import_reason = reason_duplicate_rejected;
  has_rollback_cleanup_residue = false;
  was_cancelled = false;
}

-- The same import, cancelled before its last file.
abbrev pub cancelled_result : ImportResult
cancelled_result = record whole_result {
  summary = record whole_result.summary { imported_entries = 0 };
  imported_book_ids = [];
  has_rollback_cleanup_residue = true;
  was_cancelled = true;
}

run_whole : (run_import (sample 100) request 0).0 ≡ ok whole_result
unfolding run_import librova.Facade.is_valid_import_request librova.Facade.Run.segments
    librova.Facade.Run.determine_import_mode librova.Facade.Tally.note_archive note_entries
    librova.Facade.Tally.note_entry librova.Facade.Tally.merge_entry_warnings
    librova.Facade.Tally.note_entry_ids librova.Facade.Tally.note_entry_id is_imported
    librova.Facade.Tally.note_tasks librova.Facade.Tally.note_task
    librova.Facade.Tally.process_single_file_result_details
    librova.Facade.Tally.apply_progress_event librova.Facade.Tally.build_single_file_progress_event
    librova.Facade.combine_no_successful_import_reason librova.Facade.classify_zip_entry_skip_reason
    librova.Facade.classify_single_file_skip_reason librova.Facade.Tally.count_not_cancelled
    librova.Facade.Tally.note_single_file is_success librova.Planning.find
run_whole = refl

pub run_cancelled : (run_import (sample 2) request 0).0 ≡ ok cancelled_result
unfolding run_import librova.Facade.is_valid_import_request librova.Facade.Run.segments
    librova.Facade.Run.determine_import_mode librova.Facade.Tally.note_archive note_entries
    librova.Facade.Tally.note_entry librova.Facade.Tally.merge_entry_warnings
    librova.Facade.Tally.note_entry_ids librova.Facade.Tally.note_entry_id is_imported
    librova.Facade.Tally.note_tasks librova.Facade.Tally.note_task
    librova.Facade.Tally.process_single_file_result_details
    librova.Facade.Tally.apply_progress_event librova.Facade.Tally.build_single_file_progress_event
    librova.Facade.combine_no_successful_import_reason librova.Facade.classify_zip_entry_skip_reason
    librova.Facade.classify_single_file_skip_reason librova.Facade.Tally.count_not_cancelled
    librova.Facade.Tally.note_single_file is_success librova.Planning.find
run_cancelled = refl

-- The same, but no removal succeeds: the rollback leaves all books.
abbrev locked : FacadeServices ℕ
locked = record (sample 2) {
  rollback_imported_books =
      λ ids w. (record { remaining_book_ids = ids; warnings = []; has_cleanup_residue = true }, w);
}

abbrev locked_result : ImportResult
locked_result = record cancelled_result {
  summary = record cancelled_result.summary { imported_entries = 2 };
  imported_book_ids = 1 ∷ 2 ∷ [];
}

run_locked : (run_import locked request 0).0 ≡ ok locked_result
unfolding run_import librova.Facade.is_valid_import_request librova.Facade.Run.segments
    librova.Facade.Run.determine_import_mode librova.Facade.Tally.note_archive note_entries
    librova.Facade.Tally.note_entry librova.Facade.Tally.merge_entry_warnings
    librova.Facade.Tally.note_entry_ids librova.Facade.Tally.note_entry_id is_imported
    librova.Facade.Tally.note_tasks librova.Facade.Tally.note_task
    librova.Facade.Tally.process_single_file_result_details
    librova.Facade.Tally.apply_progress_event librova.Facade.Tally.build_single_file_progress_event
    librova.Facade.combine_no_successful_import_reason librova.Facade.classify_zip_entry_skip_reason
    librova.Facade.classify_single_file_skip_reason librova.Facade.Tally.count_not_cancelled
    librova.Facade.Tally.note_single_file is_success librova.Planning.find
run_locked = refl

abbrev is_two : ℕ → ℕ → Bool
is_two x w = x == 2

locked-IsLawful : librova.Facade.Run.Lossless.IsLawful locked is_two
locked-IsLawful = record {
  rollback_lossless = λ ids w x listed there. listed;
  compact_adds_none = λ x w out. out;
  cleanup_adds_none = λ directory x w out. out;
}

run_import_lossless_example :
    (s : RunState ℕ) × IsFinished locked request 0 s
    × AreListed locked is_two s.tally.result.imported_book_ids locked_result
        (run_import locked request 0).1
run_import_lossless_example =
    run_import_lossless locked is_two request 0 locked_result locked-IsLawful run_locked refl

run_import-HasIds_example : HasIds (sample 100) whole_result
run_import-HasIds_example =
    run_import-HasIds (sample 100) request 0 whole_result (sample-IsNaming 100) run_whole

run_import-IsUndone_example : IsUndone (sample 2) request 0 cancelled_result
run_import-IsUndone_example =
    run_import-IsUndone (sample 2) request 0 cancelled_result run_cancelled refl

abbrev start_state : RunState ℕ
start_state = record {
  world = 0;
  tally = first_tally (sample 100) request request.source_paths [] workload 0;
  had_fatal_writer_error = false;
}

abbrev parts : List Segment
parts = files ("a.fb2" ∷ "b.fb2" ∷ []) ∷ archive "books.zip" ∷ []

process_sources-IsCounted_example :
    IsCounted (process_sources (sample 100) request false workload parts start_state).1.tally
process_sources-IsCounted_example =
    process_sources-IsCounted (sample 100) (sample-IsNaming 100) request false workload parts
      start_state (refl, refl)

note_entries_reason-perm_example :
    (note_entries (duplicate_entry ∷ picture_entry ∷ []) whole_result).no_successful_import_reason
    ≡ (note_entries (picture_entry ∷ duplicate_entry ∷ []) whole_result).no_successful_import_reason
note_entries_reason-perm_example =
    note_entries_reason-perm (duplicate_entry ∷ picture_entry ∷ [])
      (picture_entry ∷ duplicate_entry ∷ []) whole_result (Permᴰ.swap refl refl)
