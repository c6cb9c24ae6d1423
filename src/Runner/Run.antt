-- ===== src/Runner/Run.antt =====
-- CImportJobRunner::Run and the error that it makes of an import result.
pub mod Outcomes
use librova.Base.{
  ℕ, Bool, String, List, Option, true, false, [], ◌∷◌, ◌&&◌, ◌||◌, none, some, if◌then◌else◌, ltb,
  is_some, ◌==◌,
}
use librova.Base.Outcome.{Outcome, ok, err}
use librova.Conversion.{is_empty}
use librova.Importing.{
  SingleFileImportResult, SingleFileImportStatus, imported, rejected_duplicate, cancelled, failed,
  unsupported_format,
}
use librova.Facade.{
  ImportResult, ZipEntryImportResult, ZipEntryImportStatus, entry_cancelled,
  NoSuccessfulImportReason, reason_none, reason_unsupported_format, reason_duplicate_rejected,
  is_partial_success,
}
use librova.Runner.{
  JobProgressSnapshot, JobProgressSink, SinkCall, new_sink, make_calls, set_warnings, complete,
  cancel_sink, fail,
}

pub data DomainErrorCode : Type 0 where
  validation code_unsupported_format duplicate_rejected parser_failure : DomainErrorCode
  converter_unavailable converter_failed storage_failure database_failure : DomainErrorCode
  cancellation integrity_issue not_found : DomainErrorCode

pub record DomainError : Type 0 where
  pub code : DomainErrorCode
  pub message : String

pub record ImportJobResult : Type 0 where
  pub snapshot : JobProgressSnapshot
  pub import_result : Option ImportResult
  pub error : Option DomainError

abbrev pub error_of : DomainErrorCode → String → DomainError
error_of code message = record { code = code; message = message }

abbrev pub cancellation_message : ImportResult → String
cancellation_message r =
    if r.has_rollback_cleanup_residue
    then "Import was cancelled. Some managed files or directories could not be removed during rollback."
    else "Import was cancelled."

abbrev pub is_cancelled_single : SingleFileImportStatus → Bool
is_cancelled_single cancelled = true
is_cancelled_single _ = false

abbrev pub is_cancelled_entry : ZipEntryImportStatus → Option SingleFileImportResult → Bool
is_cancelled_entry entry_cancelled result = true
is_cancelled_entry status none = false
is_cancelled_entry status (some single) = is_cancelled_single single.status

unfoldable pub has_cancelled_entry : List ZipEntryImportResult → Bool
has_cancelled_entry [] = false
has_cancelled_entry (entry ∷ rest) =
    is_cancelled_entry entry.status entry.single_file_result || has_cancelled_entry rest

abbrev pub archive_cancelled : Option (List ZipEntryImportResult) → Bool
archive_cancelled none = false
archive_cancelled (some entries) = has_cancelled_entry entries

-- The switch of TryMapError over the status of a single file.
unfoldable pub map_single_error :
    ImportResult → String → SingleFileImportStatus → Option DomainError
map_single_error r error rejected_duplicate =
    some (error_of duplicate_rejected "Import rejected because a duplicate already exists.")
map_single_error r error cancelled = some (error_of cancellation (cancellation_message r))
map_single_error r error unsupported_format =
    some (error_of code_unsupported_format "Unsupported input format.")
map_single_error r error failed =
    some (error_of integrity_issue (if is_empty error then "Import failed." else error))
map_single_error r error imported = none

unfoldable pub map_summary_error : ImportResult → Option DomainError
map_summary_error r =
    if r.summary.imported_entries == 0 && ltb 0 r.summary.failed_entries
    then some (error_of integrity_issue "Import completed without successful entries.")
    else none

abbrev pub map_result_error : ImportResult → Option SingleFileImportResult → Option DomainError
map_result_error r none = map_summary_error r
map_result_error r (some single) = map_single_error r single.error single.status

-- CImportJobRunner::TryMapError
unfoldable pub try_map_error : ImportResult → Option DomainError
unfolding map_single_error map_summary_error has_cancelled_entry
try_map_error r =
    if r.was_cancelled || archive_cancelled r.zip_result
    then some (error_of cancellation (cancellation_message r))
    else map_result_error r r.single_file_result

abbrev pub is_reason : NoSuccessfulImportReason → Bool
is_reason reason_none = false
is_reason reason_unsupported_format = true
is_reason reason_duplicate_rejected = true

unfoldable pub has_no_successful_imports : ImportResult → Bool
has_no_successful_imports r =
    r.summary.imported_entries == 0
    && r.summary.failed_entries == 0
    && is_reason r.no_successful_import_reason

abbrev pub reason_error : NoSuccessfulImportReason → DomainError
reason_error reason_duplicate_rejected =
    error_of duplicate_rejected
      "Import rejected because duplicates already exist for all selected sources."
reason_error _ =
    error_of code_unsupported_format "Import completed without importing any supported books."

-- `mappedError->Code == EDomainErrorCode::Cancellation`
abbrev pub is_cancellation : DomainErrorCode → Bool
is_cancellation cancellation = true
is_cancellation _ = false

abbrev pub close_with : DomainErrorCode → String → JobProgressSink → JobProgressSink
close_with code message sink =
    if is_cancellation code then cancel_sink message sink else fail message sink

abbrev pub end_with :
    JobProgressSink → Option ImportResult → Option DomainError → ImportJobResult × JobProgressSink
end_with sink result error =
    (record { snapshot = sink.snapshot; import_result = result; error = error }, sink)

-- What follows TryMapError.
unfoldable pub after_mapping :
    ImportResult → Option DomainError → JobProgressSink → ImportJobResult × JobProgressSink
unfolding cancel_sink fail complete
after_mapping r (some error) sink =
    end_with (close_with error.code error.message sink) (some r) (some error)
after_mapping r none sink =
    if has_no_successful_imports r
    then (let error = reason_error r.no_successful_import_reason in
        end_with (fail error.message sink) (some r) (some error))
    else end_with
        (complete
          (if is_partial_success r
            then "Import completed with partial success."
            else "Import completed successfully.")
          sink)
        (some r) none

-- The try block after the facade, and its handler.
unfoldable pub after_facade :
    Outcome ImportResult → JobProgressSink → ImportJobResult × JobProgressSink
unfolding set_warnings after_mapping fail
after_facade (ok r) sink = after_mapping r (try_map_error r) (set_warnings r.summary.warnings sink)
after_facade (err message) sink =
    end_with (fail message sink) none (some (error_of integrity_issue message))

-- CImportJobRunner::Run; `calls` is what the facade does to the sink before it ends with `o`.
unfoldable pub run_job :
    (ℕ → String) → List SinkCall → Outcome ImportResult → ImportJobResult × JobProgressSink
unfolding make_calls after_facade
run_job show_number calls o = after_facade o (make_calls show_number calls new_sink)
