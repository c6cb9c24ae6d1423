-- ===== src/Facade.antt =====
-- libs/App/LibraryImportFacade.hpp and .cpp, and the result types of libs/Import/ZipImportCoordinator.hpp:
-- the import of everything the user selected. Here are the types and the reasons for an import that
-- stored nothing. A path is a text.
pub mod Reasons
pub mod Tally
pub mod Run
pub mod Examples
use librova.Base.{
  ℕ, Bool, String, List, Option, true, false, [], ◌∷◌, ◌&&◌, not, ltb, none, some, is_some, ◌==◌,
}
use librova.Conversion.{is_empty}
use librova.Importing.{
  SingleFileImportStatus, SingleFileImportResult, imported, rejected_duplicate, cancelled, failed,
  unsupported_format,
}

pub data ImportMode : Type 0 where
  single_file zip_archive batch : ImportMode

pub data NoSuccessfulImportReason : Type 0 where
  reason_none reason_unsupported_format reason_duplicate_rejected : NoSuccessfulImportReason

pub record ImportRequest : Type 0 where
  pub source_paths : List String
  pub working_directory : String
  pub sha256_hex : Option String
  pub allow_probable_duplicates : Bool
  pub force_epub_conversion : Bool
  pub import_covers : Bool

-- SImportRequest::IsValid
unfoldable pub is_valid_import_request : ImportRequest → Bool
is_valid_import_request request = elim request.source_paths [
  | [] ↦ false
  | _ ∷ _ ↦ not (is_empty request.working_directory)
]

pub record ImportSummary : Type 0 where
  pub mode : ImportMode
  pub total_entries : ℕ
  pub imported_entries : ℕ
  pub failed_entries : ℕ
  pub skipped_entries : ℕ
  pub warnings : List String

pub data ZipEntryImportStatus : Type 0 where
  entry_imported entry_skipped unsupported_entry nested_archive_skipped : ZipEntryImportStatus
  entry_failed entry_cancelled : ZipEntryImportStatus

pub record ZipEntryImportResult : Type 0 where
  pub archive_path : String
  pub status : ZipEntryImportStatus
  pub single_file_result : Option SingleFileImportResult
  pub error : String

pub record ImportResult : Type 0 where
  pub summary : ImportSummary
  pub single_file_result : Option SingleFileImportResult
  pub zip_result : Option (List ZipEntryImportResult)
  pub imported_book_ids : List ℕ
  pub no_successful_import_reason : NoSuccessfulImportReason
  pub has_rollback_cleanup_residue : Bool
  pub was_cancelled : Bool

-- SImportResult::IsPartialSuccess
unfoldable pub is_partial_success : ImportResult → Bool
is_partial_success r = ltb 0 r.summary.imported_entries && ltb 0 r.summary.failed_entries

abbrev pub has_success : SingleFileImportStatus → Option ℕ → Bool
has_success status none = false
has_success imported (some id) = true
has_success _ (some id) = false

-- SSingleFileImportResult::IsSuccess
unfoldable pub is_success : SingleFileImportResult → Bool
is_success r = has_success r.status r.imported_book_id

abbrev pub has_imported : ZipEntryImportStatus → Option SingleFileImportResult → Bool
has_imported status none = false
has_imported entry_imported (some r) = is_success r
has_imported _ (some r) = false

-- SZipEntryImportResult::IsImported
unfoldable pub is_imported : ZipEntryImportResult → Bool
unfolding is_success
is_imported entry = has_imported entry.status entry.single_file_result

unfoldable pub combine_no_successful_import_reason :
    NoSuccessfulImportReason → NoSuccessfulImportReason → NoSuccessfulImportReason
combine_no_successful_import_reason current reason_none = current
combine_no_successful_import_reason reason_none next = next
combine_no_successful_import_reason reason_unsupported_format next = reason_unsupported_format
combine_no_successful_import_reason current reason_unsupported_format = reason_unsupported_format
combine_no_successful_import_reason current next = reason_duplicate_rejected

unfoldable pub classify_single_file_skip_reason : SingleFileImportStatus → NoSuccessfulImportReason
classify_single_file_skip_reason rejected_duplicate = reason_duplicate_rejected
classify_single_file_skip_reason unsupported_format = reason_unsupported_format
classify_single_file_skip_reason _ = reason_none

unfoldable pub classify_zip_entry_skip_reason : ZipEntryImportResult → NoSuccessfulImportReason
unfolding classify_single_file_skip_reason
classify_zip_entry_skip_reason entry = elim entry.single_file_result [
  | some r ↦ classify_single_file_skip_reason r.status
  | none ↦ elim entry.status [
    | unsupported_entry ↦ reason_unsupported_format
    | nested_archive_skipped ↦ reason_unsupported_format
    | entry_skipped ↦ reason_unsupported_format
    | _ ↦ reason_none
  ]
]
