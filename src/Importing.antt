-- ===== src/Importing.antt =====
-- libs/Import/SingleFileImportCoordinator.hpp and .cpp: the import of one book file. Here are the
-- types of the request and of the result, and the ones of libs/Domain that pass through an import.
-- `Metadata` stands for SBookMetadata, which an import hands on; a path is a text.
pub mod Services
pub mod Run
mod Examples
use librova.Base.{
  ℕ, Bool, String, List, Option, some, none, [], ◌∷◌, ◌&&◌, ◌||◌, not, true, false, is_some,
}
use librova.Conversion.{BookFormat, epub, fb2, is_empty}

pub data SingleFileImportStatus : Type 0 where
  imported rejected_duplicate cancelled failed unsupported_format : SingleFileImportStatus

pub record SingleFileImportRequest : Type 0 where
  pub source_path : String
  pub working_directory : String
  pub sha256_hex : Option String
  pub pre_reserved_book_id : Option ℕ
  pub logical_source_label : Option String
  pub allow_probable_duplicates : Bool
  pub force_epub_conversion : Bool
  pub import_covers : Bool

-- SSingleFileImportRequest::IsValid
unfoldable pub is_valid_request : SingleFileImportRequest → Bool
is_valid_request request =
    not (is_empty request.source_path) && not (is_empty request.working_directory)

pub data DuplicateSeverity : Type 0 where
  no_duplicate probable strict : DuplicateSeverity

pub data DuplicateReason : Type 0 where
  same_hash same_isbn same_normalized_title_and_authors : DuplicateReason

pub record DuplicateMatch : Type 0 where
  pub severity : DuplicateSeverity
  pub reason : DuplicateReason
  pub existing_book_id : ℕ
  pub existing_title : String
  pub existing_authors : String

abbrev pub is_strict_rejection : DuplicateMatch → Bool
is_strict_rejection m = elim m.severity [ strict ↦ true | _ ↦ false ]

abbrev pub is_probable : DuplicateMatch → Bool
is_probable m = elim m.severity [ probable ↦ true | _ ↦ false ]

unfoldable pub has_strict_duplicate : List DuplicateMatch → Bool
has_strict_duplicate [] = false
has_strict_duplicate (m ∷ rest) = is_strict_rejection m || has_strict_duplicate rest

unfoldable pub has_probable_duplicate : List DuplicateMatch → Bool
has_probable_duplicate [] = false
has_probable_duplicate (m ∷ rest) = is_probable m || has_probable_duplicate rest

pub record SingleFileImportResult : Type 0 where
  pub status : SingleFileImportStatus
  pub imported_book_id : Option ℕ
  pub stored_format : Option BookFormat
  pub duplicate_matches : List DuplicateMatch
  pub warnings : List String
  pub error : String
  pub diagnostic_error : String

-- A result with the default of every other member.
abbrev pub blank_result : SingleFileImportStatus → SingleFileImportResult
blank_result status = record {
  status = status;
  imported_book_id = none;
  stored_format = none;
  duplicate_matches = [];
  warnings = [];
  error = "";
  diagnostic_error = "";
}

pub record CoverData : Type 0 where
  pub extension : String
  pub bytes : List ℕ

-- SCoverData::IsEmpty
unfoldable pub is_empty_cover : CoverData → Bool
is_empty_cover c = is_empty c.extension || elim c.bytes [ [] ↦ true | _ ∷ _ ↦ false ]

pub data CoverProcessingStatus : Type 0 where
  processed unchanged unsupported processing_failed : CoverProcessingStatus

pub record CoverProcessingResult : Type 0 where
  pub status : CoverProcessingStatus
  pub cover : CoverData

pub record ParsedBook (Metadata : Type 0) : Type 0 where
  pub metadata : Metadata
  pub source_format : BookFormat
  pub cover_extension : Option String
  pub cover_bytes : List ℕ

-- SParsedBook::HasCover
unfoldable pub has_cover : {Metadata : Type 0} → ParsedBook Metadata → Bool
has_cover book = elim book.cover_extension [
  | none ↦ false
  | some extension ↦ not (is_empty extension) && elim book.cover_bytes [ [] ↦ false | _ ∷ _ ↦ true ]
]

pub data StorageEncoding : Type 0 where
  plain compressed : StorageEncoding

pub record CandidateBook (Metadata : Type 0) : Type 0 where
  pub metadata : Metadata
  pub format : BookFormat
  pub sha256_hex : Option String

-- SBook with its SBookFileInfo.
pub record Book (Metadata : Type 0) : Type 0 where
  pub id : ℕ
  pub metadata : Metadata
  pub format : BookFormat
  pub storage_encoding : StorageEncoding
  pub managed_path : String
  pub size_bytes : ℕ
  pub sha256_hex : String
  pub cover_path : Option String
  pub added_at_utc : ℕ

pub record StoragePlan : Type 0 where
  pub book_id : ℕ
  pub format : BookFormat
  pub storage_encoding : StorageEncoding
  pub source_path : String
  pub cover_source_path : Option String

pub record PreparedStorage : Type 0 where
  pub staged_book_path : String
  pub staged_cover_path : Option String
  pub final_book_path : String
  pub final_cover_path : Option String
  pub relative_book_path : String
  pub relative_cover_path : Option String

unfoldable pub determine_storage_encoding : BookFormat → Bool → StorageEncoding
determine_storage_encoding fb2 false = compressed
determine_storage_encoding _ _ = plain
