-- ===== src/Importing/Services.antt =====
-- What an import of one file calls, over a state `W` of the database, the disk and the progress sink:
-- the parser registry, the hash, the repositories, the managed storage, the converter and the cover
-- processor. An exception is `err`. The n-th test for cancellation is answered by `cancelled n`.
use librova.Base.{ℕ, Bool, String, List, Option}
use librova.Base.Outcome.{Outcome}
use librova.Catalog.{BookRepository}
use librova.Conversion.{BookFormat, ConversionRequest, ConversionResult}
use librova.Importing.{
  Book, ParsedBook, CandidateBook, DuplicateMatch, StoragePlan, PreparedStorage, CoverData,
  CoverProcessingResult,
}

-- IManagedStorage. RollbackImport does not throw.
pub record ManagedStorage (W : Type 0) : Type 0 where
  pub prepare_import : StoragePlan → W → Outcome PreparedStorage × W
  pub commit_import : PreparedStorage → W → Outcome (Unit {0}) × W
  pub rollback_import : PreparedStorage → W → W

pub record Services (W Metadata : Type 0) : Type 0 where
  pub repository : BookRepository W (Book Metadata)
  pub storage : ManagedStorage W
  pub cancelled : ℕ → Bool
  pub try_detect_format : String → Option BookFormat
  pub parse : String → Bool → W → Outcome (ParsedBook Metadata)
  pub compute_file_sha256_hex : String → W → Outcome String
  pub find_duplicates : CandidateBook Metadata → W → Outcome (List DuplicateMatch)
  pub can_convert : Option (BookFormat → BookFormat → Bool)
  pub convert : ConversionRequest → W → Outcome ConversionResult × W
  pub process_cover : Option (CoverData → Outcome CoverProcessingResult)
  pub write_cover_temp_file : String → ℕ → CoverData → W → Outcome String × W
  pub file_size : String → W → Outcome ℕ
  pub now : W → ℕ
  pub report_value : ℕ → String → W → W
  pub remove_path_no_throw : String → W → W
  pub show_id : ℕ → String
