-- ===== src/Progress.antt =====
-- libs/App/StructuredProgressMapper.hpp and .cpp: the progress of one source within a whole import.
-- The counts are numbers of files; `counts_fit` states up to which size no 64-bit product wraps.
pub mod Percent
pub mod Examples
use librova.Base.{ℕ, String, Bool, ◌*◌, if◌then◌else◌, Option, ◌+◌, some, ◌/◌, min, max, none}

-- An `int`: `negsuc n` is -(n + 1).
pub data ℤ : Type 0 where
  pos : ℕ → ℤ
  negsuc : ℕ → ℤ

-- std::clamp(localPercent, 0, 100)
abbrev pub clamp_percent : ℤ → ℕ
clamp_percent (pos n) = min n 100
clamp_percent (negsuc n) = 0

pub record ScopedProgress : Type 0 where
  pub total_entries : ℕ
  pub processed_entries : ℕ
  pub contribution_entries : ℕ
  pub prior_imported_entries : ℕ
  pub prior_failed_entries : ℕ
  pub prior_skipped_entries : ℕ

-- The constructor.
unfoldable pub scoped_progress : ℕ → ℕ → ℕ → ℕ → ℕ → ℕ → ScopedProgress
scoped_progress total processed contribution imported failed skipped = record {
  total_entries = total;
  processed_entries = processed;
  contribution_entries = max contribution 1;
  prior_imported_entries = imported;
  prior_failed_entries = failed;
  prior_skipped_entries = skipped;
}

abbrev pub scaled_progress : ScopedProgress → ℕ → ℕ
scaled_progress s clamped = s.processed_entries * 100 + s.contribution_entries * clamped

abbrev pub denominator : ScopedProgress → ℕ
denominator s = max s.total_entries 1 * 100

unfoldable pub map_percent : ScopedProgress → ℤ → ℕ
map_percent s local_percent =
    min (scaled_progress s (clamp_percent local_percent) * 100 / denominator s) 100

-- What the inner sink is told.
pub data Report : Type 0 where
  value : ℕ → String → Report
  structured : ℕ → ℕ → ℕ → ℕ → ℕ → ℕ → String → Report

unfoldable pub report_value : ScopedProgress → ℤ → String → Report
report_value s percent message = value (map_percent s percent) message

-- `supported` is whether the inner sink is an IStructuredImportProgressSink.
unfoldable pub report_structured_progress :
    Bool → ScopedProgress → ℕ → ℕ → ℕ → ℕ → ℕ → ℤ → String → Report
report_structured_progress supported s total processed imported failed skipped percent message =
    if supported
    then structured s.total_entries (s.processed_entries + processed)
        (s.prior_imported_entries + imported) (s.prior_failed_entries + failed)
        (s.prior_skipped_entries + skipped) (map_percent s percent) message
    else value (map_percent s percent) message

-- ReportStructuredProgressIfSupported
unfoldable pub report_if_supported : Bool → ℕ → ℕ → ℕ → ℕ → ℕ → String → Option Report
report_if_supported supported total processed imported failed skipped message =
    if supported
    then some
        (structured total processed imported failed skipped (processed * 100 / max total 1) message)
    else none
