-- ===== src/Conversion.antt =====
-- libs/Import/ImportConversionPolicy.hpp and .cpp: what is stored of a book that may have to be
-- converted. Paths are texts; the converter is the answer of its CanConvert, or null.
pub mod Decisions
pub mod Examples
use librova.Base.{
  Bool, String, Option, ◌++◌, true, List, str_eq, not, false, none, if◌then◌else◌, [], ◌&&◌, some,
  ◌||◌,
}

pub data BookFormat : Type 0 where
  epub fb2 : BookFormat

abbrev pub same_format : BookFormat → BookFormat → Bool
same_format epub epub = true
same_format fb2 fb2 = true
same_format _ _ = false

pub record ConversionRequest : Type 0 where
  pub source_path : String
  pub destination_path : String
  pub source_format : BookFormat
  pub destination_format : BookFormat

pub data ConversionStatus : Type 0 where
  failed succeeded cancelled : ConversionStatus

pub record ConversionResult : Type 0 where
  pub status : ConversionStatus
  pub output_path : String
  pub warnings : List String

unfoldable pub is_success : ConversionResult → Bool
is_success r = elim r.status [ succeeded ↦ true | _ ↦ false ]

unfoldable pub is_cancelled : ConversionResult → Bool
is_cancelled r = elim r.status [ cancelled ↦ true | _ ↦ false ]

-- path.empty()
abbrev pub is_empty : String → Bool
is_empty path = str_eq path ""

unfoldable pub has_output : ConversionResult → Bool
has_output r = not (is_empty r.output_path)

pub data ImportConversionDecision : Type 0 where
  store_source store_converted cancel_import fail_import : ImportConversionDecision

pub record ImportConversionPlan : Type 0 where
  pub request : Option ConversionRequest
  pub fallback_source_path : String
  pub fallback_format : BookFormat
  pub requires_successful_conversion : Bool
  pub warnings : List String

pub record ImportConversionOutcome : Type 0 where
  pub decision : ImportConversionDecision
  pub source_path : String
  pub format : BookFormat
  pub warnings : List String
  pub error : String

unfoldable pub is_storable : ImportConversionOutcome → Bool
is_storable o = elim o.decision [
  | cancel_import ↦ false
  | fail_import ↦ false
  | _ ↦ not (is_empty o.source_path)
]

-- converter == nullptr || !converter->CanConvert(Fb2, Epub)
abbrev pub cannot_convert : Option (BookFormat → BookFormat → Bool) → Bool
cannot_convert none = true
cannot_convert (some can_convert) = not (can_convert fb2 epub)

unfoldable pub plan_import_conversion :
    String
    → BookFormat
    → String
    → Option (BookFormat → BookFormat → Bool)
    → Bool
    → ImportConversionPlan
plan_import_conversion source_path source_format converted_destination_path converter force =
    let plan : ImportConversionPlan = record {
      request = none;
      fallback_source_path = source_path;
      fallback_format = source_format;
      requires_successful_conversion = false;
      warnings = [];
    } in
    if not (same_format source_format fb2) || not force
    then plan
    else if cannot_convert converter
    then record plan { requires_successful_conversion = true }
    else record plan {
      requires_successful_conversion = true;
      request = some (record {
        source_path = source_path;
        destination_path = converted_destination_path;
        source_format = fb2;
        destination_format = epub;
      });
    }

-- The outcome of FailImport and CancelImport: the path is cleared.
fail : String → ImportConversionOutcome → ImportConversionOutcome
fail message o = record o { decision = fail_import; source_path = ""; error = message }

-- From `AppendWarnings` on.
resolve_result :
    ConversionRequest → ConversionResult → ImportConversionOutcome → ImportConversionOutcome
unfolding fail is_success is_cancelled has_output
resolve_result request r o =
    let warned = record o { warnings = o.warnings ++ r.warnings } in
    if is_cancelled r
    then record warned { decision = cancel_import; source_path = "" }
    else if is_success r && has_output r
    then record warned {
      decision = store_converted;
      source_path = r.output_path;
      format = request.destination_format;
    }
    else fail "Forced FB2 to EPUB conversion failed." warned

unfoldable pub resolve_import_conversion :
    ImportConversionPlan → Option ConversionResult → ImportConversionOutcome
unfolding resolve_result fail
resolve_import_conversion plan result =
    let outcome : ImportConversionOutcome = record {
      decision = store_source;
      source_path = plan.fallback_source_path;
      format = plan.fallback_format;
      warnings = plan.warnings;
      error = "";
    } in
    elim plan.request [
      | none ↦
          if plan.requires_successful_conversion
          then fail "Forced FB2 to EPUB conversion requires a configured converter." outcome
          else outcome
      | some request ↦ elim result [
        | none ↦ fail "Forced FB2 to EPUB conversion did not return a result." outcome
        | some r ↦ resolve_result request r outcome
      ]
    ]
