-- ===== src/Conversion/Examples.antt =====
-- The policy at concrete books.
use librova.Conversion.{
  epub, fb2, cancelled, BookFormat, ConversionResult, resolve_import_conversion, succeeded,
  plan_import_conversion, store_converted, cancel_import, store_source, cannot_convert, is_empty,
}
use librova.Conversion.Decisions.{outcome, store_source_dichotomy, store_converted_iff}
use librova.Base.{Bool, [], some, true, ◌≡◌, ◌⊎◌, false, ◌↔◌, refl, ◌≢◌}

abbrev any_to_any : BookFormat → BookFormat → Bool
any_to_any a b = true

abbrev converted : ConversionResult
converted = record { status = succeeded; output_path = "book.epub"; warnings = [] }

abbrev stopped : ConversionResult
stopped = record { status = cancelled; output_path = "book.epub"; warnings = [] }

store_source_dichotomy_example :
    let o = outcome "a.fb2" "a.epub" fb2 (some any_to_any) true (some converted) in
    ((fb2 ≡ epub) ⊎ (true ≡ false))
      × (o.decision ≡ store_source)
      × (o.source_path ≡ "a.fb2")
      × (o.format ≡ fb2)
    ⊎ (fb2 ≡ fb2) × (true ≡ true) × (o.decision ≢ store_source)
store_source_dichotomy_example =
    store_source_dichotomy "a.fb2" "a.epub" fb2 (some any_to_any) true (some converted)

store_converted_iff_example :
    ((outcome "a.fb2" "a.epub" fb2 (some any_to_any) true (some converted)).decision
      ≡ store_converted)
    ↔ ((fb2 ≡ fb2)
        × (true ≡ true)
        × (cannot_convert (some any_to_any) ≡ false)
        × (converted.status ≡ succeeded)
        × (is_empty converted.output_path ≡ false))
store_converted_iff_example =
    store_converted_iff "a.fb2" "a.epub" fb2 (some any_to_any) true converted

stopped_cancels :
    (outcome "a.fb2" "a.epub" fb2 (some any_to_any) true (some stopped)).decision ≡ cancel_import
unfolding resolve_import_conversion plan_import_conversion
stopped_cancels = refl
