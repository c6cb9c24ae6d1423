-- ===== src/Conversion/Decisions.antt =====
-- What is stored, for every source, converter and result.
use librova.Base.{
  String, Option, Bool, ◌≡◌, ◌↔◌, ◌⊎◌, ◌≢◌, true, false, some, arith, inl, inr, refl, none,
}
use librova.Conversion.{
  BookFormat, ConversionResult, ImportConversionOutcome, resolve_import_conversion,
  plan_import_conversion, is_storable, store_source, store_converted, fail_import, fb2,
  cancel_import, cannot_convert, succeeded, is_empty, epub,
}

abbrev pub outcome :
    String
    → String
    → BookFormat
    → Option (BookFormat → BookFormat → Bool)
    → Bool
    → Option ConversionResult
    → ImportConversionOutcome
outcome source destination format converter force result =
    resolve_import_conversion (plan_import_conversion source format destination converter force)
      result

-- Either no conversion is asked for (the book is an EPUB, or conversion is not forced), and then the
-- source is what is stored, with its path and its format; or the book is an FB2 book whose
-- conversion is forced, and then the source is never stored.
pub store_source_dichotomy :
    (source destination : String) (format : BookFormat)
    (converter : Option (BookFormat → BookFormat → Bool)) (force : Bool)
    (result : Option ConversionResult)
    → let o = outcome source destination format converter force result in
      ((format ≡ epub) ⊎ (force ≡ false))
        × (o.decision ≡ store_source)
        × (o.source_path ≡ source)
        × (o.format ≡ format)
      ⊎ (format ≡ fb2) × (force ≡ true) × (o.decision ≢ store_source)
unfolding resolve_import_conversion plan_import_conversion
store_source_dichotomy source destination epub converter force result =
    inl (inl refl, refl, refl, refl)
store_source_dichotomy source destination fb2 converter false result =
    inl (inr refl, refl, refl, refl)
store_source_dichotomy source destination fb2 none true result = inr (refl, refl, λ e. cc e)
store_source_dichotomy source destination fb2 (some can_convert) true result =
    inr (refl, refl, λ e. ground arith)

-- A converted book is stored exactly if conversion is forced on an FB2 book, the converter is there
-- and can convert, and it has succeeded with an output.
pub store_converted_iff :
    (source destination : String) (format : BookFormat)
    (converter : Option (BookFormat → BookFormat → Bool)) (force : Bool) (r : ConversionResult)
    → ((outcome source destination format converter force (some r)).decision ≡ store_converted) ↔ (
        (format ≡ fb2)
        × (force ≡ true)
        × (cannot_convert converter ≡ false)
        × (r.status ≡ succeeded)
        × (is_empty r.output_path ≡ false))
unfolding resolve_import_conversion plan_import_conversion
store_converted_iff source destination format converter force r =
    (λ h. ground arith, λ h. ground arith)

-- An import that the outcome fails or cancels stores nothing: the outcome is not storable, and its
-- path is cleared.
not_stored :
    (source destination : String) (format : BookFormat)
    (converter : Option (BookFormat → BookFormat → Bool)) (force : Bool)
    (result : Option ConversionResult)
    → ((outcome source destination format converter force result).decision ≡ fail_import)
      ⊎ ((outcome source destination format converter force result).decision ≡ cancel_import)
    → (is_storable (outcome source destination format converter force result) ≡ false)
      × ((outcome source destination format converter force result).source_path ≡ "")
unfolding resolve_import_conversion plan_import_conversion is_storable
not_stored source destination format converter force result h = ground arith
