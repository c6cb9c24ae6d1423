-- ===== src/Importing/Run/Views/Atomic.antt =====
-- Run as a whole: the import of a file is done, or nothing is.
use librova.Base.{String, Option, ◌≢◌, List, Bool-cases, some, ℕ, inl, none, [], inr, ◌&&◌, not}
use librova.Importing.Run.Views.{View, IsLawful}
use librova.Importing.Services.{Services}
use librova.Importing.Run.{
  run_conversion, decide, convert_source, check_duplicates, parse_source, after_detection,
  import_source, reserve, RunState, after_conversion, report, convert_with, effective_sha256_hex,
}
use librova.Importing.{
  SingleFileImportResult, SingleFileImportRequest, ParsedBook, imported, DuplicateMatch,
  has_strict_duplicate, has_probable_duplicate,
}
use librova.Conversion.{
  ConversionRequest, BookFormat, has_output, ImportConversionOutcome, ImportConversionDecision,
  cancel_import, fail_import, store_source, store_converted, ImportConversionPlan,
  resolve_import_conversion,
}
use librova.Importing.Run.Views.Open.{IsOpen, Holds}
use librova.Importing.Run.Views.Staging.{
  Ends, called, then-Ends, reported, build_cancelled-Ends, and_then-cases, build_failed-Ends,
  prepare_storage-Ends, Keeps,
}
use librova.Importing.Run.Views.Writing.{Broken, Done}

module _ {W Metadata C D : Type 0} (v : View W Metadata C D) (services : Services W Metadata)
    (IsTemporary : String → Type 0) (lawful : IsLawful v services IsTemporary) (w0 : W) where
  run_conversion-Keeps :
      (o : Option ConversionRequest) (s : RunState W)
      → IsOpen v services IsTemporary lawful w0 s
      → Holds
          (λ _ s'. IsOpen v services IsTemporary lawful w0 s')
          (Broken v services IsTemporary lawful w0)
          (run_conversion services o s)
  unfolding run_conversion
  run_conversion-Keeps none s h = h
  run_conversion-Keeps (some request) s h =
      let message : String = "Running external conversion" in
      let s1 = (report services 45 message s).1 in
      called v services IsTemporary lawful w0 (λ _ s'. IsOpen v services IsTemporary lawful w0 s')
        (services.convert request) s1 _ (lawful.convert_quiet request s1.world)
        (reported v services IsTemporary lawful w0 45 message s h)
        (λ result e h'. record {
          cover = h'.cover;
          converted = elim (Bool-cases (has_output result)) [
            | inl yes_output ↦ rw yes_output (lawful.convert_temporary request s1.world result e)
            | inr no_output ↦ rw no_output h'.converted
          ];
          catalog_kept = h'.catalog_kept;
          managed_kept = h'.managed_kept;
          undo = h'.undo;
          not_added = h'.not_added;
        })

  decide-Ends :
      (request : SingleFileImportRequest) (book : ParsedBook Metadata) (hash : Option String)
      (duplicates : List DuplicateMatch) (warnings : List String) (id : ℕ)
      (outcome : ImportConversionOutcome) (decision : ImportConversionDecision) (s : RunState W)
      → IsOpen v services IsTemporary lawful w0 s
      → Ends v services IsTemporary lawful w0
          (decide services request book hash duplicates warnings id outcome decision s)
  unfolding decide
  decide-Ends request book hash duplicates warnings id outcome cancel_import s h =
      build_cancelled-Ends v services IsTemporary lawful w0 _ duplicates _ s h
  decide-Ends request book hash duplicates warnings id outcome fail_import s h =
      build_failed-Ends v services IsTemporary lawful w0 outcome.error _ s h
  decide-Ends request book hash duplicates warnings id outcome store_source s h =
      prepare_storage-Ends v services IsTemporary lawful w0 request book hash duplicates warnings id
        outcome s h
  decide-Ends request book hash duplicates warnings id outcome store_converted s h =
      prepare_storage-Ends v services IsTemporary lawful w0 request book hash duplicates warnings id
        outcome s h

  convert_with-Ends :
      (request : SingleFileImportRequest) (book : ParsedBook Metadata) (hash : Option String)
      (duplicates : List DuplicateMatch) (warnings : List String) (id : ℕ)
      (plan : ImportConversionPlan) (s : RunState W)
      → IsOpen v services IsTemporary lawful w0 s
      → Ends v services IsTemporary lawful w0
          (convert_with services request book hash duplicates warnings id plan s)
  unfolding convert_with after_conversion
  convert_with-Ends request book hash duplicates warnings id plan s h =
      then-Ends v services IsTemporary lawful w0 (run_conversion services plan.request s)
        (λ result.
          after_conversion services request book hash duplicates warnings id
            (resolve_import_conversion plan result))
        (run_conversion-Keeps plan.request s h)
        (λ result s' h'.
          let outcome = resolve_import_conversion plan result in
          decide-Ends request book hash duplicates warnings id outcome outcome.decision s' h')

  reserve-Keeps :
      (request : SingleFileImportRequest) (s : RunState W)
      → IsOpen v services IsTemporary lawful w0 s
      → Keeps v services IsTemporary lawful w0 (reserve services request s)
  unfolding reserve
  reserve-Keeps request s h =
      called v services IsTemporary lawful w0 (λ _ s'. IsOpen v services IsTemporary lawful w0 s')
        services.repository.reserve_id s _ (lawful.reserve_quiet s.world) h (λ a e h'. h')

  convert_source-Ends :
      (request : SingleFileImportRequest) (book : ParsedBook Metadata) (hash : Option String)
      (duplicates : List DuplicateMatch) (s : RunState W)
      → IsOpen v services IsTemporary lawful w0 s
      → Ends v services IsTemporary lawful w0
          (convert_source services request book hash duplicates s)
  unfolding convert_source
  convert_source-Ends request book hash duplicates s h =
      then-Ends v services IsTemporary lawful w0 (reserve services request s) _
        (reserve-Keeps request s h)
        (λ id s' h'.
          let message : String = "Planning conversion" in
          convert_with-Ends request book hash duplicates _ id _ (report services 30 message s').1
            (reported v services IsTemporary lawful w0 30 message s' h'))

  unchanged_here :
      (r : SingleFileImportResult) (s : RunState W)
      → r.status ≢ imported
      → IsOpen v services IsTemporary lawful w0 s
      → Done v services IsTemporary lawful w0 r s
  unchanged_here r s other h = inl (record {
    not_imported = other;
    catalog_kept = h.catalog_kept;
    files_restored = inl h.managed_kept;
  })

  check_duplicates-Ends :
      (request : SingleFileImportRequest) (book : ParsedBook Metadata) (hash : Option String)
      (duplicates : List DuplicateMatch) (s : RunState W)
      → IsOpen v services IsTemporary lawful w0 s
      → Ends v services IsTemporary lawful w0
          (check_duplicates services request book hash duplicates s)
  unfolding check_duplicates
  check_duplicates-Ends request book hash duplicates s h =
      elim (Bool-cases (services.cancelled 1)) [
        | inl e ↦ rw e (build_cancelled-Ends v services IsTemporary lawful w0 _ duplicates [] s h)
        | inr e ↦ elim (Bool-cases (has_strict_duplicate duplicates)) [
          | inl f ↦ rw (e, f) (unchanged_here _ s (λ g. cc) h)
          | inr f ↦
              elim (Bool-cases
                (has_probable_duplicate duplicates && not request.allow_probable_duplicates)) [
                  | inl g ↦ rw (e, f, g) (unchanged_here _ s (λ k. cc) h)
                  | inr g ↦ rw (e, f, g) (convert_source-Ends request book hash duplicates s h)
                ]
        ]
      ]

  parse_source-Ends :
      (request : SingleFileImportRequest) (s : RunState W)
      → IsOpen v services IsTemporary lawful w0 s
      → Ends v services IsTemporary lawful w0 (parse_source services request s)
  unfolding parse_source
  parse_source-Ends request s h =
      let message : String = "Parsing source book" in
      let s1 = (report services 15 message s).1 in
      let h1 = reported v services IsTemporary lawful w0 15 message s h in
      and_then-cases _ _ (services.parse request.source_path request.import_covers s1.world) s1 _
        (inl h1)
        (λ book _.
          and_then-cases _ _ (services.find_duplicates _ s1.world) s1 _ (inl h1) (λ duplicates _.
            check_duplicates-Ends request book (effective_sha256_hex services request s1.world)
              duplicates s1 h1))

  after_detection-Ends :
      (request : SingleFileImportRequest) (format : Option BookFormat) (s : RunState W)
      → IsOpen v services IsTemporary lawful w0 s
      → Ends v services IsTemporary lawful w0 (after_detection services request format s)
  unfolding after_detection
  after_detection-Ends request none s h = unchanged_here _ s (λ e. cc) h
  after_detection-Ends request (some format) s h = parse_source-Ends request s h

  pub import_source-Ends :
      (request : SingleFileImportRequest) (s : RunState W)
      → IsOpen v services IsTemporary lawful w0 s
      → Ends v services IsTemporary lawful w0 (import_source services request s)
  unfolding import_source
  import_source-Ends request s h = elim (Bool-cases (services.cancelled 0)) [
    | inl e ↦ rw e (build_cancelled-Ends v services IsTemporary lawful w0 none [] [] s h)
    | inr e ↦
        let message : String = "Detecting source format" in
        rw e (
          after_detection-Ends request _ (report services 5 message s).1
            (reported v services IsTemporary lawful w0 5 message s h))
  ]
