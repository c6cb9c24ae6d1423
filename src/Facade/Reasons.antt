-- ===== src/Facade/Reasons.antt =====
-- The reason that an import gives for having stored nothing.
use mathlib.Core.List.{Permᴰ}
use librova.Base.{
  List, [], ◌∷◌, ◌≡◌, refl, ap, ap₂, ◌∙◌, sym, String, Option, Bool-cases, inl, inr, some, none,
  true,
}
use librova.Conversion.{is_empty}
use librova.Importing.{SingleFileImportResult}
use librova.Facade.{
  NoSuccessfulImportReason, reason_none, reason_unsupported_format, reason_duplicate_rejected,
  combine_no_successful_import_reason, classify_zip_entry_skip_reason, ZipEntryImportResult,
  ZipEntryImportStatus, ImportResult, entry_imported, entry_skipped, unsupported_entry,
  nested_archive_skipped, entry_failed, entry_cancelled,
}
use librova.Facade.Tally.{
  note_entries, note_entry, note_entry_as, merge_error, merge_warnings, merge_result_warnings,
  merge_entry_warnings, count_failed_entries,
}

combine_right_comm :
    (a b c : NoSuccessfulImportReason)
    → combine_no_successful_import_reason (combine_no_successful_import_reason a b) c
      ≡ combine_no_successful_import_reason (combine_no_successful_import_reason a c) b
unfolding combine_no_successful_import_reason
combine_right_comm a reason_none c = refl
combine_right_comm a reason_unsupported_format reason_none = refl
combine_right_comm a reason_duplicate_rejected reason_none = refl
combine_right_comm reason_none reason_unsupported_format reason_unsupported_format = refl
combine_right_comm reason_none reason_unsupported_format reason_duplicate_rejected = refl
combine_right_comm reason_none reason_duplicate_rejected reason_unsupported_format = refl
combine_right_comm reason_none reason_duplicate_rejected reason_duplicate_rejected = refl
combine_right_comm reason_unsupported_format reason_unsupported_format reason_unsupported_format =
    refl
combine_right_comm reason_unsupported_format reason_unsupported_format reason_duplicate_rejected =
    refl
combine_right_comm reason_unsupported_format reason_duplicate_rejected reason_unsupported_format =
    refl
combine_right_comm reason_unsupported_format reason_duplicate_rejected reason_duplicate_rejected =
    refl
combine_right_comm reason_duplicate_rejected reason_unsupported_format reason_unsupported_format =
    refl
combine_right_comm reason_duplicate_rejected reason_unsupported_format reason_duplicate_rejected =
    refl
combine_right_comm reason_duplicate_rejected reason_duplicate_rejected reason_unsupported_format =
    refl
combine_right_comm reason_duplicate_rejected reason_duplicate_rejected reason_duplicate_rejected =
    refl

abbrev reason_of : ImportResult → NoSuccessfulImportReason
reason_of r = r.no_successful_import_reason

merge_error_reason :
    (error : String) (r : ImportResult) → reason_of (merge_error error r) ≡ reason_of r
unfolding merge_error merge_warnings
merge_error_reason error r = elim (Bool-cases (is_empty error)) [
  | inl e ↦ rw e refl
  | inr e ↦ rw e refl
]

merge_result_warnings_reason :
    (error : String) (o : Option SingleFileImportResult) (r : ImportResult)
    → reason_of (merge_result_warnings error o r) ≡ reason_of r
unfolding merge_error merge_warnings
merge_result_warnings_reason error (some s) r =
    merge_error_reason s.error (merge_warnings s.warnings r)
merge_result_warnings_reason error none r = merge_error_reason error r

-- The reason that one entry adds: the one that it was skipped for.
abbrev added_reason : ZipEntryImportStatus → ZipEntryImportResult → NoSuccessfulImportReason
added_reason entry_imported entry = reason_none
added_reason entry_skipped entry = classify_zip_entry_skip_reason entry
added_reason unsupported_entry entry = classify_zip_entry_skip_reason entry
added_reason nested_archive_skipped entry = classify_zip_entry_skip_reason entry
added_reason entry_failed entry = reason_none
added_reason entry_cancelled entry = reason_none

merge_entry_warnings_reason :
    (entry : ZipEntryImportResult) (r : ImportResult)
    → reason_of (merge_entry_warnings entry r) ≡ reason_of r
unfolding merge_entry_warnings
merge_entry_warnings_reason entry r =
    merge_result_warnings_reason entry.error entry.single_file_result r

note_entry_as_reason :
    (status : ZipEntryImportStatus) (entry : ZipEntryImportResult) (r : ImportResult)
    → reason_of (note_entry_as status entry r)
      ≡ combine_no_successful_import_reason (reason_of r) (added_reason status entry)
unfolding combine_no_successful_import_reason
note_entry_as_reason entry_imported entry r = refl
note_entry_as_reason entry_skipped entry r = merge_entry_warnings_reason entry _
note_entry_as_reason unsupported_entry entry r = merge_entry_warnings_reason entry _
note_entry_as_reason nested_archive_skipped entry r = merge_entry_warnings_reason entry _
note_entry_as_reason entry_failed entry r =
    merge_entry_warnings_reason entry (count_failed_entries 1 r)
note_entry_as_reason entry_cancelled entry r =
    merge_entry_warnings_reason entry (record r { was_cancelled = true })

-- The reasons of a list of entries, on top of an earlier one.
abbrev combined : NoSuccessfulImportReason → List ZipEntryImportResult → NoSuccessfulImportReason
combined reason [] = reason
combined reason (entry ∷ rest) =
    combined (combine_no_successful_import_reason reason (added_reason entry.status entry)) rest

note_entries_reason :
    (entries : List ZipEntryImportResult) (r : ImportResult)
    → reason_of (note_entries entries r) ≡ combined (reason_of r) entries
unfolding note_entries note_entry
note_entries_reason [] r = refl
note_entries_reason (entry ∷ rest) r =
    note_entries_reason rest (note_entry_as entry.status entry r)
    ∙ ap (λ reason. combined reason rest) (note_entry_as_reason entry.status entry r)

combined-perm :
    {xs ys : List ZipEntryImportResult} (reason : NoSuccessfulImportReason)
    → Permᴰ xs ys
    → combined reason xs ≡ combined reason ys
combined-perm reason Permᴰ.nil = refl
combined-perm reason (Permᴰ.cons {a = a} {b = b} {l₂ = ys} e p) =
    combined-perm (combine_no_successful_import_reason reason (added_reason a.status a)) p
    ∙ ap
        (λ (x : ZipEntryImportResult).
          combined (combine_no_successful_import_reason reason (added_reason x.status x)) ys)
        e
combined-perm reason (Permᴰ.swap {a = a} {b = b} {a' = a'} {b' = b'} {l = rest} e e') =
    ap (λ z. combined z rest)
      (combine_right_comm reason (added_reason a.status a) (added_reason b.status b))
    ∙ ap₂
        (λ (x y : ZipEntryImportResult).
          combined
            (combine_no_successful_import_reason
              (combine_no_successful_import_reason reason (added_reason x.status x))
              (added_reason y.status y))
            rest)
        e' e
combined-perm reason (Permᴰ.trans p q) = combined-perm reason p ∙ combined-perm reason q

-- The reason that an archive's entries add does not depend on the order in which they come.
pub note_entries_reason-perm :
    (entries others : List ZipEntryImportResult) (r : ImportResult)
    → Permᴰ entries others
    → (note_entries entries r).no_successful_import_reason
      ≡ (note_entries others r).no_successful_import_reason
note_entries_reason-perm entries others r p =
    note_entries_reason entries r
    ∙ combined-perm r.no_successful_import_reason p
    ∙ sym (note_entries_reason others r)
