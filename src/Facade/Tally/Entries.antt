-- ===== src/Facade/Tally/Entries.antt =====
-- What the entries of an archive add to the counts and to the ids.
use librova.Base.{
  ℕ, String, List, Option, true, false, [], ◌∷◌, ◌+◌, none, some, ◌≡◌, refl, length, Bool-cases,
  inl, inr, All, arith, ◌∙◌, length-append, true≢false, sym,
}
use librova.Conversion.{is_empty}
use librova.Importing.{SingleFileImportResult, imported, SingleFileImportStatus}
use librova.Facade.{
  ImportResult, ZipEntryImportResult, is_success, is_imported, entry_imported, entry_skipped,
  unsupported_entry, nested_archive_skipped, entry_failed, entry_cancelled, ZipEntryImportStatus,
  classify_zip_entry_skip_reason, has_imported, has_success,
}
use librova.Facade.Tally.{
  merge_error, merge_warnings, merge_entry_warnings, note_entry, note_entries, note_entry_ids,
  note_entry_id, count_not_cancelled, merge_result_warnings, note_entry_as, not_cancelled,
  count_failed_entries, note_skipped_entry, merge_reason, count_skipped_entry, note_id,
  note_result_id,
}

abbrev pub counted : ImportResult → ℕ
counted r = r.summary.imported_entries + r.summary.failed_entries + r.summary.skipped_entries

-- Neither the counts nor the ids differ.
abbrev pub IsSame : ImportResult → ImportResult → Type 0
IsSame r r' =
    (r'.summary.imported_entries ≡ r.summary.imported_entries)
    × (r'.summary.failed_entries ≡ r.summary.failed_entries)
    × (r'.summary.skipped_entries ≡ r.summary.skipped_entries)
    × (r'.imported_book_ids ≡ r.imported_book_ids)

pub merge_error-IsSame : (error : String) (r : ImportResult) → IsSame r (merge_error error r)
unfolding merge_error merge_warnings
merge_error-IsSame error r = elim (Bool-cases (is_empty error)) [
  | inl e ↦ rw e (refl, refl, refl, refl)
  | inr e ↦ rw e (refl, refl, refl, refl)
]

merge_result_warnings-IsSame :
    (error : String) (o : Option SingleFileImportResult) (r : ImportResult)
    → IsSame r (merge_result_warnings error o r)
unfolding merge_error merge_warnings
merge_result_warnings-IsSame error (some s) r =
    merge_error-IsSame s.error (merge_warnings s.warnings r)
merge_result_warnings-IsSame error none r = merge_error-IsSame error r

merge_entry_warnings-IsSame :
    (entry : ZipEntryImportResult) (r : ImportResult) → IsSame r (merge_entry_warnings entry r)
unfolding merge_entry_warnings
merge_entry_warnings-IsSame entry r =
    merge_result_warnings-IsSame entry.error entry.single_file_result r

abbrev pub imported_one : ZipEntryImportStatus → ℕ
imported_one entry_imported = 1
imported_one _ = 0

-- What an entry adds to the counts.
abbrev Adds : ZipEntryImportStatus → ImportResult → ImportResult → Type 0
Adds status r r' =
    (counted r' ≡ counted r + not_cancelled status)
    × (r'.summary.imported_entries ≡ r.summary.imported_entries + imported_one status)
    × (r'.imported_book_ids ≡ r.imported_book_ids)

note_skipped_entry-Adds :
    (entry : ZipEntryImportResult) (r : ImportResult)
    → Adds entry_skipped r (note_skipped_entry entry r)
note_skipped_entry-Adds entry r =
    let (i, f, k, ids) =
      merge_entry_warnings-IsSame entry
        (merge_reason (classify_zip_entry_skip_reason entry) (count_skipped_entry r)) in
    (omega arith, omega arith, ids)

note_entry_as-Adds :
    (status : ZipEntryImportStatus) (entry : ZipEntryImportResult) (r : ImportResult)
    → Adds status r (note_entry_as status entry r)
note_entry_as-Adds entry_imported entry r = (omega arith, refl, refl)
note_entry_as-Adds entry_skipped entry r = note_skipped_entry-Adds entry r
note_entry_as-Adds unsupported_entry entry r = note_skipped_entry-Adds entry r
note_entry_as-Adds nested_archive_skipped entry r = note_skipped_entry-Adds entry r
note_entry_as-Adds entry_failed entry r =
    let (i, f, k, ids) = merge_entry_warnings-IsSame entry (count_failed_entries 1 r) in
    (omega arith, omega arith, ids)
note_entry_as-Adds entry_cancelled entry r =
    let (i, f, k, ids) = merge_entry_warnings-IsSame entry (record r { was_cancelled = true }) in
    (omega arith, omega arith, ids)

abbrev pub imported_count : List ZipEntryImportResult → ℕ
imported_count [] = 0
imported_count (entry ∷ rest) = imported_one entry.status + imported_count rest

pub note_entries_adds :
    (entries : List ZipEntryImportResult) (r : ImportResult)
    → (counted (note_entries entries r) ≡ counted r + count_not_cancelled entries)
      × ((note_entries entries r).summary.imported_entries
          ≡ r.summary.imported_entries + imported_count entries)
      × ((note_entries entries r).imported_book_ids ≡ r.imported_book_ids)
unfolding note_entries note_entry count_not_cancelled
note_entries_adds [] r = (omega arith, omega arith, refl)
note_entries_adds (entry ∷ rest) r =
    let (c, i, ids) = note_entry_as-Adds entry.status entry r in
    let (c', i', ids') = note_entries_adds rest (note_entry_as entry.status entry r) in
    (omega arith, omega arith, ids' ∙ ids)

-- A result that says Imported names the book. The single-file import keeps this promise.
abbrev pub IsNamed : SingleFileImportResult → Type 0
IsNamed s = s.status ≡ imported → is_success s ≡ true

-- An entry counts as imported if and only if its file was imported.
abbrev pub IsNamedEntry : ZipEntryImportResult → Type 0
IsNamedEntry entry = entry.status ≡ entry_imported → is_imported entry ≡ true

pub note_id_success :
    (status : SingleFileImportStatus) (o : Option ℕ) (r : ImportResult)
    → has_success status o ≡ true
    → length (note_id o r).imported_book_ids ≡ length r.imported_book_ids + 1
note_id_success status (some id) r e = length-append r.imported_book_ids (id ∷ [])
note_id_success status none r e = absurd (true≢false (sym e))

has_imported-is_success :
    (status : ZipEntryImportStatus) (s : SingleFileImportResult)
    → has_imported status (some s) ≡ true
    → is_success s ≡ true
has_imported-is_success entry_imported s e = e
has_imported-is_success entry_skipped s e = cc
has_imported-is_success unsupported_entry s e = cc
has_imported-is_success nested_archive_skipped s e = cc
has_imported-is_success entry_failed s e = cc
has_imported-is_success entry_cancelled s e = cc

note_result_id_imported :
    (status : ZipEntryImportStatus) (o : Option SingleFileImportResult) (r : ImportResult)
    → has_imported status o ≡ true
    → length (note_result_id o r).imported_book_ids ≡ length r.imported_book_ids + 1
unfolding is_success
note_result_id_imported status none r e = absurd (true≢false (sym e))
note_result_id_imported status (some s) r e =
    note_id_success s.status s.imported_book_id r (has_imported-is_success status s e)

pub note_id_summary : (o : Option ℕ) (r : ImportResult) → (note_id o r).summary ≡ r.summary
note_id_summary none r = refl
note_id_summary (some id) r = refl

note_result_id_summary :
    (o : Option SingleFileImportResult) (r : ImportResult)
    → (note_result_id o r).summary ≡ r.summary
note_result_id_summary none r = refl
note_result_id_summary (some s) r = note_id_summary s.imported_book_id r

has_imported_none :
    (status : ZipEntryImportStatus) (o : Option SingleFileImportResult)
    → (status ≡ entry_imported → has_imported status o ≡ true)
    → has_imported status o ≡ false
    → imported_one status ≡ 0
has_imported_none entry_imported o named e = absurd (true≢false (sym (named refl) ∙ e))
has_imported_none entry_skipped o named e = refl
has_imported_none unsupported_entry o named e = refl
has_imported_none nested_archive_skipped o named e = refl
has_imported_none entry_failed o named e = refl
has_imported_none entry_cancelled o named e = refl

has_imported_one :
    (status : ZipEntryImportStatus) (o : Option SingleFileImportResult)
    → has_imported status o ≡ true
    → imported_one status ≡ 1
has_imported_one status none e = absurd (true≢false (sym e))
has_imported_one entry_imported (some s) e = refl
has_imported_one entry_skipped (some s) e = cc
has_imported_one unsupported_entry (some s) e = cc
has_imported_one nested_archive_skipped (some s) e = cc
has_imported_one entry_failed (some s) e = cc
has_imported_one entry_cancelled (some s) e = cc

note_entry_id_adds :
    (entry : ZipEntryImportResult) (r : ImportResult)
    → IsNamedEntry entry
    → ((note_entry_id entry r).summary ≡ r.summary)
      × (length (note_entry_id entry r).imported_book_ids
          ≡ length r.imported_book_ids + imported_one entry.status)
unfolding note_entry_id is_imported
note_entry_id_adds entry r h =
    elim (Bool-cases (has_imported entry.status entry.single_file_result)) [
      | inl e ↦
          let one = note_result_id_imported entry.status entry.single_file_result r e in
          let is_one = has_imported_one entry.status entry.single_file_result e in
          rw e (note_result_id_summary entry.single_file_result r, omega arith)
      | inr e ↦
          let is_zero = has_imported_none entry.status entry.single_file_result h e in
          rw e (refl, omega arith)
    ]

pub note_entry_ids_adds :
    (entries : List ZipEntryImportResult) (r : ImportResult)
    → All IsNamedEntry entries
    → ((note_entry_ids entries r).summary ≡ r.summary)
      × (length (note_entry_ids entries r).imported_book_ids
          ≡ length r.imported_book_ids + imported_count entries)
unfolding note_entry_ids
note_entry_ids_adds [] r h = (refl, omega arith)
note_entry_ids_adds (entry ∷ rest) r (h, hs) =
    let (same, ids) = note_entry_ids_adds rest (note_entry_id entry r) hs in
    let (same', one) = note_entry_id_adds entry r h in (same ∙ same', omega arith)
