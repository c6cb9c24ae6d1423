-- ===== src/Facade/Tally/Counted.antt =====
-- The counts of an import: every processed entry is counted once, and every import has its id.
use mathlib.Core.List.{Permᴰ}
use librova.Base.{
  ℕ, String, List, Option, true, false, [], ◌∷◌, ◌+◌, none, some, ◌≡◌, refl, length, Bool-cases,
  inl, inr, All, arith, ◌∙◌, true≢false, sym, ap,
}
use librova.Importing.{
  SingleFileImportResult, imported, SingleFileImportStatus, rejected_duplicate, cancelled, failed,
  unsupported_format,
}
use librova.Facade.{
  ImportResult, ZipEntryImportResult, is_success, has_success, ImportMode, ImportSummary,
  single_file, zip_archive, batch,
}
use librova.Facade.Tally.{
  note_tasks, note_task, note_events, task_event, note_single_file, Tally, merge_error,
  merge_warnings, note_entry_ids, note_archive, note_archive_failure, keep_zip_result, event_of,
  note_unsuccessful, process_single_file_result_details, keep_single_result, apply_progress_event,
  build_single_file_progress_event,
}
use librova.Facade.Tally.Entries.{
  counted, IsSame, merge_error-IsSame, note_entries_adds, note_entry_ids_adds, IsNamedEntry,
  note_id_success, note_id_summary, IsNamed,
}
use librova.Base.Outcome.{Outcome, ok, err}

-- The counts of the tally are those of the entries processed so far, each counted once, and every
-- import has its id.
abbrev pub IsCounted : Tally → Type 0
IsCounted t =
    (t.processed_entries ≡ counted t.result)
    × (length t.result.imported_book_ids ≡ t.result.summary.imported_entries)

keep_zip_result-IsSame :
    (mode : ImportMode) (entries : List ZipEntryImportResult) (r : ImportResult)
    → IsSame r (keep_zip_result mode entries r)
keep_zip_result-IsSame single_file entries r = (refl, refl, refl, refl)
keep_zip_result-IsSame zip_archive entries r = (refl, refl, refl, refl)
keep_zip_result-IsSame batch entries r = (refl, refl, refl, refl)

pub note_archive-IsCounted :
    (entries : List ZipEntryImportResult) (t : Tally)
    → All IsNamedEntry entries
    → IsCounted t
    → IsCounted (note_archive entries t)
unfolding note_archive
note_archive-IsCounted entries t h (b, i) =
    let r = keep_zip_result t.result.summary.mode entries t.result in
    let (e1, e2, e3, e4) = keep_zip_result-IsSame t.result.summary.mode entries t.result in
    let (same, ids) = note_entry_ids_adds entries r h in
    let (all, imp, kept) = note_entries_adds entries (note_entry_ids entries r) in
    let same_length = ap (length {A = ℕ}) kept in
    let kept_ids = ap (length {A = ℕ}) e4 in
    let s1 = ap (λ (s : ImportSummary). s.imported_entries) same in
    let s2 = ap (λ (s : ImportSummary). s.failed_entries) same in
    let s3 = ap (λ (s : ImportSummary). s.skipped_entries) same in (omega arith, omega arith)

pub note_archive_failure-IsCounted :
    (n : ℕ) (warning : String) (t : Tally)
    → IsCounted t
    → IsCounted (note_archive_failure n warning t)
unfolding note_archive_failure merge_warnings
note_archive_failure-IsCounted n warning t (b, i) = (omega arith, i)

-- What a result adds to the counts as an event.
event_of_counted :
    (status : SingleFileImportStatus)
    → (event_of status).imported_delta
        + (event_of status).failed_delta
        + (event_of status).skipped_delta
      ≡ 1
event_of_counted imported = refl
event_of_counted rejected_duplicate = refl
event_of_counted cancelled = refl
event_of_counted failed = refl
event_of_counted unsupported_format = refl

note_unsuccessful-IsSame :
    (status : SingleFileImportStatus) (r : ImportResult) → IsSame r (note_unsuccessful status r)
note_unsuccessful-IsSame imported r = (refl, refl, refl, refl)
note_unsuccessful-IsSame rejected_duplicate r = (refl, refl, refl, refl)
note_unsuccessful-IsSame cancelled r = (refl, refl, refl, refl)
note_unsuccessful-IsSame failed r = (refl, refl, refl, refl)
note_unsuccessful-IsSame unsupported_format r = (refl, refl, refl, refl)

-- The imports that a result stands for, seen from its event and seen from its id.
abbrev pub imports : SingleFileImportResult → ℕ
imports s = (event_of s.status).imported_delta

imports_success :
    (status : SingleFileImportStatus) (o : Option ℕ)
    → has_success status o ≡ true
    → (event_of status).imported_delta ≡ 1
imports_success status none e = absurd (true≢false (sym e))
imports_success imported (some id) e = refl
imports_success rejected_duplicate (some id) e = cc
imports_success cancelled (some id) e = cc
imports_success failed (some id) e = cc
imports_success unsupported_format (some id) e = cc

imports_none :
    (status : SingleFileImportStatus) (o : Option ℕ)
    → (status ≡ imported → has_success status o ≡ true)
    → has_success status o ≡ false
    → (event_of status).imported_delta ≡ 0
imports_none imported o named e = absurd (true≢false (sym (named refl) ∙ e))
imports_none rejected_duplicate o named e = refl
imports_none cancelled o named e = refl
imports_none failed o named e = refl
imports_none unsupported_format o named e = refl

details_add :
    (s : SingleFileImportResult) (r : ImportResult)
    → IsNamed s
    → (counted (process_single_file_result_details s r) ≡ counted r)
      × ((process_single_file_result_details s r).summary.imported_entries
          ≡ r.summary.imported_entries)
      × (length (process_single_file_result_details s r).imported_book_ids
          ≡ length r.imported_book_ids + imports s)
unfolding process_single_file_result_details is_success merge_warnings
details_add s r h = elim (Bool-cases (has_success s.status s.imported_book_id)) [
  | inl e ↦
      let one = imports_success s.status s.imported_book_id e in
      let added = note_id_success s.status s.imported_book_id r e in
      rw e (
        ap (λ (m : ImportSummary). m.imported_entries + m.failed_entries + m.skipped_entries)
            (note_id_summary s.imported_book_id r),
        ap (λ (m : ImportSummary). m.imported_entries) (note_id_summary s.imported_book_id r),
        omega arith,
      )
  | inr e ↦
      let none_added = imports_none s.status s.imported_book_id h e in
      let merged = merge_warnings s.warnings r in
      let (i, f, k, ids) = merge_error-IsSame s.error merged in
      let (i', f', k', ids') = note_unsuccessful-IsSame s.status (merge_error s.error merged) in
      let lengths = ap (length {A = ℕ}) (ids' ∙ ids) in rw e (omega arith, omega arith, omega arith)
]

keep_single_result-IsSame :
    (mode : ImportMode) (s : SingleFileImportResult) (r : ImportResult)
    → IsSame r (keep_single_result mode s r)
keep_single_result-IsSame single_file s r = (refl, refl, refl, refl)
keep_single_result-IsSame zip_archive s r = (refl, refl, refl, refl)
keep_single_result-IsSame batch s r = (refl, refl, refl, refl)

-- A file that was imported on the main thread: its event, then its details.
pub note_single_file-IsCounted :
    (s : SingleFileImportResult) (t : Tally)
    → IsNamed s
    → IsCounted t
    → IsCounted (note_single_file s (apply_progress_event (build_single_file_progress_event s) t))
unfolding note_single_file apply_progress_event build_single_file_progress_event
note_single_file-IsCounted s t h (b, i) =
    let t' = apply_progress_event (event_of s.status) t in
    let (e1, e2, e3, e4) = keep_single_result-IsSame t'.result.summary.mode s t'.result in
    let (c, k, ids) = details_add s (keep_single_result t'.result.summary.mode s t'.result) h in
    let lengths = ap (length {A = ℕ}) e4 in
    let one = event_of_counted s.status in (omega arith, omega arith)

-- What a task of the pool stands for.
abbrev pub task_imports : Outcome SingleFileImportResult → ℕ
task_imports (ok s) = imports s
task_imports (err message) = 0

abbrev pub imports_of : List (Outcome SingleFileImportResult) → ℕ
imports_of [] = 0
imports_of (o ∷ rest) = task_imports o + imports_of rest

abbrev pub IsNamedTask : Outcome SingleFileImportResult → Type 0
IsNamedTask (ok s) = IsNamed s
IsNamedTask (err message) = Unit

imports_of-perm :
    {xs ys : List (Outcome SingleFileImportResult)} → Permᴰ xs ys → imports_of xs ≡ imports_of ys
imports_of-perm Permᴰ.nil = refl
imports_of-perm (Permᴰ.cons {a = a} {b = b} e p) =
    let first = ap task_imports e in let others = imports_of-perm p in omega arith
imports_of-perm (Permᴰ.swap {a = a} {b = b} {a' = a'} {b' = b'} {l = rest} e e') =
    let one = ap task_imports e in let two = ap task_imports e' in omega arith
imports_of-perm (Permᴰ.trans p q) = imports_of-perm p ∙ imports_of-perm q

task_event_counted :
    (o : Outcome SingleFileImportResult)
    → ((task_event o).imported_delta + (task_event o).failed_delta + (task_event o).skipped_delta
        ≡ 1)
      × ((task_event o).imported_delta ≡ task_imports o)
unfolding build_single_file_progress_event
task_event_counted (ok s) = (event_of_counted s.status, refl)
task_event_counted (err message) = (refl, refl)

note_events_add :
    (os : List (Outcome SingleFileImportResult)) (t : Tally)
    → t.processed_entries ≡ counted t.result
    → ((note_events os t).processed_entries ≡ counted (note_events os t).result)
      × ((note_events os t).result.summary.imported_entries
          ≡ t.result.summary.imported_entries + imports_of os)
      × ((note_events os t).result.imported_book_ids ≡ t.result.imported_book_ids)
unfolding note_events apply_progress_event
note_events_add [] t b = (b, omega arith, refl)
note_events_add (o ∷ rest) t b =
    let (one, imp) = task_event_counted o in
    let (b', imp', ids) =
      note_events_add rest (apply_progress_event (task_event o) t) (omega arith) in
    (b', omega arith, ids)

note_tasks_add :
    (os : List (Outcome SingleFileImportResult)) (r : ImportResult)
    → All IsNamedTask os
    → (counted (note_tasks os r) ≡ counted r)
      × ((note_tasks os r).summary.imported_entries ≡ r.summary.imported_entries)
      × (length (note_tasks os r).imported_book_ids ≡ length r.imported_book_ids + imports_of os)
unfolding note_tasks note_task merge_warnings
note_tasks_add [] r h = (refl, refl, omega arith)
note_tasks_add (ok s ∷ rest) r (h, hs) =
    let (c, k, ids) = details_add s r h in
    let (c', k', ids') = note_tasks_add rest (process_single_file_result_details s r) hs in
    (omega arith, omega arith, omega arith)
note_tasks_add (err message ∷ rest) r (h, hs) =
    let (c, k, ids) = note_tasks_add rest (merge_warnings (message ∷ []) r) hs in
    (c, k, omega arith)

-- The files that the pool imported: the events in the order in which the tasks ended, then the
-- results in the order in which they were submitted.
pub note_tasks-IsCounted :
    (submitted ended : List (Outcome SingleFileImportResult)) (t : Tally)
    → Permᴰ submitted ended
    → All IsNamedTask submitted
    → IsCounted t
    → IsCounted (record (note_events ended t) {
      result = note_tasks submitted (note_events ended t).result;
    })
note_tasks-IsCounted submitted ended t p h (b, i) =
    let (b', imp, ids) = note_events_add ended t b in
    let (c, k, ids') = note_tasks_add submitted (note_events ended t).result h in
    let lengths = ap (length {A = ℕ}) ids in
    let same = imports_of-perm p in (omega arith, omega arith)
