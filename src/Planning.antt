-- ===== src/Planning.antt =====
-- libs/App/ImportWorkloadPlanner.hpp and .cpp: how many entries an import will have. Paths `P` are
-- std::filesystem's, with `same` for their equality; `is_zip` is IsZipStandalonePath, and
-- `count_planned_entries` the coordinator's CountPlannedEntries, which may throw.
pub mod Totals
mod Examples
use librova.Base.{
  ℕ, Bool, List, [], ◌∷◌, ◌++◌, ◌+◌, Option, none, some, if◌then◌else◌, String, concat,
}
use librova.Base.Outcome.{Outcome, ok, err}

pub record PreparedImportWorkload (P : Type 0) : Type 0 where
  pub total_entries : ℕ
  pub planned_entries_by_source : List (P × ℕ)
  pub warnings : List String

module _ {P : Type 0} (same : P → P → Bool) where
  unfoldable pub find : P → List (P × ℕ) → Option ℕ
  find path [] = none
  find path ((key, entries) ∷ rest) =
      let later = find path rest in if same path key then some entries else later

  -- std::map::emplace leaves a key that is there alone.
  unfoldable pub emplace : P → ℕ → List (P × ℕ) → List (P × ℕ)
  emplace path entries [] = (path, entries) ∷ []
  emplace path entries ((key, old) ∷ rest) =
      let others = emplace path entries rest in
      if same path key then (key, old) ∷ rest else (key, old) ∷ others

module _ {P : Type 0} (same : P → P → Bool) (is_zip : P → Bool)
    (count_planned_entries : P → Outcome ℕ) (path_to_utf8 : P → String) where
  -- The try block and its handler.
  unfoldable pub note_zip : P → Outcome ℕ → PreparedImportWorkload P → PreparedImportWorkload P
  unfolding emplace
  note_zip path (ok entries) w = record w {
    planned_entries_by_source = emplace same path entries w.planned_entries_by_source;
    total_entries = w.total_entries + entries;
  }
  note_zip path (err message) w = record w {
    planned_entries_by_source = emplace same path 1 w.planned_entries_by_source;
    total_entries = w.total_entries + 1;
    warnings =
        w.warnings
        ++ (concat "Failed to inspect ZIP archive '"
              (concat (path_to_utf8 path) (concat "': " message))
            ∷ []);
  }

  -- The body of the loop after the test for cancellation.
  unfoldable pub note_source : P → PreparedImportWorkload P → PreparedImportWorkload P
  unfolding note_zip
  note_source path w =
      if is_zip path
      then note_zip path (count_planned_entries path) w
      else record w { total_entries = w.total_entries + 1 }

  -- The loop; `cancelled n` is the answer of the test before the n-th candidate.
  unfoldable pub prepare_from :
      (ℕ → Bool) → ℕ → List P → PreparedImportWorkload P → PreparedImportWorkload P
  unfolding note_source
  prepare_from cancelled n [] w = w
  prepare_from cancelled n (path ∷ rest) w =
      let done = prepare_from cancelled (n + 1) rest (note_source path w) in
      if cancelled n then w else done

  unfoldable pub prepare : (ℕ → Bool) → List P → PreparedImportWorkload P
  unfolding prepare_from
  prepare cancelled candidates =
      prepare_from cancelled 0 candidates
        (record { total_entries = 0; planned_entries_by_source = []; warnings = [] })
