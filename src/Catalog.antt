-- ===== src/Catalog.antt =====
-- libs/Domain/BookRepository.hpp and .cpp: the operations that IBookRepository implements itself, on
-- top of the ones that a repository supplies. `W` is the state of the repository, `B` a book.
use librova.Writer.{imported, rejected_duplicate, failed, BatchBookResult}
use librova.Base.{ℕ, Bool, if◌then◌else◌, String, List, [], ◌∷◌, zero, suc, some, none}
use librova.Base.Outcome.{Outcome, ok, err}
pub mod Batch
mod Examples

-- What Add and ForceAdd do: return an id, throw CDuplicateHashException, or throw otherwise.
pub data Insertion : Type 0 where
  added : ℕ → Insertion
  duplicate_hash : ℕ → Insertion
  other_failure : String → Insertion

pub record BookRepository (W B : Type 0) : Type 0 where
  pub reserve_id : W → Outcome ℕ × W
  pub add : B → W → Insertion × W
  pub force_add : B → W → Insertion × W
  pub remove : ℕ → W → Outcome (Unit {0}) × W

module _ {W B : Type 0} (repository : BookRepository W B) where
  -- Every exception ends the loop.
  unfoldable pub reserve_ids : ℕ → W → Outcome (List ℕ) × W
  reserve_ids zero w = (ok [], w)
  reserve_ids (suc count) w =
      let (first, after) = repository.reserve_id w in
      let (others, final) = reserve_ids count after in
      elim first [
        | err message ↦ (err message, after)
        | ok id ↦ (elim others [ ok ids ↦ ok (id ∷ ids) | err message ↦ err message ], final)
      ]

  -- The result of an entry, by what became of it.
  abbrev pub result_of : Insertion → BatchBookResult
  result_of (added id) = record {
    status = imported;
    book_id = some id;
    conflicting_book_id = none;
    error = "";
  }
  result_of (duplicate_hash existing) = record {
    status = rejected_duplicate;
    book_id = none;
    conflicting_book_id = some existing;
    error = "";
  }
  result_of (other_failure message) = record {
    status = failed;
    book_id = none;
    conflicting_book_id = none;
    error = message;
  }

  abbrev pub add_entry : B × Bool → W → Insertion × W
  add_entry (book, force) w = if force then repository.force_add book w else repository.add book w

  unfoldable pub add_batch : List (B × Bool) → W → List BatchBookResult × W
  add_batch [] w = ([], w)
  add_batch (entry ∷ rest) w =
      let (outcome, after) = add_entry entry w in
      let (results, final) = add_batch rest after in (result_of outcome ∷ results, final)

  -- An exception leaves the loop with the state at hand.
  unfoldable pub after_removal :
      Outcome (Unit {0}) → W → Outcome (Unit {0}) × W → Outcome (Unit {0}) × W
  after_removal (ok _) after later = later
  after_removal (err message) after later = (err message, after)

  unfoldable pub remove_batch : List ℕ → W → Outcome (Unit {0}) × W
  unfolding after_removal
  remove_batch [] w = (ok tt, w)
  remove_batch (id ∷ rest) w =
      let (outcome, after) = repository.remove id w in
      after_removal outcome after (remove_batch rest after)
