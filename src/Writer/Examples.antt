-- ===== src/Writer/Examples.antt =====
-- Tests of the writer thread, and its theorems at a concrete run.
use librova.Base.{
  [], none, false, List, ℕ, Bool, String, ◌∷◌, true, ◌≡◌, some, refl, map, ◌+◌, arith, length,
}
use librova.Writer.{imported, waiting, Writer, BatchBookResult, exited}
use librova.Writer.Steps.{submit, drain, writer_step, Reach, next, here, submits}
use librova.Writer.Steps.Fifo.{Inv, new_writer, new_writer-Reach-Inv, answered_tickets}
use librova.Writer.Steps.Draining.{run, drain_answers}
use librova.Base.Outcome.{Outcome, ok}

-- A repository that counts its books, and adds every book of a batch.
abbrev count_all : List (ℕ × Bool) → ℕ → Outcome (List BatchBookResult) × ℕ
count_all entries n = (
  ok (
      map
        (λ e. record {
          status = imported;
          book_id = some e.0;
          conflicting_book_id = none;
          error = "";
        })
        entries),
  n + length entries,
)

abbrev no_mismatch : ℕ → ℕ → String
no_mismatch m n = "AddBatch returned another number of results."

abbrev two_queued : Writer ℕ ℕ
two_queued = record {
  repository = 0;
  queue =
      record { ticket = 0; book = 41; force_add = false }
      ∷ record { ticket = 1; book = 42; force_add = true }
      ∷ [];
  stopped = false;
  fatal_error = none;
  phase = waiting;
  accepted = 0 ∷ 1 ∷ [];
  answered = [];
}

two_submitted : Reach count_all no_mismatch (new_writer count_all no_mismatch 0) two_queued
unfolding submit new_writer
two_submitted = next (next here (submits 41 false refl)) (submits 42 true refl)

new_writer-Reach-Inv_example : Inv two_queued
new_writer-Reach-Inv_example = new_writer-Reach-Inv count_all no_mismatch 0 two_submitted

drain_answers_example :
    ((run count_all no_mismatch 5 (drain two_queued)).phase ≡ exited)
    × (two_queued.accepted ≡ answered_tickets (run count_all no_mismatch 5 (drain two_queued)))
drain_answers_example =
    drain_answers count_all no_mismatch 0 5 two_submitted (unfold drain in (omega arith))

-- A wrong number of results poisons the object.
none_at_all : List (ℕ × Bool) → ℕ → Outcome (List BatchBookResult) × ℕ
none_at_all entries n = (ok [], n)

poisoned :
    (run none_at_all no_mismatch 3 two_queued).fatal_error
    ≡ some "AddBatch returned another number of results."
unfolding run writer_step none_at_all
poisoned = refl
