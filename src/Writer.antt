-- ===== src/Writer.antt =====
-- libs/Import/WriterDispatchingRepository.cpp and .hpp: the writer thread that batches the adds of
-- the import workers. The real repository is a parameter: its state `R` and its AddBatch, which may
-- throw. The mutex makes each block under the lock one step; a promise is known by its ticket.
-- NoteQueueDepth (a performance counter) and the log are left out.
pub mod Steps
pub mod Examples
use librova.Base.{Option, ℕ, List, String, Bool, map, none}

pub data BatchAddStatus : Type 0 where
  imported rejected_duplicate failed : BatchAddStatus

pub record BatchBookResult : Type 0 where
  pub status : BatchAddStatus
  pub book_id : Option ℕ
  pub conflicting_book_id : Option ℕ
  pub error : String

-- SWriteRequest, with the ticket of its promise.
pub record WriteRequest (B : Type 0) : Type 0 where
  pub ticket : ℕ
  pub book : B
  pub force_add : Bool

-- Where the writer thread stands: at the top of its loop, before AddBatch with a batch in hand, in
-- the handler of an exception after the promises of the batch are set, or returned.
pub data Phase (B : Type 0) : Type 0 where
  waiting : Phase B
  writing : List (WriteRequest B) → Phase B
  failing : String → Phase B
  exited : Phase B

-- `accepted` lists the tickets that Submit has given out, `answered` the promises that have been
-- set, both in order.
pub record Writer (R B : Type 0) : Type 0 where
  pub repository : R
  pub queue : List (WriteRequest B)
  pub stopped : Bool
  pub fatal_error : Option String
  pub phase : Phase B
  pub accepted : List ℕ
  pub answered : List (ℕ × BatchBookResult)

abbrev pub max_batch_size : ℕ
max_batch_size = 50

abbrev pub tickets : {B : Type 0} → List (WriteRequest B) → List ℕ
tickets = map (λ q. q.ticket)

-- SBatchBookResult failResult
abbrev pub fail_result : String → BatchBookResult
fail_result message = record {
  status = failed;
  book_id = none;
  conflicting_book_id = none;
  error = message;
}

-- The loops that set every promise of a batch to the same failure.
abbrev pub fail_all : {B : Type 0} → String → List (WriteRequest B) → List (ℕ × BatchBookResult)
fail_all message = map (λ q. (q.ticket, fail_result message))
