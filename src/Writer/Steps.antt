-- ===== src/Writer/Steps.antt =====
-- Submit, WriterLoop, Drain, Add and ForceAdd, and the interleavings of the threads.
pub mod Fifo
pub mod Draining
use librova.Base.{
  List, Option, String, Bool, ℕ, if◌then◌else◌, true, some, ◌==◌, ◌++◌, map, ◌≡◌, length, ◌∷◌, [],
  take, none, drop, str_eq, concat,
}
use librova.Writer.{
  BatchBookResult, Writer, WriteRequest, exited, fail_all, waiting, failing, writing,
  max_batch_size, imported, rejected_duplicate, failed,
}
use librova.Base.Outcome.{Outcome, err, ok, ◌>>=◌}

-- The loop that sets the promises of a batch in order, each to its own result.
unfoldable pub answer :
    {B : Type 0} → List (WriteRequest B) → List BatchBookResult → List (ℕ × BatchBookResult)
answer [] results = []
answer (q ∷ batch) [] = []
answer (q ∷ batch) (result ∷ results) = (q.ticket, result) ∷ answer batch results

-- What Add makes of the result of its future. `Exception.duplicate` is CDuplicateHashException.
pub data AddOutcome : Type 0 where
  added : Option ℕ → AddOutcome
  duplicate : ℕ → AddOutcome
  runtime_error : String → AddOutcome

abbrev or_default : String → String → String
or_default message fallback = if str_eq message "" then fallback else message

unfoldable pub add_outcome : BatchBookResult → AddOutcome
add_outcome result = elim result.status [
  | imported ↦ added result.book_id
  | rejected_duplicate ↦ duplicate (elim result.conflicting_book_id [ none ↦ 0 | some id ↦ id ])
  | failed ↦ runtime_error (or_default result.error "Batch writer failed to add book")
]

unfoldable pub force_add_outcome : BatchBookResult → AddOutcome
force_add_outcome result = elim result.status [
  | imported ↦ added result.book_id
  | _ ↦ runtime_error (or_default result.error "Batch writer failed to force-add book")
]

module _ {R B : Type 0} where
  unfoldable pub submit : B → Bool → Writer R B → Outcome (Writer R B)
  submit book force_add w = elim w.fatal_error [
    | some message ↦ err (concat "WriterDispatchingRepository is in fatal state: " message)
    | none ↦
        if w.stopped
        then err "WriterDispatchingRepository is stopped — cannot accept new writes"
        else let ticket = length w.accepted in
          ok (record w {
            queue =
                w.queue ++ (record { ticket = ticket; book = book; force_add = force_add } ∷ []);
            accepted = w.accepted ++ (ticket ∷ []);
          })
  ]

  -- The part of Drain before it joins the writer thread.
  unfoldable pub drain : Writer R B → Writer R B
  drain w = record w { stopped = true }

  -- `batch` is empty: return if stopped, else go round.
  idle : Writer R B → Writer R B
  idle w = if w.stopped then record w { phase = exited } else w

  -- The block under the lock: up to 50 requests move from the queue into the batch.
  take_batch : Writer R B → Writer R B
  unfolding idle
  take_batch w = elim w.queue [
    | [] ↦ idle w
    | q ∷ rest ↦ record w {
      phase = writing (take max_batch_size (q ∷ rest));
      queue = drop max_batch_size (q ∷ rest);
    }
  ]

  -- The exception handler: first the promises of the batch, then, under the lock, the fatal state
  -- and the promises of the queue that it takes away.
  fail_batch : String → List (WriteRequest B) → Writer R B → Writer R B
  fail_batch message batch w = record w {
    answered = w.answered ++ fail_all message batch;
    phase = failing message;
  }

  -- The end of the exception handler. The source takes the queue under the lock and answers it after
  -- the lock is released; nobody else reaches the taken queue, so that both are one step here.
  poison : String → Writer R B → Writer R B
  poison message w = record w {
    fatal_error = some message;
    stopped = true;
    answered = w.answered ++ fail_all message w.queue;
    queue = [];
    phase = exited;
  }

-- AddBatch of the real repository, and the text of the error about a wrong number of results.
module _ {R B : Type 0} (add_batch : List (B × Bool) → R → Outcome (List BatchBookResult) × R)
    (mismatch : ℕ → ℕ → String) where
  results_of :
      List (WriteRequest B) → Outcome (List BatchBookResult) → Outcome (List BatchBookResult)
  results_of batch outcome = do
    results ← outcome
    if length results == length batch
        then ok results
        else err (mismatch (length results) (length batch))

  finish : List (WriteRequest B) → Outcome (List BatchBookResult) → Writer R B → Writer R B
  unfolding fail_batch answer
  finish batch (ok results) w = record w {
    answered = w.answered ++ answer batch results;
    phase = waiting;
  }
  finish batch (err message) w = fail_batch message batch w

  write_batch : List (WriteRequest B) → Writer R B → Writer R B
  unfolding results_of finish
  write_batch batch w =
      let (outcome, repository) = add_batch (map (λ q. (q.book, q.force_add)) batch) w.repository in
      finish batch (results_of batch outcome) (record w { repository = repository })

  -- One step of the writer thread.
  unfoldable pub writer_step : Writer R B → Writer R B
  unfolding take_batch write_batch poison
  writer_step w = elim w.phase [
    | waiting ↦ take_batch w
    | writing batch ↦ write_batch batch w
    | failing message ↦ poison message w
    | exited ↦ w
  ]

  -- The threads: workers submit, the writer takes its steps, and Drain may stop it at any time.
  pub data Step (w : Writer R B) : Writer R B → Type 0 where
    submits :
        {w' : Writer R B} (book : B) (force_add : Bool)
        → submit book force_add w ≡ ok w'
        → Step w w'
    writes : {w' : Writer R B} → writer_step w ≡ w' → Step w w'
    stops : {w' : Writer R B} → drain w ≡ w' → Step w w'

  pub data Reach (w : Writer R B) : Writer R B → Type 0 where
    here : Reach w w
    next : {u v : Writer R B} → Reach w u → Step u v → Reach w v
