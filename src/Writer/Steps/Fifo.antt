-- ===== src/Writer/Steps/Fifo.antt =====
-- Every accepted write is answered at most once, and in the order of submission.
use librova.Writer.Steps.{here, next}
use librova.Base.{
  [], ◌∷◌, none, ℕ, String, List, ◌≡◌, Bool, map, ◌++◌, length, ◌≤◌, take, ap, arith, ◌∙◌, drop,
  sym, suc, refl, append_assoc, zero, true, subst, false, if◌then◌else◌, map-append, take-drop,
  append-nil,
}
use librova.Writer.{
  Phase, Writer, WriteRequest, BatchBookResult, tickets, fail_all, writing, max_batch_size, exited,
  waiting, failing,
}
use librova.Writer.Steps.{
  answer, submit, drain, idle, take_batch, poison, fail_batch, writer_step, results_of, finish,
  write_batch, Step, Reach, submits, next, writes, stops,
}
use librova.Base.Outcome.{ok, Outcome, err}

-- The requests of the batch that the writer holds and has not answered.
abbrev pub in_hand : {B : Type 0} → Phase B → List (WriteRequest B)
in_hand (writing batch) = batch
in_hand _ = []

abbrev pub answered_tickets : {R B : Type 0} → Writer R B → List ℕ
answered_tickets w = map (λ a. a.0) w.answered

pub record Inv {R B : Type 0} (w : Writer R B) : Type 0 where
  pub fifo : w.accepted ≡ answered_tickets w ++ (tickets (in_hand w.phase) ++ tickets w.queue)
  pub bounded : length (in_hand w.phase) ≤ max_batch_size
  pub ended : w.phase ≡ exited → (w.stopped ≡ true) × (w.queue ≡ [])

module _ {B : Type 0} where
  tickets-take-drop :
      (n : ℕ) (qs : List (WriteRequest B)) → tickets (take n qs) ++ tickets (drop n qs) ≡ tickets qs
  tickets-take-drop n qs =
      sym (map-append (λ (q : WriteRequest B). q.ticket) (take n qs) (drop n qs))
      ∙ ap tickets (take-drop n qs)

  length-take-le : (n : ℕ) (qs : List (WriteRequest B)) → length (take n qs) ≤ n
  length-take-le zero qs = omega arith
  length-take-le (suc n) [] = omega arith
  length-take-le (suc n) (q ∷ qs) = omega (arith, length-take-le n qs)

  fail_all-tickets :
      (message : String) (qs : List (WriteRequest B))
      → map (λ a. a.0) (fail_all message qs) ≡ tickets qs
  fail_all-tickets message [] = refl
  fail_all-tickets message (q ∷ qs) = ap (◌∷◌ q.ticket) (fail_all-tickets message qs)

  answer-tickets :
      (qs : List (WriteRequest B)) (results : List BatchBookResult)
      → length results ≡ length qs
      → map (λ a. a.0) (answer qs results) ≡ tickets qs
  unfolding answer
  answer-tickets [] results h = refl
  answer-tickets (q ∷ qs) [] h = absurd (omega arith)
  answer-tickets (q ∷ qs) (r ∷ results) h =
      ap (◌∷◌ q.ticket) (answer-tickets qs results (omega arith))

module _ {R B : Type 0} where
  -- Setting the promises of the requests that stand next keeps the order.
  answered_next :
      (w : Writer R B) (more : List (ℕ × BatchBookResult)) (batch : List (WriteRequest B))
      → map (λ a. a.0) more ≡ tickets batch
      → w.accepted ≡ answered_tickets w ++ (tickets batch ++ tickets w.queue)
      → w.accepted ≡ map (λ a. a.0) (w.answered ++ more) ++ tickets w.queue
  answered_next w more batch e h =
      h
      ∙ sym (append_assoc (answered_tickets w) (tickets batch) (tickets w.queue))
      ∙ ap (λ t. t ++ tickets w.queue)
          (ap (◌++◌ (answered_tickets w)) (sym e)
            ∙ sym (map-append (λ (a : ℕ × BatchBookResult). a.0) w.answered more))

  -- The order, with the writer's place written out.
  pub fifo_at :
      (w : Writer R B) (p : Phase B)
      → w.phase ≡ p
      → Inv w
      → w.accepted ≡ answered_tickets w ++ (tickets (in_hand p) ++ tickets w.queue)
  fifo_at w p at v =
      subst (λ q. w.accepted ≡ answered_tickets w ++ (tickets (in_hand q) ++ tickets w.queue)) at
        v.fifo

  enqueue : B → Bool → Writer R B → Writer R B
  enqueue book force_add w = record w {
    queue =
        w.queue ++ (record { ticket = length w.accepted; book = book; force_add = force_add } ∷ []);
    accepted = w.accepted ++ (length w.accepted ∷ []);
  }

  submit-cases :
      (book : B) (force_add : Bool) (w : Writer R B) {w' : Writer R B}
      → submit book force_add w ≡ ok w'
      → (w.stopped ≡ false) × (enqueue book force_add w ≡ w')
  unfolding submit enqueue
  submit-cases book force_add w h = ground arith

  enqueue-Inv :
      (book : B) (force_add : Bool) (w : Writer R B)
      → w.stopped ≡ false
      → Inv w
      → Inv (enqueue book force_add w)
  unfolding enqueue
  enqueue-Inv book force_add w open_still v = record {
    fifo = ap (λ t. t ++ (length w.accepted ∷ [])) v.fifo ∙ simp (append_assoc, map-append);
    bounded = v.bounded;
    ended = λ e. cc (open_still, (v.ended e).0);
  }

  submit-Inv :
      (book : B) (force_add : Bool) (w : Writer R B) {w' : Writer R B}
      → Inv w
      → submit book force_add w ≡ ok w'
      → Inv w'
  submit-Inv book force_add w v h =
      let (open_still, is) = submit-cases book force_add w h in
      subst Inv is (enqueue-Inv book force_add w open_still v)

  pub drain-Inv : (w : Writer R B) → Inv w → Inv (drain w)
  unfolding drain
  drain-Inv w v = record { fifo = v.fifo; bounded = v.bounded; ended = λ e. (refl, (v.ended e).1) }

  exit-Inv :
      (w : Writer R B)
      → w.phase ≡ waiting
      → w.queue ≡ []
      → w.stopped ≡ true
      → Inv w
      → Inv (record w { phase = exited })
  exit-Inv w at empty stop v = record {
    fifo = fifo_at w waiting at v;
    bounded = omega arith;
    ended = λ _. (stop, empty);
  }

  idle-Inv : (w : Writer R B) → w.phase ≡ waiting → w.queue ≡ [] → Inv w → Inv (idle w)
  unfolding idle
  idle-Inv w at empty v = pick w.stopped refl
    where
      pick : (t : Bool) → w.stopped ≡ t → Inv (if t then record w { phase = exited } else w)
      pick true e = exit-Inv w at empty e v
      pick false e = v

  take_batch-Inv : (w : Writer R B) → w.phase ≡ waiting → Inv w → Inv (take_batch w)
  unfolding take_batch
  take_batch-Inv w at v = pick w.queue refl
    where
      pick :
          (qs : List (WriteRequest B))
          → w.queue ≡ qs
          → Inv (elim qs [
            | [] ↦ idle w
            | q ∷ rest ↦ record w {
              phase = writing (take max_batch_size (q ∷ rest));
              queue = drop max_batch_size (q ∷ rest);
            }
          ])
      pick [] e = idle-Inv w at e v
      pick (q ∷ rest) e = record {
        fifo =
            fifo_at w waiting at v
            ∙ ap (λ t. answered_tickets w ++ t)
                (ap tickets e ∙ sym (tickets-take-drop max_batch_size (q ∷ rest)));
        bounded = length-take-le max_batch_size (q ∷ rest);
        ended = λ p. cc p;
      }

  poison-Inv :
      (message : String) (w : Writer R B)
      → w.phase ≡ failing message
      → Inv w
      → Inv (poison message w)
  unfolding poison
  poison-Inv message w at v = record {
    fifo =
        fifo_at w (failing message) at v
        ∙ ap (λ t. answered_tickets w ++ t) (sym (fail_all-tickets message w.queue))
        ∙ sym (map-append (λ (a : ℕ × BatchBookResult). a.0) w.answered (fail_all message w.queue))
        ∙ sym (append-nil (map (λ a. a.0) (w.answered ++ fail_all message w.queue)));
    bounded = omega arith;
    ended = λ _. (refl, refl);
  }

  fail_batch-Inv :
      (message : String) (batch : List (WriteRequest B)) (w : Writer R B)
      → w.phase ≡ writing batch
      → Inv w
      → Inv (fail_batch message batch w)
  unfolding fail_batch
  fail_batch-Inv message batch w at v = record {
    fifo =
        answered_next w (fail_all message batch) batch (fail_all-tickets message batch)
          (fifo_at w (writing batch) at v);
    bounded = omega arith;
    ended = λ e. cc e;
  }

  answer-Inv :
      (batch : List (WriteRequest B)) (results : List BatchBookResult) (w : Writer R B)
      → w.phase ≡ writing batch
      → length results ≡ length batch
      → Inv w
      → Inv (record w { answered = w.answered ++ answer batch results; phase = waiting })
  answer-Inv batch results w at size v = record {
    fifo =
        answered_next w (answer batch results) batch (answer-tickets batch results size)
          (fifo_at w (writing batch) at v);
    bounded = omega arith;
    ended = λ e. cc e;
  }

module _ {R B : Type 0} (add_batch : List (B × Bool) → R → Outcome (List BatchBookResult) × R)
    (mismatch : ℕ → ℕ → String) where
  results_of-length :
      (batch : List (WriteRequest B)) (o : Outcome (List BatchBookResult))
      {results : List BatchBookResult}
      → results_of add_batch mismatch batch o ≡ ok results
      → length results ≡ length batch
  unfolding results_of
  results_of-length batch (ok results) h = ground arith
  results_of-length batch (err message) h = cc

  finish-Inv :
      (batch : List (WriteRequest B)) (o : Outcome (List BatchBookResult)) (w : Writer R B)
      → w.phase ≡ writing batch
      → Inv w
      → Inv (finish add_batch mismatch batch (results_of add_batch mismatch batch o) w)
  finish-Inv batch o w at v = pick (results_of add_batch mismatch batch o) refl
    where
      pick :
          (r : Outcome (List BatchBookResult))
          → results_of add_batch mismatch batch o ≡ r
          → Inv (finish add_batch mismatch batch r w)
      pick (ok results) e =
          unfold finish in (answer-Inv batch results w at (results_of-length batch o e) v)
      pick (err message) e = unfold finish in (fail_batch-Inv message batch w at v)

  write_batch-Inv :
      (batch : List (WriteRequest B)) (w : Writer R B)
      → w.phase ≡ writing batch
      → Inv w
      → Inv (write_batch add_batch mismatch batch w)
  unfolding write_batch
  write_batch-Inv batch w at v =
      let done = add_batch (map (λ q. (q.book, q.force_add)) batch) w.repository in
      finish-Inv batch done.0 (record w { repository = done.1 }) at
        (record { fifo = v.fifo; bounded = v.bounded; ended = v.ended })

  pub writer_step-Inv : (w : Writer R B) → Inv w → Inv (writer_step add_batch mismatch w)
  unfolding writer_step
  writer_step-Inv w v = pick w.phase refl
    where
      pick :
          (p : Phase B)
          → w.phase ≡ p
          → Inv (elim p [
            | waiting ↦ take_batch w
            | writing batch ↦ write_batch add_batch mismatch batch w
            | failing message ↦ poison message w
            | exited ↦ w
          ])
      pick waiting e = take_batch-Inv w e v
      pick (writing batch) e = write_batch-Inv batch w e v
      pick (failing message) e = poison-Inv message w e v
      pick exited e = v

  -- The state in which the constructor leaves the object.
  unfoldable pub new_writer : R → Writer R B
  new_writer repository = record {
    repository = repository;
    queue = [];
    stopped = false;
    fatal_error = none;
    phase = waiting;
    accepted = [];
    answered = [];
  }

  new_writer-Inv : (repository : R) → Inv (new_writer repository)
  unfolding new_writer
  new_writer-Inv repository = record { fifo = refl; bounded = omega arith; ended = λ e. cc e }

  pub Step-Inv : {w u : Writer R B} → Step add_batch mismatch w u → Inv w → Inv u
  Step-Inv (submits book force_add h) v = submit-Inv book force_add _ v h
  Step-Inv (writes h) v = subst Inv h (writer_step-Inv _ v)
  Step-Inv (stops h) v = subst Inv h (drain-Inv _ v)

  pub Reach-Inv : {w u : Writer R B} → Inv w → Reach add_batch mismatch w u → Inv u
  Reach-Inv v here = v
  Reach-Inv v (next r s) = Step-Inv s (Reach-Inv v r)

  -- However the threads interleave from a new object on, and whatever AddBatch does: the tickets
  -- given out are, in order, those answered, those of the batch in hand and those of the queue; the
  -- batch in hand has 50 requests at most; and once the writer thread has returned, the object
  -- takes no more writes and its queue is empty.
  pub new_writer-Reach-Inv :
      (repository : R) {w : Writer R B} → Reach add_batch mismatch (new_writer repository) w → Inv w
  new_writer-Reach-Inv repository r = Reach-Inv (new_writer-Inv repository) r
