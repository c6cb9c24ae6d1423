-- ===== src/Writer/Steps/Draining.antt =====
-- After Drain the writer thread returns, and every write that was accepted has been answered.
use librova.Writer.Steps.Fifo.{
  Inv, writer_step-Inv, answered_tickets, fifo_at, new_writer, new_writer-Reach-Inv, drain-Inv,
}
use librova.Base.{
  List, Bool, ℕ, String, ◌≡◌, suc, ◌*◌, true, length, ◌≤◌, zero, ◌+◌, [], arith, refl, ◌∷◌, take,
  drop, length-drop, ap, inl, ◌∙◌, inr, subst, ◌++◌, sym, append-nil, map, ◌⊎◌,
}
use librova.Base.Outcome.{Outcome, ok, err}
use librova.Writer.{
  BatchBookResult, Writer, waiting, writing, failing, exited, WriteRequest, max_batch_size, tickets,
  Phase,
}
use librova.Writer.Steps.{
  writer_step, take_batch, finish, idle, fail_batch, drain, Reach, write_batch, poison, results_of,
}

module _ {R B : Type 0} (add_batch : List (B × Bool) → R → Outcome (List BatchBookResult) × R)
    (mismatch : ℕ → ℕ → String) where
  -- The writer thread alone.
  unfoldable pub run : ℕ → Writer R B → Writer R B
  run zero w = w
  run (suc n) w = run n (writer_step add_batch mismatch w)

  -- A bound on the steps that a stopped writer still takes.
  abbrev pub steps_left : Writer R B → ℕ
  steps_left w = elim w.phase [
    | waiting ↦ 2 * length w.queue + 1
    | writing batch ↦ 2 * length w.queue + 2
    | failing message ↦ 1
    | exited ↦ 0
  ]

  abbrev Falls : Writer R B → Writer R B → Type 0
  Falls w u = (u.stopped ≡ true) × (u.accepted ≡ w.accepted) × (suc (steps_left u) ≤ steps_left w)

  take_batch-Falls :
      (w : Writer R B) → w.phase ≡ waiting → w.stopped ≡ true → Falls w (take_batch w)
  unfolding take_batch idle
  take_batch-Falls w at stop = pick w.queue refl
    where
      pick :
          (qs : List (WriteRequest B))
          → w.queue ≡ qs
          → Falls w (elim qs [
            | [] ↦ idle w
            | q ∷ rest ↦ record w {
              phase = writing (take max_batch_size (q ∷ rest));
              queue = drop max_batch_size (q ∷ rest);
            }
          ])
      pick [] e = rw (stop, at, e) (refl, refl, omega arith)
      pick (q ∷ rest) e = (stop, refl, rw (at, e) (omega (arith, length-drop 49 rest)))

  finish-Falls :
      (batch : List (WriteRequest B)) (o : Outcome (List BatchBookResult)) (w : Writer R B)
      → w.phase ≡ writing batch
      → w.stopped ≡ true
      → Falls w (finish add_batch mismatch batch o w)
  unfolding finish fail_batch
  finish-Falls batch (ok results) w at stop = (stop, refl, rw at (omega arith))
  finish-Falls batch (err message) w at stop = (stop, refl, rw at (omega arith))

  write_batch-Falls :
      (batch : List (WriteRequest B)) (w : Writer R B)
      → w.phase ≡ writing batch
      → w.stopped ≡ true
      → Falls w (write_batch add_batch mismatch batch w)
  unfolding write_batch
  write_batch-Falls batch w at stop =
      let done = add_batch (map (λ q. (q.book, q.force_add)) batch) w.repository in
      finish-Falls batch (results_of add_batch mismatch batch done.0)
        (record w { repository = done.1 }) at stop

  writer_step-Falls :
      (w : Writer R B)
      → w.stopped ≡ true
      → (w.phase ≡ exited) ⊎ Falls w (writer_step add_batch mismatch w)
  unfolding writer_step poison
  writer_step-Falls w stop = pick w.phase refl
    where
      pick :
          (p : Phase B)
          → w.phase ≡ p
          → (w.phase ≡ exited)
            ⊎ Falls w (elim p [
              | waiting ↦ take_batch w
              | writing batch ↦ write_batch add_batch mismatch batch w
              | failing message ↦ poison message w
              | exited ↦ w
            ])
      pick waiting e = inr (take_batch-Falls w e stop)
      pick (writing batch) e = inr (write_batch-Falls batch w e stop)
      pick (failing message) e = inr (refl, refl, rw e (omega arith))
      pick exited e = inl e

  run_exited : (n : ℕ) (w : Writer R B) → w.phase ≡ exited → run n w ≡ w
  unfolding run
  run_exited zero w e = refl
  run_exited (suc n) w e = ap (run n) (stays w e) ∙ run_exited n w e
    where
      stays : (u : Writer R B) → u.phase ≡ exited → writer_step add_batch mismatch u ≡ u
      stays u e = unfold writer_step in rw e

  -- A stopped writer returns within its bound, and takes no write on.
  run_stopped :
      (n : ℕ) (w : Writer R B)
      → w.stopped ≡ true
      → steps_left w ≤ n
      → ((run n w).phase ≡ exited) × ((run n w).accepted ≡ w.accepted)
  unfolding run
  run_stopped zero w stop h = elim (writer_step-Falls w stop) [
    | inl e ↦ (e, refl)
    | inr (_, _, falls) ↦ absurd (omega (arith, falls))
  ]
  run_stopped (suc n) w stop h = elim (writer_step-Falls w stop) [
    | inl e ↦
        subst (λ u. (u.phase ≡ exited) × (u.accepted ≡ w.accepted)) (sym (run_exited (suc n) w e))
          (e, refl)
    | inr (stop', same, falls) ↦
        let (ends, keeps) =
          run_stopped n (writer_step add_batch mismatch w) stop' (omega (arith, falls)) in
        (ends, keeps ∙ same)
  ]

  run-Inv : (n : ℕ) (w : Writer R B) → Inv w → Inv (run n w)
  unfolding run
  run-Inv zero w v = v
  run-Inv (suc n) w v = run-Inv n _ (writer_step-Inv add_batch mismatch w v)

  answered_when_exited :
      (w : Writer R B) → Inv w → w.phase ≡ exited → w.accepted ≡ answered_tickets w
  answered_when_exited w v e =
      fifo_at w exited e v
      ∙ ap (λ qs. answered_tickets w ++ tickets qs) (v.ended e).1
      ∙ append-nil (answered_tickets w)

  -- After Drain in any state that a new object can reach, the writer thread returns within
  -- `steps_left` of its steps (at most twice the length of the queue and two more), and by then the
  -- promise of every accepted write has been set, once each and in the order of submission.
  pub drain_answers :
      (repository : R) {w : Writer R B} (n : ℕ)
      → Reach add_batch mismatch (new_writer add_batch mismatch repository) w
      → steps_left (drain w) ≤ n
      → ((run n (drain w)).phase ≡ exited) × (w.accepted ≡ answered_tickets (run n (drain w)))
  unfolding drain
  drain_answers repository {w} n r h =
      let stopped = record w { stopped = true } in
      let v = new_writer-Reach-Inv add_batch mismatch repository r in
      let (ends, keeps) = run_stopped n stopped refl h in
      (
        ends,
        sym keeps ∙ answered_when_exited (run n stopped) (run-Inv n stopped (drain-Inv w v)) ends,
      )
