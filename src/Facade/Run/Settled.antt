-- ===== src/Facade/Run/Settled.antt =====
-- The result that a whole import returns.
use librova.Base.{
  ℕ, Bool, String, List, true, false, [], ◌∷◌, ◌||◌, length, ◌≡◌, ◌⊎◌, refl, sym, ap, ◌∙◌, inl, inr,
  Bool-cases, subst,
}
use librova.Base.Outcome.{Outcome, ok, err, ok-injective}
use librova.Facade.{ImportRequest, ImportResult, is_valid_import_request}
use librova.Rollback.{RollbackResult}
use librova.Facade.Tally.{merge_warnings}
use librova.Planning.{PreparedImportWorkload}
use librova.Facade.Tally.Counted.{IsCounted}
use librova.Facade.Run.{FacadeServices, RunState, segments, note_fatal, with_tally}
use librova.Facade.Run.Whole.{
  process_sources, finish_import, settle, roll_back, run_prepared, run_expanded, run_import,
  finish_sources, first_tally, has_one,
}
use librova.Facade.Run.Counting.{IsNaming, process_sources-IsCounted}

module _ {W : Type 0} (services : FacadeServices W) where
  -- As many ids as imported entries.
  abbrev pub HasIds : ImportResult → Type 0
  HasIds r = length r.imported_book_ids ≡ r.summary.imported_entries

  -- The locals of Run before the loop.
  abbrev pub loop_start :
      ImportRequest → List String → List String → PreparedImportWorkload String → W → RunState W
  loop_start request candidates warnings workload w =
      let t = first_tally services request candidates warnings workload w in
      with_tally services t (record { world = w; tally = t; had_fatal_writer_error = false })

  -- `s` is what the loop over the sources of this request ends with.
  abbrev pub IsFinished : ImportRequest → W → RunState W → Type 0
  IsFinished request w s =
      (candidates : List String) × (warnings : List String) × (workload : PreparedImportWorkload
        String)
      × (w' : W) × (services.expand request.source_paths w ≡ ok (candidates, warnings))
      × (services.prepare_workload candidates w ≡ (ok workload, w'))
      × (process_sources services request (has_one services candidates) workload
            (segments services candidates) (loop_start request candidates warnings workload w')
          ≡ (ok tt, s))

  -- The rollback of all books that were imported up to `s`, after the writer is drained.
  abbrev pub rollback_of : RunState W → RollbackResult × W
  rollback_of s =
      let ids = s.tally.result.imported_book_ids in
      services.rollback_imported_books ids (
        services.begin_rollback (length ids)
          (services.poll_cancellation (services.drain s.world)).1)

  -- Nothing was imported, or only what the rollback of all imported books could not remove is left.
  abbrev pub IsRolledBack : RunState W → ImportResult → Type 0
  IsRolledBack s r =
      ((s.tally.result.imported_book_ids ≡ []) × (r.imported_book_ids ≡ []))
      ⊎ ((r.imported_book_ids ≡ (rollback_of s).0.remaining_book_ids)
          × (r.has_rollback_cleanup_residue ≡ (rollback_of s).0.has_cleanup_residue))

  -- The books that the loop of this request imported are rolled back.
  abbrev pub IsUndone : ImportRequest → W → ImportResult → Type 0
  IsUndone request w r = (s : RunState W) × IsFinished request w s × IsRolledBack s r

  settle-HasIds :
      (undo : Bool) (ids : List ℕ) (r : ImportResult) (w : W)
      → HasIds r
      → HasIds (settle services undo ids r w).0
  unfolding roll_back merge_warnings
  settle-HasIds undo [] r w h = h
  settle-HasIds true (id ∷ ids) r w h = refl
  settle-HasIds false (id ∷ ids) r w h = h

  pub settle_cancelled :
      (undo : Bool) (ids : List ℕ) (r : ImportResult) (w : W)
      → (settle services undo ids r w).0.was_cancelled ≡ r.was_cancelled
  unfolding roll_back merge_warnings
  settle_cancelled undo [] r w = refl
  settle_cancelled true (id ∷ ids) r w = refl
  settle_cancelled false (id ∷ ids) r w = refl

  settle-IsRolledBack :
      (undo : Bool) (s : RunState W) (ids : List ℕ) (r : ImportResult)
      → r.imported_book_ids ≡ s.tally.result.imported_book_ids
      → r.imported_book_ids ≡ ids
      → undo ≡ true
      → IsRolledBack s
          (settle services undo ids r (services.poll_cancellation (services.drain s.world)).1).0
  unfolding roll_back merge_warnings
  settle-IsRolledBack undo s [] r same listed e = inl (sym same ∙ listed, listed)
  settle-IsRolledBack true s (id ∷ ids) r same listed e =
      let rolled : List ℕ → RollbackResult = λ ids.
        (services.rollback_imported_books ids (
          services.begin_rollback (length ids)
            (services.poll_cancellation (services.drain s.world)).1)).0 in
      inr (
        ap (λ ids. (rolled ids).remaining_book_ids) same,
        ap (λ ids. (rolled ids).has_cleanup_residue) same,
      )
  settle-IsRolledBack false s (id ∷ ids) r same listed e = cc

  finish_import-IsRolledBack :
      (request : ImportRequest) (s : RunState W)
      → (finish_import services request s).0.was_cancelled ≡ true
      → IsRolledBack s (finish_import services request s).0
  unfolding finish_import
  finish_import-IsRolledBack request s e =
      let drained = note_fatal services (record s { world = services.drain s.world }) in
      let (polled, w) = services.poll_cancellation drained.world in
      let r = drained.tally.result in
      let undo = (r.was_cancelled || polled) || drained.had_fatal_writer_error in
      let cancelled = record r { was_cancelled = r.was_cancelled || polled } in
      settle-IsRolledBack undo s r.imported_book_ids cancelled refl refl (
        ap (λ c. c || drained.had_fatal_writer_error)
          (sym (settle_cancelled undo r.imported_book_ids cancelled w) ∙ e))

  finish_import-HasIds :
      (request : ImportRequest) (s : RunState W)
      → IsCounted s.tally
      → HasIds (finish_import services request s).0
  unfolding finish_import
  finish_import-HasIds request s h = settle-HasIds _ s.tally.result.imported_book_ids _ _ h.1

  finish_sources-eq-ok :
      (request : ImportRequest) (x : Outcome (Unit {0}) × RunState W) (r : ImportResult)
      → (finish_sources services request x).0 ≡ ok r
      → (s : RunState W) × (x ≡ (ok tt, s))
        × ((finish_import services request s).0 ≡ r)
        × ((finish_import services request s).1 ≡ (finish_sources services request x).1)
  finish_sources-eq-ok request (err message, s) r e = cc
  finish_sources-eq-ok request (ok tt, s) r e = (s, refl, ok-injective e, refl)

  -- A state in which the loop of the request ends, and what Run makes of it.
  abbrev pub Returns : ImportRequest → W → ImportResult → W → Type 0
  Returns request w r w' =
      (s : RunState W) × IsFinished request w s
      × ((finish_import services request s).0 ≡ r)
      × ((finish_import services request s).1 ≡ w')

  run_prepared-Returns :
      (request : ImportRequest) (candidates warnings : List String)
      (o : Outcome (PreparedImportWorkload String)) (w w' : W) (r : ImportResult)
      → services.expand request.source_paths w ≡ ok (candidates, warnings)
      → services.prepare_workload candidates w ≡ (o, w')
      → (run_prepared services request candidates warnings o w').0 ≡ ok r
      → Returns request w r (run_prepared services request candidates warnings o w').1
  unfolding run_prepared
  run_prepared-Returns request candidates warnings (err message) w w' r found planned e = cc
  run_prepared-Returns request candidates warnings (ok workload) w w' r found planned e =
      let (s, ended, finished, left) = finish_sources-eq-ok request _ r e in
      (s, (candidates, warnings, workload, w', found, planned, ended), finished, left)

  run_expanded-Returns :
      (request : ImportRequest) (o : Outcome (List String × List String)) (w : W) (r : ImportResult)
      → services.expand request.source_paths w ≡ o
      → (run_expanded services request o w).0 ≡ ok r
      → Returns request w r (run_expanded services request o w).1
  run_expanded-Returns request (err message) w r found e = cc
  run_expanded-Returns request (ok (candidates, warnings)) w r found e =
      run_prepared-Returns request candidates warnings _ w _ r found refl e

  pub run_import-Returns :
      (request : ImportRequest) (w : W) (r : ImportResult)
      → (run_import services request w).0 ≡ ok r
      → Returns request w r (run_import services request w).1
  unfolding run_import
  run_import-Returns request w r = elim (Bool-cases (is_valid_import_request request)) [
    | inl e ↦ rw e (run_expanded-Returns request (services.expand request.source_paths w) w r refl)
    | inr e ↦ rw e (λ e'. cc)
  ]

  finished-IsCounted :
      IsNaming services
      → (request : ImportRequest) (w : W) (s : RunState W) → IsFinished request w s
      → IsCounted s.tally
  finished-IsCounted naming request w s
        (candidates, warnings, workload, w', found, planned, ended) =
      subst (λ (x : Outcome (Unit {0}) × RunState W). IsCounted x.1.tally) ended
        (process_sources-IsCounted services naming request (has_one services candidates) workload
          (segments services candidates) (loop_start request candidates warnings workload w')
          (refl, refl))

  -- Every result of an import has as many ids of imported books as it counts imported entries, also
  -- after a rollback. Condition: the importers name the books that they import.
  pub run_import-HasIds :
      (request : ImportRequest) (w : W) (r : ImportResult)
      → IsNaming services
      → (run_import services request w).0 ≡ ok r
      → HasIds r
  run_import-HasIds request w r naming e =
      let (s, finished, made, _) = run_import-Returns request w r e in
      subst HasIds made
        (finish_import-HasIds request s (finished-IsCounted naming request w s finished))

  -- After a cancelled import the result lists no books but those that the rollback could not remove,
  -- of all the books that the loop over the sources of this request had imported, and it reports the
  -- residue of that rollback; if the loop had imported none, it lists none. Condition: the result is
  -- that of a run that returned.
  pub run_import-IsUndone :
      (request : ImportRequest) (w : W) (r : ImportResult)
      → (run_import services request w).0 ≡ ok r
      → r.was_cancelled ≡ true
      → IsUndone request w r
  run_import-IsUndone request w r e c =
      let (s, finished, made, _) = run_import-Returns request w r e in
      (
        s,
        finished,
        subst (IsRolledBack s) made (
            finish_import-IsRolledBack request s
              (ap (λ (r : ImportResult). r.was_cancelled) made ∙ c)),
      )
