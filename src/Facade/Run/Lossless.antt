-- ===== src/Facade/Run/Lossless.antt =====
-- The books in the catalog after a cancelled import.
use librova.Base.{
  ℕ, Bool, String, List, true, false, [], ◌∷◌, ◌||◌, ◌≡◌, refl, sym, ap, ◌∙◌, inl, inr, Bool-cases,
  subst, true≢false,
}
use librova.Base.Outcome.{ok}
use librova.Rollback.{contains}
use librova.Facade.{ImportRequest, ImportResult}
use librova.Facade.Tally.{merge_warnings}
use librova.Facade.Run.{FacadeServices, RunState, note_fatal}
use librova.Facade.Run.Whole.{finish_import, settle, roll_back, run_import}
use librova.Facade.Run.Settled.{IsFinished, run_import-Returns, settle_cancelled}

module _ {W : Type 0} (services : FacadeServices W) (present : ℕ → W → Bool) where
  -- What the rest of Run does to the books in the catalog, after the loop. The first law is what
  -- the rollback service guarantees.
  pub record IsLawful : Type 0 where
    pub rollback_lossless :
        (ids : List ℕ) (w : W) (x : ℕ)
        → contains x ids ≡ true
        → present x (services.rollback_imported_books ids w).1 ≡ true
        → contains x (services.rollback_imported_books ids w).0.remaining_book_ids ≡ true
    pub compact_adds_none :
        (x : ℕ) (w : W)
        → present x w ≡ false
        → present x (services.compact (services.begin_compacting w)) ≡ false
    pub cleanup_adds_none :
        (directory : String) (x : ℕ) (w : W)
        → present x w ≡ false
        → present x (services.cleanup_working_directory directory w) ≡ false

  -- The imported books that are in the catalog are listed.
  abbrev pub AreListed : List ℕ → ImportResult → W → Type 0
  AreListed ids r w =
      (x : ℕ) → contains x ids ≡ true → present x w ≡ true → contains x r.imported_book_ids ≡ true

  was_present :
      (x : ℕ) (w after : W)
      → (present x w ≡ false → present x after ≡ false)
      → present x after ≡ true
      → present x w ≡ true
  was_present x w after adds_none there = elim (Bool-cases (present x w)) [
    | inl e ↦ e
    | inr e ↦ absurd (true≢false (sym there ∙ adds_none e))
  ]

  module _ (lawful : IsLawful) where
    settle-AreListed :
        (undo : Bool) (ids : List ℕ) (r : ImportResult) (w : W)
        → r.imported_book_ids ≡ ids
        → undo ≡ true
        → AreListed r.imported_book_ids
            (settle services undo ids r w).0
            (settle services undo ids r w).1
    unfolding roll_back merge_warnings
    settle-AreListed undo [] r w same e x listed there = listed
    settle-AreListed true (id ∷ ids) r w same e x listed there =
        lawful.rollback_lossless r.imported_book_ids _ x listed
          (was_present x _ _ (lawful.compact_adds_none x _) there)
    settle-AreListed false (id ∷ ids) r w same e x listed there = cc

    finish_import-AreListed :
        (request : ImportRequest) (s : RunState W)
        → (finish_import services request s).0.was_cancelled ≡ true
        → AreListed s.tally.result.imported_book_ids
            (finish_import services request s).0
            (finish_import services request s).1
    unfolding finish_import
    finish_import-AreListed request s e x listed there =
        let drained = note_fatal services (record s { world = services.drain s.world }) in
        let (polled, w) = services.poll_cancellation drained.world in
        let r = drained.tally.result in
        let undo = (r.was_cancelled || polled) || drained.had_fatal_writer_error in
        let cancelled = record r { was_cancelled = r.was_cancelled || polled } in
        settle-AreListed undo r.imported_book_ids cancelled w refl
          (ap (λ c. c || drained.had_fatal_writer_error)
            (sym (settle_cancelled services undo r.imported_book_ids cancelled w) ∙ e))
          x listed
          (was_present x _ _ (lawful.cleanup_adds_none request.working_directory x _) there)

  -- After a cancelled import no imported book stays in the catalog unnoticed: a book that the loop over
  -- the sources imported, and that is in the catalog when Run returns, is listed in the result.
  -- Conditions: the import returned, and says that it was cancelled; the rollback loses no book, as the
  -- rollback service guarantees, and compacting the database and cleaning up add no book.
  pub run_import_lossless :
      (request : ImportRequest) (w : W) (r : ImportResult)
      → IsLawful
      → (run_import services request w).0 ≡ ok r
      → r.was_cancelled ≡ true
      → (s : RunState W) × IsFinished services request w s
        × AreListed s.tally.result.imported_book_ids r (run_import services request w).1
  run_import_lossless request w r lawful e c =
      let (s, finished, made, left) = run_import-Returns services request w r e in
      (
        s,
        finished,
        λ x listed there.
            subst (λ (r : ImportResult). contains x r.imported_book_ids ≡ true) made
              (finish_import-AreListed lawful request s
                (ap (λ (r : ImportResult). r.was_cancelled) made ∙ c) x listed
                (ap (present x) left ∙ there)),
      )
