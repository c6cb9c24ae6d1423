-- ===== src/Facade/Run/Counting.antt =====
-- The counts of a whole import.
use mathlib.Core.List.{Permᴰ}
use librova.Base.{
  ℕ, Bool, String, List, true, false, [], ◌∷◌, ◌||◌, ◌&&◌, length, ◌≡◌, refl, sym, Bool-cases, inl,
  inr, All, ltb, not, subst, ◌-◌,
}
use librova.Base.Outcome.{Outcome, ok, err}
use librova.Importing.{SingleFileImportResult}
use librova.Facade.{ImportRequest, ZipEntryImportResult}
use librova.Facade.Tally.{note_events, note_tasks}
use librova.Facade.Tally.Entries.{IsNamed, IsNamedEntry}
use librova.Facade.Tally.Counted.{
  IsCounted, IsNamedTask, note_single_file-IsCounted, note_archive-IsCounted,
  note_archive_failure-IsCounted, note_tasks-IsCounted,
}
use librova.Facade.Run.{
  FacadeServices, RunState, PoolRun, Segment, archive, files, after_single_file,
  process_sequential_single_source, process_files, process_parallel_single_sources, report_events,
  after_pool, run_reserved, note_unsubmitted, next_round, is_batch,
}
use librova.Facade.Run.Whole.{
  after_archive, process_archive, process_segment, process_segment_files, process_sources,
  run_archive,
}

module _ {W : Type 0} (services : FacadeServices W) where
  -- What the importers promise: what they call imported has an id, and the tasks that ended are those
  -- that were submitted.
  pub record IsNaming : Type 0 where
    pub single_named :
        (request : _) (own : Bool) (w : W) (r : SingleFileImportResult)
        → (services.run_single_file request own w).0 ≡ ok r
        → IsNamed r
    pub zip_named :
        (request : _) (w : W) (entries : List ZipEntryImportResult)
        → (services.run_zip request w).0 ≡ ok entries
        → All IsNamedEntry entries
    pub pool_named :
        (requests : _) (w : W) → All IsNamedTask (services.run_pool requests w).0.submitted
    pub pool_same :
        (requests : _) (w : W)
        → Permᴰ (services.run_pool requests w).0.submitted (services.run_pool requests w).0.ended

  module _ (naming : IsNaming) where
    after_single_file-IsCounted :
        (o : Outcome SingleFileImportResult) (s : RunState W)
        → ((r : SingleFileImportResult) → o ≡ ok r → IsNamed r)
        → IsCounted s.tally
        → IsCounted (after_single_file services o s).1.tally
    after_single_file-IsCounted (ok r) s named h =
        note_single_file-IsCounted r s.tally (named r refl) h
    after_single_file-IsCounted (err message) s named h = h

    next_round-IsCounted :
        (stop : Bool) (stopped : RunState W) (this later : Outcome (Unit {0}) × RunState W)
        → IsCounted stopped.tally
        → IsCounted this.1.tally
        → IsCounted later.1.tally
        → IsCounted (next_round services stop stopped this later).1.tally
    next_round-IsCounted true stopped this later h h' h'' = h
    next_round-IsCounted false stopped (err message, s) later h h' h'' = h'
    next_round-IsCounted false stopped (ok _, s) later h h' h'' = h''

    process_sequential_single_source-IsCounted :
        (request : ImportRequest) (only : Bool) (path : String) (s : RunState W)
        → IsCounted s.tally
        → IsCounted (process_sequential_single_source services request only path s).1.tally
    unfolding process_sequential_single_source
    process_sequential_single_source-IsCounted request only path s h =
        after_single_file-IsCounted _ _ (naming.single_named _ _ s.world) h

    process_files-IsCounted :
        (request : ImportRequest) (only : Bool) (paths : List String) (s : RunState W)
        → IsCounted s.tally
        → IsCounted (process_files services request only paths s).1.tally
    unfolding process_files
    process_files-IsCounted request only [] s h = h
    process_files-IsCounted request only (path ∷ rest) s h =
        let polled = record s { world = (services.poll_cancellation s.world).1 } in
        let this = process_sequential_single_source-IsCounted request only path polled h in
        next_round-IsCounted (s.had_fatal_writer_error || (services.poll_cancellation s.world).0)
          polled _ _ h this (process_files-IsCounted request only rest _ this)

    report_events-note_events :
        (os : List (Outcome SingleFileImportResult)) (s : RunState W)
        → (report_events services os s).tally ≡ note_events os s.tally
    unfolding note_events
    report_events-note_events [] s = refl
    report_events-note_events (o ∷ rest) s = report_events-note_events rest _

    note_unsubmitted-IsCounted :
        (n : ℕ) (s : RunState W)
        → IsCounted s.tally
        → IsCounted (note_unsubmitted services n s).tally
    note_unsubmitted-IsCounted n s h = elim (Bool-cases (ltb 0 n)) [
      | inl e ↦ rw e h
      | inr e ↦ rw e h
    ]

    after_pool-IsCounted :
        (request : ImportRequest) (count : ℕ) (run : PoolRun) (s : RunState W)
        → All IsNamedTask run.submitted
        → Permᴰ run.submitted run.ended
        → IsCounted s.tally
        → IsCounted (after_pool services request count run s).tally
    after_pool-IsCounted request count run s named same h =
        note_unsubmitted-IsCounted (count - length run.submitted) _ (
          subst (λ t. IsCounted (record t { result = note_tasks run.submitted t.result }))
            (sym (report_events-note_events run.ended s))
            (note_tasks-IsCounted run.submitted run.ended s.tally same named h))

    run_reserved-IsCounted :
        (request : ImportRequest) (paths : List String) (o : Outcome (List ℕ)) (s : RunState W)
        → IsCounted s.tally
        → IsCounted (run_reserved services request paths o s).1.tally
    run_reserved-IsCounted request paths (err message) s h = h
    run_reserved-IsCounted request paths (ok ids) s h =
        after_pool-IsCounted request (length paths) _ _ (naming.pool_named _ s.world)
          (naming.pool_same _ s.world) h

    process_parallel_single_sources-IsCounted :
        (request : ImportRequest) (paths : List String) (s : RunState W)
        → IsCounted s.tally
        → IsCounted (process_parallel_single_sources services request paths s).1.tally
    unfolding process_parallel_single_sources
    process_parallel_single_sources-IsCounted request paths s h =
        run_reserved-IsCounted request paths _ _ h

    after_archive-IsCounted :
        (path : String) (count : ℕ) (o : Outcome (List ZipEntryImportResult)) (s : RunState W)
        → ((entries : List ZipEntryImportResult) → o ≡ ok entries → All IsNamedEntry entries)
        → IsCounted s.tally
        → IsCounted (after_archive services path count o s).1.tally
    unfolding after_archive
    after_archive-IsCounted path count (ok entries) s named h =
        note_archive-IsCounted entries s.tally (named entries refl) h
    after_archive-IsCounted path count (err message) s named h =
        elim (Bool-cases (is_batch services s.tally.result.summary.mode)) [
          | inl e ↦ rw e (note_archive_failure-IsCounted count _ s.tally h)
          | inr e ↦ rw e h
        ]

    run_archive_named :
        (path : String) (o : Outcome (List ℕ)) (w : W) (entries : List ZipEntryImportResult)
        → (run_archive services path o w).0 ≡ ok entries
        → All IsNamedEntry entries
    run_archive_named path (err message) w entries e = cc
    run_archive_named path (ok ids) w entries e = naming.zip_named _ w entries e

    process_archive-IsCounted :
        (workload : _) (path : String) (s : RunState W)
        → IsCounted s.tally
        → IsCounted (process_archive services workload path s).1.tally
    unfolding process_archive
    process_archive-IsCounted workload path s h =
        after_archive-IsCounted path _ _ _ (run_archive_named path _ _) h

    process_segment_files-IsCounted :
        (request : ImportRequest) (only : Bool) (paths : List String) (s : RunState W)
        → IsCounted s.tally
        → IsCounted (process_segment_files services request only paths s).1.tally
    unfolding process_segment_files
    process_segment_files-IsCounted request only paths s h =
        let (cancelled, w) = services.poll_cancellation s.world in
        elim (Bool-cases (
          is_batch services s.tally.result.summary.mode && ltb 1 (length paths) && not cancelled)) [
            | inl e ↦ rw e (process_parallel_single_sources-IsCounted request paths _ h)
            | inr e ↦ rw e (process_files-IsCounted request only paths _ h)
          ]

    process_segment-IsCounted :
        (request : ImportRequest) (only : Bool) (workload : _) (segment : Segment) (s : RunState W)
        → IsCounted s.tally
        → IsCounted (process_segment services request only workload segment s).1.tally
    unfolding process_segment
    process_segment-IsCounted request only workload (archive path) s h =
        process_archive-IsCounted workload path s h
    process_segment-IsCounted request only workload (files paths) s h =
        process_segment_files-IsCounted request only paths s h

    -- However the sources of an import turn out (imported, rejected, failed, cancelled, or ended by an
    -- exception), the entries counted as imported, failed or skipped add up to the entries processed,
    -- and there are as many imported ids as imported entries. Conditions: this held before; a result
    -- that says Imported names a book; and the tasks of the pool that ended are those that were
    -- submitted, in whatever order.
    pub process_sources-IsCounted :
        (request : ImportRequest) (only : Bool) (workload : _) (segments : List Segment)
        (s : RunState W)
        → IsCounted s.tally
        → IsCounted (process_sources services request only workload segments s).1.tally
    unfolding process_sources
    process_sources-IsCounted request only workload [] s h = h
    process_sources-IsCounted request only workload (segment ∷ rest) s h =
        let polled = record s { world = (services.poll_cancellation s.world).1 } in
        let this = process_segment-IsCounted request only workload segment polled h in
        next_round-IsCounted (s.had_fatal_writer_error || (services.poll_cancellation s.world).0)
          polled _ _ h this (process_sources-IsCounted request only workload rest _ this)
