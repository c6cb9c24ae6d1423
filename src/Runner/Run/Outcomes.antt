-- ===== src/Runner/Run/Outcomes.antt =====
-- How a job ends.
use librova.Base.{
  if◌then◌else◌, ℕ, String, List, Option, true, false, ◌∷◌, none, some, ◌≡◌, refl, Bool-cases, inl,
  inr,
}
use librova.Base.Outcome.{Outcome, ok, err}
use librova.Facade.{ImportResult, ImportRequest}
use librova.Facade.Run.{FacadeServices}
use librova.Facade.Run.Whole.{run_import}
use librova.Facade.Run.Settled.{IsUndone, run_import-IsUndone}
use librova.Runner.{
  JobProgressSnapshot, JobProgressSink, JobStatus, SinkCall, completed, job_failed, job_cancelled,
  is_terminal, make_calls, new_sink, set_warnings, complete, fail, cancel_sink,
}
use librova.Runner.Run.{
  DomainError, ImportJobResult, cancellation, integrity_issue, error_of, is_cancellation,
  close_with, end_with, after_mapping, after_facade, run_job, reason_error,
  has_no_successful_imports, try_map_error, cancellation_message,
}
use librova.Facade.{
  NoSuccessfulImportReason, reason_none, reason_unsupported_format, reason_duplicate_rejected,
}

-- The status that an error stands for.
abbrev pub error_status : Option DomainError → JobStatus
error_status none = completed
error_status (some error) = if is_cancellation error.code then job_cancelled else job_failed

-- The warnings that an outcome of the facade leaves in the snapshot.
abbrev pub outcome_warnings : Outcome ImportResult → List String → List String
outcome_warnings (ok r) before = r.summary.warnings
outcome_warnings (err message) before = before

abbrev pub outcome_result : Outcome ImportResult → Option ImportResult
outcome_result (ok r) = some r
outcome_result (err message) = none

-- A job that has ended as it should: its snapshot is terminal and the last one that was published,
-- and its status is that of its error.
pub record IsClosed (warnings : List String) (result : Option ImportResult)
    (end : ImportJobResult × JobProgressSink) : Type 0 where
  pub terminal : is_terminal end.0.snapshot ≡ true
  pub earlier : List JobProgressSnapshot
  pub newest : end.1.published ≡ end.0.snapshot ∷ earlier
  pub status_of_error : end.0.snapshot.status ≡ error_status end.0.error
  pub warnings_kept : end.0.snapshot.warnings ≡ warnings
  pub result_kept : end.0.import_result ≡ result

fail-IsClosed :
    (error : DomainError) (r : Option ImportResult) (sink : JobProgressSink)
    → is_cancellation error.code ≡ false
    → IsClosed sink.snapshot.warnings r (end_with (fail error.message sink) r (some error))
unfolding fail is_terminal
fail-IsClosed error r sink e = record {
  terminal = refl;
  earlier = sink.published;
  newest = refl;
  status_of_error = rw e refl;
  warnings_kept = refl;
  result_kept = refl;
}

close_with-IsClosed :
    (error : DomainError) (r : Option ImportResult) (sink : JobProgressSink)
    → IsClosed sink.snapshot.warnings r
        (end_with (close_with error.code error.message sink) r (some error))
unfolding cancel_sink is_terminal
close_with-IsClosed error r sink = elim (Bool-cases (is_cancellation error.code)) [
  | inr e ↦ rw e (fail-IsClosed error r sink e)
  | inl e ↦ rw e (record {
    terminal = refl;
    earlier = sink.published;
    newest = refl;
    status_of_error = rw e refl;
    warnings_kept = refl;
    result_kept = refl;
  })
]

reason_error_code :
    (reason : NoSuccessfulImportReason) → is_cancellation (reason_error reason).code ≡ false
reason_error_code reason_none = refl
reason_error_code reason_unsupported_format = refl
reason_error_code reason_duplicate_rejected = refl

after_mapping-IsClosed :
    (r : ImportResult) (o : Option DomainError) (sink : JobProgressSink)
    → IsClosed sink.snapshot.warnings (some r) (after_mapping r o sink)
unfolding after_mapping fail complete is_terminal
after_mapping-IsClosed r (some error) sink = close_with-IsClosed error (some r) sink
after_mapping-IsClosed r none sink = elim (Bool-cases (has_no_successful_imports r)) [
  | inl e ↦ rw e (
      fail-IsClosed (reason_error r.no_successful_import_reason) (some r) sink
        (reason_error_code r.no_successful_import_reason))
  | inr e ↦ rw e (record {
    terminal = refl;
    earlier = sink.published;
    newest = refl;
    status_of_error = refl;
    warnings_kept = refl;
    result_kept = refl;
  })
]

-- However the facade ends and whatever it has reported, a job ends with a terminal snapshot, which is
-- the last one that was published: completed without an error, cancelled with the error Cancellation,
-- and failed with any other error. It has the warnings of the import, or those from before if the
-- facade threw, and the import result, if there is one.
pub run_job-IsClosed :
    (show_number : ℕ → String) (calls : List SinkCall) (o : Outcome ImportResult)
    → IsClosed
        (outcome_warnings o (make_calls show_number calls new_sink).snapshot.warnings)
        (outcome_result o)
        (run_job show_number calls o)
unfolding run_job after_facade set_warnings
run_job-IsClosed show_number calls (ok r) =
    after_mapping-IsClosed r (try_map_error r)
      (set_warnings r.summary.warnings (make_calls show_number calls new_sink))
run_job-IsClosed show_number calls (err message) =
    fail-IsClosed (error_of integrity_issue message) none (make_calls show_number calls new_sink)
      refl

mapped_cancellation :
    (r : ImportResult)
    → r.was_cancelled ≡ true
    → try_map_error r ≡ some (error_of cancellation (cancellation_message r))
unfolding try_map_error
mapped_cancellation r e = rw e refl

-- A cancelled import ends as a cancelled job: the status, the error Cancellation, and a result that
-- lists no books but those that the rollback could not remove, of all the books that the loop over
-- the sources of this request had imported. Conditions: the import returned, and says that it was
-- cancelled.
pub run_job-run_import :
    {W : Type 0} (services : FacadeServices W) (request : ImportRequest) (w : W)
    (show_number : ℕ → String) (calls : List SinkCall) (r : ImportResult)
    → (run_import services request w).0 ≡ ok r
    → r.was_cancelled ≡ true
    → (let end = (run_job show_number calls (run_import services request w).0).0 in
        (end.snapshot.status ≡ job_cancelled)
        × (end.error ≡ some (error_of cancellation (cancellation_message r)))
        × (end.import_result ≡ some r)
        × IsUndone services request w r)
unfolding run_job after_facade after_mapping cancel_sink
run_job-run_import services request w show_number calls r e c =
    rw (e, mapped_cancellation r c) (refl, refl, refl, run_import-IsUndone services request w r e c)
