-- ===== src/Runner/Examples.antt =====
-- Jobs over the sample import of Facade.Examples, one of which the user cancels.
use librova.Base.{◌≡◌, ℕ, String, List, [], ◌∷◌, refl, some}
use librova.Base.Outcome.{err}
use librova.Facade.Examples.{sample, request, cancelled_result, run_cancelled}
use librova.Facade.Run.Whole.{run_import}
use librova.Facade.Run.Settled.{IsUndone}
use librova.Runner.{
  SinkCall, report_value, begin_rollback, report_rollback_progress, begin_compacting, job_failed,
  job_cancelled, new_sink, make_calls,
}
use librova.Runner.Run.{run_job, error_of, cancellation, cancellation_message}
use librova.Runner.Run.Outcomes.{
  run_job-IsClosed, run_job-run_import, IsClosed, outcome_warnings, outcome_result,
}

abbrev number : ℕ → String
number n = "2"

abbrev calls : List SinkCall
calls =
    report_value 40 "Processed source file"
    ∷ begin_rollback 2
    ∷ report_rollback_progress 1 2
    ∷ begin_compacting
    ∷ []

run_job_throws : (run_job number calls (err "disk full")).0.snapshot.status ≡ job_failed
unfolding run_job
run_job_throws = refl

run_job_percent : (run_job number calls (err "disk full")).0.snapshot.percent ≡ 50
unfolding run_job
run_job_percent = refl

run_job-IsClosed_example :
    IsClosed
      (outcome_warnings (err "disk full") (make_calls number calls new_sink).snapshot.warnings)
      (outcome_result (err "disk full"))
      (run_job number calls (err "disk full"))
run_job-IsClosed_example = run_job-IsClosed number calls (err "disk full")

run_job-run_import_example :
    (let end = (run_job number calls (run_import (sample 2) request 0).0).0 in
      (end.snapshot.status ≡ job_cancelled)
      × (end.error ≡ some (error_of cancellation (cancellation_message cancelled_result)))
      × (end.import_result ≡ some cancelled_result)
      × IsUndone (sample 2) request 0 cancelled_result)
run_job-run_import_example =
    run_job-run_import (sample 2) request 0 number calls cancelled_result run_cancelled refl
