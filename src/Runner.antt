-- ===== src/Runner.antt =====
-- libs/App/ImportJobRunner.hpp and .cpp: one import as a job. The state of the progress sink is its
-- snapshot and the snapshots that it has published; the mutex is held in each operation. What the
-- facade does to the sink while it runs is a list of calls; an exception of the facade is `err`.
pub mod Run
mod Examples
use librova.Base.{
  ℕ, Bool, String, List, Option, true, false, [], ◌∷◌, ◌++◌, ◌+◌, ◌*◌, ◌/◌, none, some,
  if◌then◌else◌, concat, ltb,
}

pub data JobStatus : Type 0 where
  pending running completed job_failed job_cancelled cancelling rolling_back compacting : JobStatus

pub record JobProgressSnapshot : Type 0 where
  pub status : JobStatus
  pub percent : ℕ
  pub message : String
  pub warnings : List String
  pub total_entries : ℕ
  pub processed_entries : ℕ
  pub imported_entries : ℕ
  pub failed_entries : ℕ
  pub skipped_entries : ℕ

abbrev pub terminal_status : JobStatus → Bool
terminal_status completed = true
terminal_status job_failed = true
terminal_status job_cancelled = true
terminal_status _ = false

-- SJobProgressSnapshot::IsTerminal
unfoldable pub is_terminal : JobProgressSnapshot → Bool
is_terminal s = terminal_status s.status

-- What the facade may do to the sink.
pub data SinkCall : Type 0 where
  report_value : ℕ → String → SinkCall
  report_structured_progress : ℕ → ℕ → ℕ → ℕ → ℕ → ℕ → String → SinkCall
  begin_rollback : ℕ → SinkCall
  report_rollback_progress : ℕ → ℕ → SinkCall
  begin_compacting : SinkCall

-- CJobProgressSink; `published` has the newest snapshot first.
pub record JobProgressSink : Type 0 where
  pub snapshot : JobProgressSnapshot
  pub published : List JobProgressSnapshot

-- PublishSnapshot; what the callback throws is swallowed.
unfoldable pub publish_snapshot : JobProgressSnapshot → JobProgressSink → JobProgressSink
publish_snapshot s sink = record { snapshot = s; published = s ∷ sink.published }

abbrev pub first_snapshot : JobProgressSnapshot
first_snapshot = record {
  status = running;
  percent = 0;
  message = "";
  warnings = [];
  total_entries = 0;
  processed_entries = 0;
  imported_entries = 0;
  failed_entries = 0;
  skipped_entries = 0;
}

-- The constructor, which publishes the first snapshot.
abbrev pub new_sink : JobProgressSink
new_sink = record { snapshot = first_snapshot; published = first_snapshot ∷ [] }

-- What a call makes of the snapshot. `show_number` is std::to_string.
unfoldable pub apply_call : (ℕ → String) → SinkCall → JobProgressSnapshot → JobProgressSnapshot
apply_call show_number (report_value percent message) s = record s {
  status = running;
  percent = percent;
  message = message;
}
apply_call show_number
      (report_structured_progress total processed imported failed skipped percent message) s =
    record s {
      status = running;
      total_entries = total;
      processed_entries = processed;
      imported_entries = imported;
      failed_entries = failed;
      skipped_entries = skipped;
      percent = percent;
      message = message;
    }
apply_call show_number (begin_rollback total) s = record s {
  status = cancelling;
  total_entries = total;
  processed_entries = 0;
  message = concat "Cancelling: preparing rollback of " (concat (show_number total) " book(s)");
}
apply_call show_number (report_rollback_progress rolled_back total) s = record s {
  status = rolling_back;
  total_entries = total;
  processed_entries = rolled_back;
  percent = if ltb 0 total then (rolled_back * 100) / total else 0;
  message =
      concat "Rolling back: "
        (concat (show_number rolled_back) (concat " / " (concat (show_number total) " book(s)")));
}
apply_call show_number begin_compacting s = record s {
  status = compacting;
  message = "Compacting database...";
}

unfoldable pub make_call : (ℕ → String) → SinkCall → JobProgressSink → JobProgressSink
unfolding publish_snapshot apply_call
make_call show_number c sink = publish_snapshot (apply_call show_number c sink.snapshot) sink

unfoldable pub make_calls : (ℕ → String) → List SinkCall → JobProgressSink → JobProgressSink
unfolding make_call
make_calls show_number [] sink = sink
make_calls show_number (c ∷ rest) sink = make_calls show_number rest (make_call show_number c sink)

unfoldable pub set_warnings : List String → JobProgressSink → JobProgressSink
unfolding publish_snapshot
set_warnings warnings sink = publish_snapshot (record sink.snapshot { warnings = warnings }) sink

unfoldable pub complete : String → JobProgressSink → JobProgressSink
unfolding publish_snapshot
complete message sink =
    publish_snapshot (record sink.snapshot { status = completed; percent = 100; message = message })
      sink

unfoldable pub cancel_sink : String → JobProgressSink → JobProgressSink
unfolding publish_snapshot
cancel_sink message sink =
    publish_snapshot (record sink.snapshot { status = job_cancelled; message = message }) sink

unfoldable pub fail : String → JobProgressSink → JobProgressSink
unfolding publish_snapshot
fail message sink =
    publish_snapshot (record sink.snapshot { status = job_failed; message = message }) sink
