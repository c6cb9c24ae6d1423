-- ===== src/Jobs.antt =====
-- libs/App/ImportJobManager.hpp and .cpp: the table of the import jobs that run, and their results.
-- The state is the table and what each record shares with its worker thread; the operations of the
-- clients and the two things a worker does (publish a snapshot, finish with a result) are steps, each
-- of which happens under the locks that the source takes. Cancel's look at the result and its stop
-- request are one step: a worker that finishes in between ignores the stop. `S` is the progress
-- snapshot, `T` the result that CImportJobRunner::Run returns. The import request is the runner's
-- affair, and time is left out, so `wait` is the predicate that Wait waits for.
pub mod Steps
mod Examples
use librova.Base.{
  ℕ, Bool, true, false, Option, none, some, List, [], ◌∷◌, ◌==◌, ◌+◌, if◌then◌else◌, is_some, not,
}

-- SJobRecord; `is_joinable` is whether Worker has a thread, and `stop_requested` the state of the
-- thread's stop token.
pub record JobRecord (S T : Type 0) : Type 0 where
  pub snapshot : S
  pub result : Option T
  pub is_joinable : Bool
  pub stop_requested : Bool

pub record JobManager (S T : Type 0) : Type 0 where
  pub next_job_id : ℕ
  pub jobs : List (ℕ × JobRecord S T)

-- What the manager reads of the runner's types.
pub record JobTypes (S T : Type 0) : Type 0 where
  pub queued : S
  pub snapshot_of : T → S

module _ {S T : Type 0} where
  -- m_jobs.find
  unfoldable pub try_get_record : ℕ → List (ℕ × JobRecord S T) → Option (JobRecord S T)
  try_get_record id [] = none
  try_get_record id ((key, job) ∷ rest) =
      let later = try_get_record id rest in if id == key then some job else later

  -- A change of a record that the table and the worker share.
  unfoldable pub update :
      (JobRecord S T → JobRecord S T) → ℕ → List (ℕ × JobRecord S T) → List (ℕ × JobRecord S T)
  update f id [] = []
  update f id ((key, job) ∷ rest) =
      let others = update f id rest in
      if id == key then (key, f job) ∷ rest else (key, job) ∷ others

  unfoldable pub erase : ℕ → List (ℕ × JobRecord S T) → List (ℕ × JobRecord S T)
  erase id [] = []
  erase id ((key, job) ∷ rest) =
      let others = erase id rest in if id == key then rest else (key, job) ∷ others

  abbrev pub empty_manager : JobManager S T
  empty_manager = record { next_job_id = 1; jobs = [] }

  -- The id of the new job, and the table with it. The id is fresh, so the place of the new record
  -- does not matter.
  unfoldable pub start : JobTypes S T → JobManager S T → ℕ × JobManager S T
  start types m = (
    m.next_job_id,
    record {
      next_job_id = m.next_job_id + 1;
      jobs =
          (
            m.next_job_id,
            record {
              snapshot = types.queued;
              result = none;
              is_joinable = true;
              stop_requested = false;
            },
          )
          ∷ m.jobs;
    },
  )

  unfoldable pub try_get_snapshot : ℕ → JobManager S T → Option S
  try_get_snapshot id m = elim (try_get_record id m.jobs) [
    | none ↦ none
    | some job ↦ some job.snapshot
  ]

  unfoldable pub try_get_result : ℕ → JobManager S T → Option T
  try_get_result id m = elim (try_get_record id m.jobs) [ none ↦ none | some job ↦ job.result ]

  request_stop : JobRecord S T → JobRecord S T
  request_stop job = record job { stop_requested = true }

  cancel_record : ℕ → Option (JobRecord S T) → JobManager S T → Bool × JobManager S T
  unfolding request_stop
  cancel_record id none m = (false, m)
  cancel_record id (some job) m =
      if not job.is_joinable
      then (false, m)
      else if is_some job.result
      then (false, m)
      else (true, record m { jobs = update request_stop id m.jobs })

  unfoldable pub cancel : ℕ → JobManager S T → Bool × JobManager S T
  unfolding cancel_record
  cancel id m = cancel_record id (try_get_record id m.jobs) m

  -- Whether Wait would return true at once.
  unfoldable pub wait : ℕ → JobManager S T → Bool
  wait id m = elim (try_get_record id m.jobs) [ none ↦ false | some job ↦ is_some job.result ]

  remove_record : ℕ → Option (JobRecord S T) → JobManager S T → Bool × JobManager S T
  remove_record id none m = (false, m)
  remove_record id (some job) m =
      if is_some job.result then (true, record m { jobs = erase id m.jobs }) else (false, m)

  unfoldable pub remove : ℕ → JobManager S T → Bool × JobManager S T
  unfolding remove_record
  remove id m = remove_record id (try_get_record id m.jobs) m

  -- The worker of job `id`, by the record it holds: publishSnapshot, and its last critical section.
  unfoldable pub publish_snapshot : ℕ → S → JobManager S T → JobManager S T
  publish_snapshot id s m = record m {
    jobs = update (λ job. record job { snapshot = s }) id m.jobs;
  }

  unfoldable pub finish : JobTypes S T → ℕ → T → JobManager S T → JobManager S T
  finish types id t m = record m {
    jobs = update (λ job. record job { snapshot = types.snapshot_of t; result = some t }) id m.jobs;
  }
