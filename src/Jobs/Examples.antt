-- ===== src/Jobs/Examples.antt =====
-- Two jobs, of which the first finishes and the second is cancelled; snapshots and results are
-- numbers, 0 is the queued snapshot, and the snapshot of a result is its double.
use librova.Base.{◌≡◌, ℕ, ◌*◌, none, false, ◌⊎◌, some, refl, arith, ap, some-injective, true}
use librova.Jobs.{
  start, JobTypes, JobManager, update, publish_snapshot, try_get_record, empty_manager, finish,
  cancel, try_get_result, remove, wait,
}
use librova.Jobs.Steps.{Reach, Inv, Step}
use librova.Jobs.Steps.Stable.{try_get_result_stable, empty_manager-Reach-Inv}
use librova.Jobs.Steps.Answers.{cancel_agreed, remove_agreed}

abbrev types : JobTypes ℕ ℕ
types = record { queued = 0; snapshot_of = λ t. t * 2 }

abbrev one_job : JobManager ℕ ℕ
one_job = (start types empty_manager).1

abbrev published : JobManager ℕ ℕ
published = publish_snapshot 1 5 one_job

abbrev finished : JobManager ℕ ℕ
finished = finish types 1 7 published

abbrev two_jobs : JobManager ℕ ℕ
two_jobs = (start types finished).1

abbrev cancelled : JobManager ℕ ℕ
cancelled = (cancel 2 two_jobs).1

to_finished : Reach types empty_manager finished
unfolding start update publish_snapshot finish try_get_record try_get_result
to_finished =
    Reach.next
      (Reach.next (Reach.next Reach.here (Step.starts refl)) (Step.publishes 1 5 refl refl))
      (Step.finishes 1 7 refl refl)

to_cancelled : Reach types finished cancelled
to_cancelled = Reach.next (Reach.next Reach.here (Step.starts refl)) (Step.cancels 2 refl)

-- A job that has finished cannot be cancelled, one that runs cannot be removed.
cancel_finished : (cancel 1 cancelled).0 ≡ false
unfolding start update publish_snapshot finish try_get_record cancel
cancel_finished = refl

remove_running : (remove 2 cancelled).0 ≡ false
unfolding start update publish_snapshot finish try_get_record cancel remove
remove_running = refl

try_get_result_stable_example :
    (try_get_record 1 cancelled.jobs ≡ none) ⊎ (try_get_result 1 cancelled ≡ some 7)
unfolding start update publish_snapshot finish try_get_record try_get_result
try_get_result_stable_example =
    try_get_result_stable types 1 7
      ((omega arith, (λ t e. ap (λ n. n * 2) (some-injective 7 t e)), tt)) to_cancelled refl

empty_manager-Reach-Inv_example :
    Inv types finished × (try_get_record (start types finished).0 finished.jobs ≡ none)
empty_manager-Reach-Inv_example = empty_manager-Reach-Inv types to_finished

cancel_agreed_example : (remove 1 one_job ≡ (false, one_job)) × (wait 1 one_job ≡ false)
unfolding start try_get_record cancel
cancel_agreed_example = cancel_agreed types 1 one_job refl

remove_agreed_example :
    (cancel 1 finished ≡ (false, finished))
    × (wait 1 finished ≡ true)
    × (try_get_record 1 (remove 1 finished).1.jobs ≡ none)
unfolding start update publish_snapshot finish try_get_record remove
remove_agreed_example =
    remove_agreed types 1 finished (empty_manager-Reach-Inv types to_finished).0 refl
