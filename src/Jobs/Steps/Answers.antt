-- ===== src/Jobs/Steps/Answers.antt =====
-- What the answers of Cancel, Wait and Remove tell about a job.
use librova.Base.{
  ◌≡◌, ℕ, Option, some, none, true, false, refl, ap, ◌∙◌, Bool-cases, inl, inr, Bool, is_some,
  arith, if_true, ==-refl, if◌then◌else◌, not,
}
use librova.Jobs.{
  JobManager, JobTypes, JobRecord, cancel, remove, wait, try_get_record, cancel_record,
  remove_record, erase,
}
use librova.Jobs.Steps.{Inv, try_get_record-erase}

module _ {S T : Type 0} (types : JobTypes S T) where
  -- Wait's predicate, of the record that was found.
  abbrev waits : Option (JobRecord S T) → Bool
  waits o = elim o [ none ↦ false | some job ↦ is_some job.result ]

  if_same : {A : Type 0} (b : Bool) (a : A) → (if b then a else a) ≡ a
  if_same true a = refl
  if_same false a = refl

  cancel_record-true :
      (id : ℕ) (o : Option (JobRecord S T)) (m : JobManager S T)
      → (cancel_record id o m).0 ≡ true
      → (remove_record id o m ≡ (false, m)) × (waits o ≡ false)
  unfolding cancel_record remove_record
  cancel_record-true id none m h = cc
  cancel_record-true id (some job) m h = elim (Bool-cases (is_some job.result)) [
    | inl e ↦ absurd (ground arith)
    | inr e ↦ rw e (refl, refl)
  ]

  remove_record-true :
      (id : ℕ) (o : Option (JobRecord S T)) (m : JobManager S T)
      → (remove_record id o m).0 ≡ true
      → (cancel_record id o m ≡ (false, m))
        × (waits o ≡ true)
        × ((remove_record id o m).1.jobs ≡ erase id m.jobs)
  unfolding cancel_record remove_record
  remove_record-true id none m h = cc
  remove_record-true id (some job) m h = elim (Bool-cases (is_some job.result)) [
    | inl e ↦ rw e (if_same (not job.is_joinable) (false, m), refl, refl)
    | inr e ↦ absurd (ground arith)
  ]

  -- A job that Cancel agrees to stop is not done: Remove refuses it and leaves the table alone, and
  -- Wait has nothing to return for.
  pub cancel_agreed :
      (id : ℕ) (m : JobManager S T)
      → (cancel id m).0 ≡ true
      → (remove id m ≡ (false, m)) × (wait id m ≡ false)
  unfolding cancel remove wait
  cancel_agreed id m h = cancel_record-true id (try_get_record id m.jobs) m h

  -- A job that Remove takes out was done: Cancel refuses it and leaves the table alone, Wait returns
  -- at once, and afterwards the job is gone. Condition: the table's ids fall, as they do in every
  -- state that the empty manager comes to.
  pub remove_agreed :
      (id : ℕ) (m : JobManager S T)
      → Inv types m
      → (remove id m).0 ≡ true
      → (cancel id m ≡ (false, m))
        × (wait id m ≡ true)
        × (try_get_record id (remove id m).1.jobs ≡ none)
  unfolding cancel remove wait
  remove_agreed id m inv h =
      let (kept, ready, erased) = remove_record-true id (try_get_record id m.jobs) m h in
      (
        kept,
        ready,
        ap (λ jobs. try_get_record id jobs) erased
            ∙ try_get_record-erase types id id m.next_job_id m.jobs inv
            ∙ if_true _ (==-refl id),
      )
