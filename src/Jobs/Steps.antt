-- ===== src/Jobs/Steps.antt =====
-- The interleavings of the clients of ImportJobManager and of its workers.
pub mod Stable
pub mod Answers
use librova.Jobs.{
  JobManager, JobTypes, JobRecord, start, try_get_record, erase, cancel, update, remove,
  try_get_result, publish_snapshot, finish,
}
use librova.Base.{
  ◌≡◌, ℕ, some, List, ◌≤◌, if◌then◌else◌, none, ◌==◌, Option, ◌∷◌, [], refl, ◌<◌, arith, ==-false,
  map_option, Bool-cases, inl, inr,
}

module _ {S T : Type 0} (types : JobTypes S T) where
  -- A worker publishes snapshots and finishes once, last of all: it takes a step only while its
  -- record has no result.
  pub data Step (m : JobManager S T) : JobManager S T → Type 0 where
    starts : {m' : JobManager S T} → (start types m).1 ≡ m' → Step m m'
    cancels : {m' : JobManager S T} (id : ℕ) → (cancel id m).1 ≡ m' → Step m m'
    removes : {m' : JobManager S T} (id : ℕ) → (remove id m).1 ≡ m' → Step m m'
    publishes :
        {m' : JobManager S T} (id : ℕ) (s : S)
        → try_get_result id m ≡ none
        → publish_snapshot id s m ≡ m'
        → Step m m'
    finishes :
        {m' : JobManager S T} (id : ℕ) (t : T)
        → try_get_result id m ≡ none
        → finish types id t m ≡ m'
        → Step m m'

  pub data Reach (m : JobManager S T) : JobManager S T → Type 0 where
    here : Reach m m
    next : {u v : JobManager S T} → Reach m u → Step u v → Reach m v

  -- A record that has its result shows the snapshot of it.
  abbrev pub Consistent : JobRecord S T → Type 0
  Consistent job = (t : T) → job.result ≡ some t → job.snapshot ≡ types.snapshot_of t

  -- The ids fall from below `n`, so none stands twice, and every record is consistent.
  abbrev pub Below : ℕ → List (ℕ × JobRecord S T) → Type 0
  Below n [] = Unit
  Below n ((key, job) ∷ rest) = (key < n) × Consistent job × Below key rest

  abbrev pub Inv : JobManager S T → Type 0
  Inv m = Below m.next_job_id m.jobs

  pub Below-weaken :
      (a b : ℕ) (jobs : List (ℕ × JobRecord S T)) → a ≤ b → Below a jobs → Below b jobs
  Below-weaken a b [] h k = tt
  Below-weaken a b ((key, job) ∷ rest) h k = (omega arith, k.1, k.2)

  pub try_get_record-Below :
      (n id : ℕ) (jobs : List (ℕ × JobRecord S T))
      → Below n jobs
      → n ≤ id
      → try_get_record id jobs ≡ none
  unfolding try_get_record
  try_get_record-Below n id [] h k = refl
  try_get_record-Below n id ((key, job) ∷ rest) h k =
      rw (==-false id key (omega arith)) (try_get_record-Below key id rest h.2 (omega arith))

  -- What a change of one record does to the others, and to it.
  pub try_get_record-update :
      (f : JobRecord S T → JobRecord S T) (id x : ℕ) (jobs : List (ℕ × JobRecord S T))
      → try_get_record x (update f id jobs)
        ≡ (if x == id then map_option f (try_get_record x jobs) else try_get_record x jobs)
  unfolding try_get_record update
  try_get_record-update f id x [] = ground arith
  try_get_record-update f id x ((key, job) ∷ rest) = elim (Bool-cases (id == key)) [
    | inl e ↦ rw e (ground arith)
    | inr e ↦ rw e (ground (arith, try_get_record-update f id x rest))
  ]

  pub update-Below :
      (f : JobRecord S T → JobRecord S T) (id n : ℕ) (jobs : List (ℕ × JobRecord S T))
      → ((job : JobRecord S T) → try_get_record id jobs ≡ some job → Consistent (f job))
      → Below n jobs
      → Below n (update f id jobs)
  unfolding try_get_record update
  update-Below f id n [] h k = tt
  update-Below f id n ((key, job) ∷ rest) h k = elim (Bool-cases (id == key)) [
    | inl e ↦ rw e (k.0, h job (rw e refl), k.2)
    | inr e ↦ rw e (k.0, k.1, update-Below f id key rest (λ job' found. h job' (rw e found)) k.2)
  ]

  pub erase-Below :
      (id n : ℕ) (jobs : List (ℕ × JobRecord S T)) → Below n jobs → Below n (erase id jobs)
  unfolding erase
  erase-Below id n [] k = tt
  erase-Below id n ((key, job) ∷ rest) k = elim (Bool-cases (id == key)) [
    | inl e ↦ rw e (Below-weaken key n rest (omega arith) k.2)
    | inr e ↦ rw e (k.0, k.1, erase-Below id key rest k.2)
  ]

  pub try_get_record-erase :
      (id x n : ℕ) (jobs : List (ℕ × JobRecord S T))
      → Below n jobs
      → try_get_record x (erase id jobs) ≡ (if x == id then none else try_get_record x jobs)
  unfolding try_get_record erase
  try_get_record-erase id x n [] k = ground arith
  try_get_record-erase id x n ((key, job) ∷ rest) k = elim (Bool-cases (id == key)) [
    | inl e ↦ rw e (ground (arith, try_get_record-Below key x rest k.2))
    | inr e ↦ rw e (ground (arith, try_get_record-erase id x key rest k.2))
  ]
