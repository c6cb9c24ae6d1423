-- ===== src/Jobs/Steps/Stable.antt =====
-- Job ids are never handed out twice, and the result of a job never changes.
use librova.Base.{
  ◌≢◌, ◌≡◌, ℕ, some, none, List, ◌==◌, Option, ◌∷◌, [], refl, ◌<◌, arith, Bool-cases, inl, inr, ◌⊎◌,
  sym, ◌∙◌, some-injective, ==-false_lt, ap, subst, is_some, ==→eq, if_true, if_false, ltb, ltb→lt,
  le_refl,
}
use librova.Jobs.{
  JobManager, JobTypes, JobRecord, start, cancel, remove, publish_snapshot, finish, try_get_record,
  try_get_result, update, erase, request_stop, cancel_record, remove_record, empty_manager,
}
use librova.Jobs.Steps.{
  try_get_record-update, Below, Inv, update-Below, try_get_record-erase, Consistent, Step, Reach,
  erase-Below, try_get_record-Below,
}

module _ {S T : Type 0} (types : JobTypes S T) where
  record_of-result :
      (id : ℕ) (m : JobManager S T) (t : T)
      → try_get_result id m ≡ some t
      → (job : JobRecord S T) × (try_get_record id m.jobs ≡ some job) × (job.result ≡ some t)
  unfolding try_get_result
  record_of-result id m t h = pick (try_get_record id m.jobs) refl h
    where
      pick :
          (o : Option (JobRecord S T))
          → try_get_record id m.jobs ≡ o
          → (elim o [ none ↦ none | some job ↦ job.result ]) ≡ some t
          → (job : JobRecord S T) × (try_get_record id m.jobs ≡ some job) × (job.result ≡ some t)
      pick none e h = cc
      pick (some job) e h = (job, e, h)

  no_result :
      (id : ℕ) (m : JobManager S T) (job : JobRecord S T)
      → try_get_result id m ≡ none
      → try_get_record id m.jobs ≡ some job
      → job.result ≡ none
  unfolding try_get_result
  no_result id m job h e =
      let read : Option (JobRecord S T) → Option T =
        λ o. elim o [ none ↦ none | some j ↦ j.result ] in
      ap read (sym e) ∙ h

  -- Either the job is gone, or its result is there and is `t`.
  abbrev Settled : ℕ → Option T → List (ℕ × JobRecord S T) → Type 0
  Settled x t jobs =
      (try_get_record x jobs ≡ none)
      ⊎ ((job : JobRecord S T) × (try_get_record x jobs ≡ some job) × (job.result ≡ t) × (t ≢ none))

  update-Settled :
      (f : JobRecord S T → JobRecord S T) (id x : ℕ) (t : Option T)
      (jobs : List (ℕ × JobRecord S T))
      → ((job : JobRecord S T)
          → try_get_record id jobs ≡ some job
          → job.result ≡ t
          → t ≢ none
          → (f job).result ≡ t)
      → Settled x t jobs
      → Settled x t (update f id jobs)
  update-Settled f id x t jobs keeps (inl gone) =
      inl (rw (try_get_record-update types f id x jobs, gone) (ground arith))
  update-Settled f id x t jobs keeps (inr (job, found, settled, there)) =
      elim (Bool-cases (x == id)) [
        | inl e ↦ inr (
          f job,
          rw (try_get_record-update types f id x jobs, e, found) refl,
          keeps job (subst (λ y. try_get_record y jobs ≡ some job) (==→eq x id e) found) settled
              there,
          there,
        )
        | inr e ↦ inr (job, rw (try_get_record-update types f id x jobs, e) found, settled, there)
      ]

  erase-Settled :
      (id x n : ℕ) (t : Option T) (jobs : List (ℕ × JobRecord S T))
      → Below types n jobs
      → Settled x t jobs
      → Settled x t (erase id jobs)
  erase-Settled id x n t jobs below k = elim (Bool-cases (x == id)) [
    | inl e ↦ inl (rw (try_get_record-erase types id x n jobs below, e) refl)
    | inr e ↦ rw (try_get_record-erase types id x n jobs below, e) k
  ]

  -- What a step keeps: the invariant, and what is settled.
  abbrev Kept : ℕ → Option T → JobManager S T → Type 0
  Kept x t m = Inv types m × (x < m.next_job_id) × Settled x t m.jobs

  start-Kept : (x : ℕ) (t : Option T) (m : JobManager S T) → Kept x t m → Kept x t (start types m).1
  unfolding start try_get_record
  start-Kept x t m k =
      ((omega arith, (λ t' e. cc), k.0), omega arith, rw (==-false_lt x m.next_job_id k.1) k.2)

  Below-Consistent :
      (id n : ℕ) (jobs : List (ℕ × JobRecord S T)) (job : JobRecord S T)
      → Below types n jobs
      → try_get_record id jobs ≡ some job
      → Consistent types job
  unfolding try_get_record
  Below-Consistent id n [] job k e = cc
  Below-Consistent id n ((key, first) ∷ rest) job k e = elim (Bool-cases (id == key)) [
    | inl at ↦ subst (Consistent types) (some-injective first job (sym (if_true _ at) ∙ e)) k.1
    | inr other ↦ Below-Consistent id key rest job k.2 (sym (if_false _ other) ∙ e)
  ]

  found_lt :
      (id n : ℕ) (jobs : List (ℕ × JobRecord S T)) (job : JobRecord S T)
      → Below types n jobs
      → try_get_record id jobs ≡ some job
      → id < n
  found_lt id n jobs job k found = elim (Bool-cases (ltb id n)) [
    | inl e ↦ ltb→lt id n e
    | inr e ↦ let clash = sym (try_get_record-Below types n id jobs k (ground arith)) ∙ found in cc
  ]

  cancel_record-Kept :
      (id x : ℕ) (o : Option (JobRecord S T)) (t : Option T) (m : JobManager S T)
      → Kept x t m
      → Kept x t (cancel_record id o m).1
  unfolding cancel_record request_stop
  cancel_record-Kept id x none t m k = k
  cancel_record-Kept id x (some job) t m k = elim (Bool-cases job.is_joinable) [
    | inr off ↦ rw off k
    | inl on ↦ rw on (elim (Bool-cases (is_some job.result)) [
      | inl e ↦ rw e k
      | inr e ↦ rw e (
        update-Below types request_stop id m.next_job_id m.jobs
            (λ j found t' r. Below-Consistent id m.next_job_id m.jobs j k.0 found t' r) k.0,
        k.1,
        update-Settled request_stop id x t m.jobs (λ j found r _. r) k.2,
      )
    ])
  ]

  remove_record-Kept :
      (id x : ℕ) (o : Option (JobRecord S T)) (t : Option T) (m : JobManager S T)
      → Kept x t m
      → Kept x t (remove_record id o m).1
  unfolding remove_record
  remove_record-Kept id x none t m k = k
  remove_record-Kept id x (some job) t m k = elim (Bool-cases (is_some job.result)) [
    | inl e ↦ rw e (
      erase-Below types id m.next_job_id m.jobs k.0,
      k.1,
      erase-Settled id x m.next_job_id t m.jobs k.0 k.2,
    )
    | inr e ↦ rw e k
  ]

  cancel-Kept :
      (id x : ℕ) (t : Option T) (m : JobManager S T) → Kept x t m → Kept x t (cancel id m).1
  unfolding cancel
  cancel-Kept id x t m k = cancel_record-Kept id x (try_get_record id m.jobs) t m k

  remove-Kept :
      (id x : ℕ) (t : Option T) (m : JobManager S T) → Kept x t m → Kept x t (remove id m).1
  unfolding remove
  remove-Kept id x t m k = remove_record-Kept id x (try_get_record id m.jobs) t m k

  publish_snapshot-Kept :
      (id x : ℕ) (s : S) (t : Option T) (m : JobManager S T)
      → try_get_result id m ≡ none
      → Kept x t m
      → Kept x t (publish_snapshot id s m)
  unfolding publish_snapshot
  publish_snapshot-Kept id x s t m idle k = (
    update-Below types (λ job. record job { snapshot = s }) id m.next_job_id m.jobs
        (λ job found t' e. let clash = sym (no_result id m job idle found) ∙ e in cc) k.0,
    k.1,
    update-Settled (λ job. record job { snapshot = s }) id x t m.jobs (λ job found e _. e) k.2,
  )

  finish-Kept :
      (id x : ℕ) (t' : T) (t : Option T) (m : JobManager S T)
      → try_get_result id m ≡ none
      → Kept x t m
      → Kept x t (finish types id t' m)
  unfolding finish
  finish-Kept id x t' t m idle k = (
    update-Below types (λ job. record job { snapshot = types.snapshot_of t'; result = some t' }) id
        m.next_job_id m.jobs (λ job found u e. ap (types.snapshot_of) (some-injective t' u e)) k.0,
    k.1,
    update-Settled (λ job. record job { snapshot = types.snapshot_of t'; result = some t' }) id x t
        m.jobs (λ job found e there. absurd (there (sym e ∙ no_result id m job idle found))) k.2,
  )

  Step-Kept :
      (x : ℕ) (t : Option T) {m m' : JobManager S T} → Step types m m' → Kept x t m → Kept x t m'
  Step-Kept x t {m} (Step.starts e) k = subst (Kept x t) e (start-Kept x t m k)
  Step-Kept x t {m} (Step.cancels id e) k = subst (Kept x t) e (cancel-Kept id x t m k)
  Step-Kept x t {m} (Step.removes id e) k = subst (Kept x t) e (remove-Kept id x t m k)
  Step-Kept x t {m} (Step.publishes id s idle e) k =
      subst (Kept x t) e (publish_snapshot-Kept id x s t m idle k)
  Step-Kept x t {m} (Step.finishes id t' idle e) k =
      subst (Kept x t) e (finish-Kept id x t' t m idle k)

  Reach-Kept :
      (x : ℕ) (t : Option T) {m m' : JobManager S T} → Reach types m m' → Kept x t m → Kept x t m'
  Reach-Kept x t Reach.here k = k
  Reach-Kept x t (Reach.next steps step) k = Step-Kept x t step (Reach-Kept x t steps k)

  -- The result of a job, once it is there, stays what it is, however the clients and the workers
  -- interleave, until the job is removed; and its id is then never the id of another job. Condition:
  -- the ids in the table fall and are below the next one, and each record with a result shows that
  -- result's snapshot, as in the empty manager.
  pub try_get_result_stable :
      (id : ℕ) (t : T) {m m' : JobManager S T}
      → Inv types m
      → Reach types m m'
      → try_get_result id m ≡ some t
      → (try_get_record id m'.jobs ≡ none) ⊎ (try_get_result id m' ≡ some t)
  unfolding try_get_result
  try_get_result_stable id t {m} {m'} inv steps h =
      let (job, found, settled) = record_of-result id m t h in
      elim (Reach-Kept id (some t) steps (
        inv,
        found_lt id m.next_job_id m.jobs job inv found,
        inr (job, found, settled, λ e. cc),
      )).2 [
        | inl gone ↦ inl gone
        | inr (job', found', settled', _) ↦
            let read : Option (JobRecord S T) → Option T =
              λ o. elim o [ none ↦ none | some j ↦ j.result ] in
            inr (ap read found' ∙ settled')
      ]

  -- In every state that the empty manager comes to the table has falling ids below the next one, the
  -- records with a result show the snapshot of it, and the id that Start hands out next is not in
  -- the table.
  pub empty_manager-Reach-Inv :
      {m : JobManager S T}
      → Reach types empty_manager m
      → Inv types m × (try_get_record (start types m).0 m.jobs ≡ none)
  unfolding start
  empty_manager-Reach-Inv {m} steps =
      let k =
        Reach-Kept 0 none steps
          (tt, omega arith, inl (try_get_record-Below types 0 0 [] tt (omega arith))) in
      (
        k.0,
        try_get_record-Below types m.next_job_id m.next_job_id m.jobs k.0 (le_refl m.next_job_id),
      )
