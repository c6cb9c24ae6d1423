-- ===== src/Planning/Totals.antt =====
-- The total that Prepare announces, against what the sources are recorded with.
use librova.Base.{
  subst, ap, if_true, if_false, true≢false, ◌≡◌, ℕ, Bool, List, [], ◌∷◌, ◌+◌, Option, none, some,
  if◌then◌else◌, String, true, false, arith, refl, sym, ◌∙◌, Bool-cases, inl, inr, ◌⊎◌,
}
use librova.Base.Outcome.{Outcome, ok, err}
use librova.Planning.{
  PreparedImportWorkload, find, emplace, note_zip, note_source, prepare_from, prepare,
}

else_none :
    (b : Bool) (n : ℕ) (o : Option ℕ)
    → b ≡ false
    → o ≡ (elim o [ some k ↦ some k | none ↦ if b then some n else none ])
else_none b n none e = sym (if_false (some n) e)
else_none b n (some k) e = refl

module _ {P : Type 0} (same : P → P → Bool) (is_zip : P → Bool)
    (count_planned_entries : P → Outcome ℕ) (path_to_utf8 : P → String) where
  -- An archive that cannot be inspected counts as one entry, and so does every other source.
  abbrev pub entries_of : P → ℕ
  entries_of path =
      if is_zip path then (elim (count_planned_entries path) [ ok n ↦ n | err _ ↦ 1 ]) else 1

  abbrev pub sum_of : List P → ℕ
  sum_of [] = 0
  sum_of (path ∷ rest) = entries_of path + sum_of rest

  note_zip-total :
      (path : P) (o : Outcome ℕ) (w : PreparedImportWorkload P)
      → (note_zip same is_zip count_planned_entries path_to_utf8 path o w).total_entries
        ≡ w.total_entries + (elim o [ ok n ↦ n | err _ ↦ 1 ])
  unfolding note_zip
  note_zip-total path (ok n) w = refl
  note_zip-total path (err message) w = refl

  note_source-total :
      (path : P) (w : PreparedImportWorkload P)
      → (note_source same is_zip count_planned_entries path_to_utf8 path w).total_entries
        ≡ w.total_entries + entries_of path
  unfolding note_source
  note_source-total path w = elim (Bool-cases (is_zip path)) [
    | inl e ↦ rw e (note_zip-total path (count_planned_entries path) w)
    | inr e ↦ rw e refl
  ]

  prepare_from-total :
      (cancelled : ℕ → Bool) (n : ℕ) (candidates : List P) (w : PreparedImportWorkload P)
      → ((k : ℕ) → cancelled k ≡ false)
      → (prepare_from same is_zip count_planned_entries path_to_utf8 cancelled n candidates
          w).total_entries
        ≡ w.total_entries + sum_of candidates
  unfolding prepare_from
  prepare_from-total cancelled n [] w runs = omega arith
  prepare_from-total cancelled n (path ∷ rest) w runs = rw (runs n) (
      omega (
        arith,
        prepare_from-total cancelled (n + 1) rest
            (note_source same is_zip count_planned_entries path_to_utf8 path w) runs,
        note_source-total path w,
      ))

  -- Prepare that is not cancelled announces as many entries as its candidates have together, where
  -- an archive has as many as were counted in it, and one that cannot be inspected has one, as has
  -- any other file.
  pub prepare_total :
      (cancelled : ℕ → Bool) (candidates : List P)
      → ((k : ℕ) → cancelled k ≡ false)
      → (prepare same is_zip count_planned_entries path_to_utf8 cancelled candidates).total_entries
        ≡ sum_of candidates
  unfolding prepare
  prepare_total cancelled candidates runs = omega (
    arith,
    prepare_from-total cancelled 0 candidates
        (record { total_entries = 0; planned_entries_by_source = []; warnings = [] }) runs,
  )

  module _ (same-true : (p q : P) → same p q ≡ true → p ≡ q)
      (same-refl : (p : P) → same p p ≡ true) where
    find-emplace :
        (x path : P) (n : ℕ) (sources : List (P × ℕ))
        → find same x (emplace same path n sources) ≡ (elim (find same x sources) [
          | some k ↦ some k
          | none ↦ if same x path then some n else none
        ])
    unfolding find emplace
    find-emplace x path n [] = refl
    find-emplace x path n ((key, old) ∷ rest) = elim (Bool-cases (same path key)) [
      | inl e ↦ elim (Bool-cases (same x key)) [
        | inl f ↦ rw (e, f) refl
        | inr f ↦
            rw (e, f)
              (else_none (same x path) n (find same x rest)
                (subst (λ k. same x k ≡ false) (sym (same-true path key e)) f))
      ]
      | inr e ↦ elim (Bool-cases (same x key)) [
        | inl f ↦ rw (e, f) refl
        | inr f ↦ rw (e, f) (find-emplace x path n rest)
      ]
    ]

    -- Every recorded number is the one of its source.
    abbrev Agrees : List (P × ℕ) → Type 0
    Agrees sources =
        (x : P) → (find same x sources ≡ none) ⊎ (find same x sources ≡ some (entries_of x))

    emplace-Agrees :
        (path : P) (n : ℕ) (sources : List (P × ℕ))
        → n ≡ entries_of path
        → Agrees sources
        → Agrees (emplace same path n sources)
    emplace-Agrees path n sources e agrees x = rw (find-emplace x path n sources) (elim (agrees x) [
      | inr found ↦ inr (rw found refl)
      | inl missing ↦ elim (Bool-cases (same x path)) [
        | inl at ↦ inr (rw (missing, at) (ap some (e ∙ ap entries_of (sym (same-true x path at)))))
        | inr other ↦ inl (rw (missing, other) refl)
      ]
    ])

    -- `x` is recorded with its number.
    abbrev pub Recorded : P → PreparedImportWorkload P → Type 0
    Recorded x w = find same x w.planned_entries_by_source ≡ some (entries_of x)

    emplace-Recorded :
        (path x : P) (n : ℕ) (sources : List (P × ℕ))
        → n ≡ entries_of path
        → Agrees sources
        → (x ≡ path) ⊎ (find same x sources ≡ some (entries_of x))
        → find same x (emplace same path n sources) ≡ some (entries_of x)
    emplace-Recorded path x n sources e agrees (inr found) =
        rw (find-emplace x path n sources, found) refl
    emplace-Recorded path x n sources e agrees (inl at) =
        rw (find-emplace x path n sources) (elim (agrees x) [
          | inr found ↦ rw found refl
          | inl missing ↦
              rw (missing, subst (λ y. same x y ≡ true) at (same-refl x))
                (ap some (e ∙ ap entries_of (sym at)))
        ])

    note_zip-Recorded :
        (path x : P) (o : Outcome ℕ) (w : PreparedImportWorkload P)
        → (elim o [ ok n ↦ n | err _ ↦ 1 ]) ≡ entries_of path
        → Agrees w.planned_entries_by_source
        → Agrees
            (note_zip same is_zip count_planned_entries path_to_utf8 path o
              w).planned_entries_by_source
          × ((x ≡ path) ⊎ Recorded x w
              → Recorded x (note_zip same is_zip count_planned_entries path_to_utf8 path o w))
    unfolding note_zip
    note_zip-Recorded path x (ok n) w e agrees = (
      emplace-Agrees path n w.planned_entries_by_source e agrees,
      emplace-Recorded path x n w.planned_entries_by_source e agrees,
    )
    note_zip-Recorded path x (err message) w e agrees = (
      emplace-Agrees path 1 w.planned_entries_by_source e agrees,
      emplace-Recorded path x 1 w.planned_entries_by_source e agrees,
    )

    note_source-Recorded :
        (path x : P) (w : PreparedImportWorkload P)
        → is_zip x ≡ true
        → Agrees w.planned_entries_by_source
        → Agrees
            (note_source same is_zip count_planned_entries path_to_utf8 path
              w).planned_entries_by_source
          × ((x ≡ path) ⊎ Recorded x w
              → Recorded x (note_source same is_zip count_planned_entries path_to_utf8 path w))
    unfolding note_source
    note_source-Recorded path x w zip agrees = elim (Bool-cases (is_zip path)) [
      | inl e ↦
          rw e (note_zip-Recorded path x (count_planned_entries path) w (sym (if_true 1 e)) agrees)
      | inr e ↦ rw e (
        agrees,
        λ k. elim k [
          | inr recorded ↦ recorded
          | inl at ↦ absurd (true≢false (sym zip ∙ ap is_zip at ∙ e))
        ],
      )
    ]

    -- `x` is one of the candidates.
    abbrev pub Listed : P → List P → Type 0
    Listed x [] = ⊥
    Listed x (path ∷ rest) = (x ≡ path) ⊎ Listed x rest

    prepare_from-Recorded :
        (cancelled : ℕ → Bool) (n : ℕ) (candidates : List P) (w : PreparedImportWorkload P) (x : P)
        → ((k : ℕ) → cancelled k ≡ false)
        → is_zip x ≡ true
        → Agrees w.planned_entries_by_source
        → Listed x candidates ⊎ Recorded x w
        → Recorded x
            (prepare_from same is_zip count_planned_entries path_to_utf8 cancelled n candidates w)
    unfolding prepare_from
    prepare_from-Recorded cancelled n [] w x runs zip agrees (inl listed) = absurd listed
    prepare_from-Recorded cancelled n [] w x runs zip agrees (inr recorded) = recorded
    prepare_from-Recorded cancelled n (path ∷ rest) w x runs zip agrees k =
        let w' = note_source same is_zip count_planned_entries path_to_utf8 path w in
        let (agrees', records) = note_source-Recorded path x w zip agrees in
        rw (runs n) (
          prepare_from-Recorded cancelled (n + 1) rest w' x runs zip agrees' (elim k [
            | inl (inl at) ↦ inr (records (inl at))
            | inl (inr later) ↦ inl later
            | inr recorded ↦ inr (records (inr recorded))
          ]))

    abbrev nothing_yet : PreparedImportWorkload P
    nothing_yet = record { total_entries = 0; planned_entries_by_source = []; warnings = [] }

    -- Prepare that is not cancelled records each archive among its candidates with the number of its
    -- entries, also one that is named more than once; an archive that cannot be inspected has one.
    -- Condition: the comparison of paths is equality.
    pub prepare-Recorded :
        (cancelled : ℕ → Bool) (candidates : List P) (x : P)
        → ((k : ℕ) → cancelled k ≡ false)
        → Listed x candidates
        → is_zip x ≡ true
        → Recorded x (prepare same is_zip count_planned_entries path_to_utf8 cancelled candidates)
    unfolding prepare find
    prepare-Recorded cancelled candidates x runs listed zip =
        prepare_from-Recorded cancelled 0 candidates nothing_yet x runs zip (λ y. inl refl)
          (inl listed)
