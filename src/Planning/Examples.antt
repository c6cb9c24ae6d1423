-- ===== src/Planning/Examples.antt =====
-- Sources that are numbers: the even ones are archives with that many entries, but archive 4 cannot
-- be inspected.
use librova.Base.{
  ◌≡◌, ℕ, Bool, ◌==◌, if◌then◌else◌, ◌%◌, false, ◌∷◌, [], some, refl, ==→eq, ==-refl, inl,
}
use librova.Planning.{prepare, find}
use librova.Base.Outcome.{Outcome, err, ok}
use librova.Planning.Totals.{sum_of, prepare_total, prepare-Recorded}

abbrev count : ℕ → Outcome ℕ
count path = if path == 4 then err "bad archive" else ok path

abbrev is_archive : ℕ → Bool
is_archive path = path % 2 == 0

-- 6 twice, 4 and 3: 6 + 6 + 1 + 1.
total_run :
    (prepare ◌==◌ is_archive count (λ p. "p") (λ k. false) (6 ∷ 3 ∷ 4 ∷ 6 ∷ [])).total_entries ≡ 14
unfolding prepare
total_run = refl

prepare_total_example :
    (prepare ◌==◌ is_archive count (λ p. "p") (λ k. false) (6 ∷ 3 ∷ 4 ∷ 6 ∷ [])).total_entries
    ≡ sum_of ◌==◌ is_archive count (λ p. "p") (6 ∷ 3 ∷ 4 ∷ 6 ∷ [])
prepare_total_example =
    prepare_total ◌==◌ is_archive count (λ p. "p") (λ k. false) (6 ∷ 3 ∷ 4 ∷ 6 ∷ []) (λ k. refl)

prepare-Recorded_example :
    find ◌==◌ 6
      (prepare ◌==◌ is_archive count
        (λ p. "p")
        (λ k. false)
        (6 ∷ 3 ∷ 4 ∷ 6 ∷ [])).planned_entries_by_source
    ≡ some 6
prepare-Recorded_example =
    prepare-Recorded ◌==◌ is_archive count (λ p. "p") ==→eq ==-refl (λ k. false)
      (6 ∷ 3 ∷ 4 ∷ 6 ∷ []) 6 (λ k. refl) (inl refl) refl
