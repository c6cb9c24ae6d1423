-- ===== src/Progress/Percent.antt =====
-- The percentage never leaves 0..100, never falls, and passes from source to source without a jump.
use native.Mathlib.Nat.{le-div_iff_mul-le, div-mul-le_self, le_trans}
use librova.Progress.{
  ℤ, map_percent, ScopedProgress, clamp_percent, scoped_progress, pos, scaled_progress, negsuc,
  denominator,
}
use librova.Base.{◌≤◌, ◌<◌, arith, ℕ, ◌^◌, ◌+◌, ◌≡◌, ◌*◌, max, ap, min, ◌/◌, ◌∙◌}

-- `a <= b` on `int`.
abbrev pub LeInt : ℤ → ℤ → Type 0
LeInt (pos m) (pos n) = m ≤ n
LeInt (negsuc m) (pos n) = Unit {0}
LeInt (pos m) (negsuc n) = ⊥
LeInt (negsuc m) (negsuc n) = n ≤ m

clamp_percent_mono : (p q : ℤ) → LeInt p q → clamp_percent p ≤ clamp_percent q
clamp_percent_mono (pos m) (pos n) h = omega arith
clamp_percent_mono (negsuc m) (pos n) h = omega arith
clamp_percent_mono (pos m) (negsuc n) h = absurd h
clamp_percent_mono (negsuc m) (negsuc n) h = omega arith

div_mono : (x y d : ℕ) → 0 < d → x ≤ y → x / d ≤ y / d
div_mono x y d h l = (le-div_iff_mul-le h).1 (le_trans (div-mul-le_self x d) l)

scaled_progress_mono :
    (s : ScopedProgress) (a b : ℕ) → a ≤ b → scaled_progress s a ≤ scaled_progress s b
scaled_progress_mono s a b h = grind arith

-- The mapped percentage is at most 100, and grows with the percentage of the source.
pub map_percent_mono :
    (s : ScopedProgress) (p q : ℤ)
    → LeInt p q
    → (map_percent s p ≤ map_percent s q) × (map_percent s q ≤ 100)
unfolding map_percent
map_percent_mono s p q h = (
  omega (
    arith,
    div_mono (scaled_progress s (clamp_percent p) * 100) (scaled_progress s (clamp_percent q) * 100)
        (denominator s) (omega arith)
        (omega (
          arith,
          scaled_progress_mono s (clamp_percent p) (clamp_percent q) (clamp_percent_mono p q h),
        )),
  ),
  omega arith,
)

-- Where one source ends, at 100 percent or more, the next begins, at 0 percent or less: the overall
-- percentage is the same, if the next source starts from what was processed before and the first
-- source's own contribution.
pub map_percent_handover :
    (total processed contribution next_contribution i f k i' f' k' p n : ℕ)
    → 100 ≤ p
    → map_percent (scoped_progress total processed contribution i f k) (pos p)
      ≡ map_percent
          (scoped_progress total (processed + max contribution 1) next_contribution i' f' k')
          (negsuc n)
unfolding map_percent scoped_progress
map_percent_handover total processed contribution next_contribution i f k i' f' k' p n h =
    let full : clamp_percent (pos p) ≡ 100 = omega arith in
    ap (λ t. min (t * 100 / (max total 1 * 100)) 100)
      (ap (λ c. processed * 100 + max contribution 1 * c) full ∙ grind arith)

-- When a source brings the processed entries to the total, its end is 100 percent overall.
map_percent_complete :
    (total processed contribution i f k p : ℕ)
    → 0 < total
    → total ≤ processed + contribution
    → 100 ≤ p
    → map_percent (scoped_progress total processed contribution i f k) (pos p) ≡ 100
unfolding map_percent scoped_progress
map_percent_complete total processed contribution i f k p t h e =
    let full : clamp_percent (pos p) ≡ 100 = omega arith in
    let enough : 100 * (max total 1 * 100) ≤ (processed * 100 + max contribution 1 * 100) * 100 =
      omega arith in
    let quotient : 100 ≤ (processed * 100 + max contribution 1 * 100) * 100 / (max total 1 * 100) =
      (le-div_iff_mul-le (omega arith)).1 enough in
    rw full (omega (arith, quotient))

-- With counts below 2^48 every intermediate value fits a signed 64-bit integer.
pub counts_fit :
    (s : ScopedProgress) (p : ℤ)
    → s.total_entries < 2 ^ 48
    → s.processed_entries < 2 ^ 48
    → s.contribution_entries < 2 ^ 48
    → (scaled_progress s (clamp_percent p) * 100 < 2 ^ 63) × (denominator s < 2 ^ 63)
counts_fit s p t q c =
    let small : clamp_percent p ≤ 100 = ground arith in (grind (arith, small), omega arith)
