-- ===== src/Trash/Service.antt =====
-- libs/Storage/ManagedTrashService.cpp: where a file goes in the trash. Moves and tests of existence
-- work over a state `W` of the disk; `numbered path n` is the path with ".trashed-n" in its name.
use Prim.Native.Nat.{zero, suc}
use librova.Base.{
  ℕ, Bool, String, true, false, ◌+◌, ◌<◌, ◌==◌, ◌≡◌, ◌⊎◌, if◌then◌else◌, concat, refl, sym, ap, ◌∙◌,
  subst, Bool-cases, inl, inr, arith,
}
use librova.Base.Outcome.{Outcome, ok, err}

pub record TrashMoves (W : Type 0) : Type 0 where
  pub move : String → String → W → Bool × W
  pub path_exists : String → W → Bool
  pub numbered : String → ℕ → String

module _ {W : Type 0} (moves : TrashMoves W) (source template : String) where
  unfoldable pub build_collision_candidate_path : ℕ → String
  build_collision_candidate_path index =
      if index == 0 then template else moves.numbered template index

  -- A round of the loop; `next` are the rounds after it.
  abbrev pub after_attempt : String → Bool × W → (W → Outcome String × W) → Outcome String × W
  after_attempt candidate (true, w) next = (ok candidate, w)
  after_attempt candidate (false, w) next =
      let later = next w in
      if moves.path_exists candidate w
      then later
      else (err (concat "Failed to move file from " (concat source (concat " to " candidate))), w)

  -- The loop with `left` rounds to go.
  unfoldable pub move_to_candidates : ℕ → ℕ → W → Outcome String × W
  unfolding build_collision_candidate_path
  move_to_candidates zero index w = (err "Failed to find a collision-safe trash path.", w)
  move_to_candidates (suc left) index w =
      let candidate = build_collision_candidate_path index in
      after_attempt candidate (moves.move source candidate w) (move_to_candidates left (index + 1))

  -- MoveFileToCollisionSafeDestination, with its 999 rounds.
  unfoldable pub move_file_to_collision_safe_destination : W → Outcome String × W
  unfolding move_to_candidates
  move_file_to_collision_safe_destination w = move_to_candidates 999 0 w

  -- The file cannot be moved to this candidate.
  abbrev pub IsRefused : ℕ → W → Type 0
  IsRefused index w = (moves.move source (build_collision_candidate_path index) w).0 ≡ false

  -- The `k` candidates from `index` on refuse the file and are taken.
  abbrev pub AreTaken : ℕ → ℕ → W → Type 0
  AreTaken zero index w = Unit
  AreTaken (suc k) index w =
      IsRefused index w
      × (moves.path_exists (build_collision_candidate_path index) w ≡ true)
      × AreTaken k (index + 1) w

  -- The file has gone to the first of `left` candidates from `index` on that took it; or nothing has
  -- changed, since all are taken, or since the first that is not taken refused it.
  abbrev pub IsLanded : ℕ → ℕ → W → Outcome String × W → Type 0
  IsLanded left index w (err message, w') =
      (w' ≡ w)
      × (AreTaken left index w
          ⊎ ((k : ℕ) × (k < left)
              × AreTaken k index w
              × IsRefused (index + k) w
              × (moves.path_exists (build_collision_candidate_path (index + k)) w ≡ false)))
  IsLanded left index w (ok path, w') =
      (k : ℕ) × (k < left)
      × (path ≡ build_collision_candidate_path (index + k))
      × AreTaken k index w
      × (moves.move source path w ≡ (true, w'))

  -- A move that fails changes nothing.
  pub record IsRefusing : Type 0 where
    pub refused :
        (path : String) (w : W)
        → (moves.move source path w).0 ≡ false
        → (moves.move source path w).1 ≡ w

  later-IsLanded :
      (left index : ℕ) (w : W) (y : Outcome String × W)
      → IsRefused index w
      → moves.path_exists (build_collision_candidate_path index) w ≡ true
      → IsLanded left (index + 1) w y
      → IsLanded (suc left) index w y
  later-IsLanded left index w (err message, w') refused taken (same, inl all) =
      (same, inl (refused, taken, all))
  later-IsLanded left index w (err message, w') refused taken
        (same, inr (k, less, all, last, free)) =
      let next : (index + 1) + k ≡ index + suc k = omega arith in
      (
        same,
        inr (
          suc k,
          omega arith,
          (refused, taken, all),
          subst (λ i. IsRefused i w) next last,
          subst (λ i. moves.path_exists (build_collision_candidate_path i) w ≡ false) next free,
        ),
      )
  later-IsLanded left index w (ok path, w') refused taken (k, less, same, all, moved) = (
    suc k,
    omega arith,
    same ∙ ap build_collision_candidate_path (omega arith),
    (refused, taken, all),
    moved,
  )

  attempt-IsLanded :
      (refusing : IsRefusing) (left index : ℕ) (w : W) (x : Bool × W)
      (next : W → Outcome String × W)
      → moves.move source (build_collision_candidate_path index) w ≡ x
      → IsLanded left (index + 1) w (next w)
      → IsLanded (suc left) index w (after_attempt (build_collision_candidate_path index) x next)
  attempt-IsLanded refusing left index w (true, w') next same h =
      (0, omega arith, ap build_collision_candidate_path (omega arith), tt, same)
  attempt-IsLanded refusing left index w (false, w') next same h =
      let candidate = build_collision_candidate_path index in
      let refused = ap (λ (x : Bool × W). x.0) same in
      let kept = ap (λ (x : Bool × W). x.1) (sym same) ∙ refusing.refused candidate w refused in
      elim (Bool-cases (moves.path_exists candidate w')) [
        | inl e ↦ rw e (
            later-IsLanded left index w (next w') refused
              (subst (λ u. moves.path_exists candidate u ≡ true) kept e)
              (subst (λ u. IsLanded left (index + 1) w (next u)) (sym kept) h))
        | inr e ↦ rw e (
            let here : index ≡ index + 0 = omega arith in
            (
              kept,
              inr (
                0,
                omega arith,
                tt,
                subst (λ i. IsRefused i w) here refused,
                subst (λ i. moves.path_exists (build_collision_candidate_path i) w ≡ false) here
                    (subst (λ u. moves.path_exists candidate u ≡ false) kept e),
              ),
            ))
      ]

  move_to_candidates-IsLanded :
      (refusing : IsRefusing) (left index : ℕ) (w : W)
      → IsLanded left index w (move_to_candidates left index w)
  unfolding move_to_candidates
  move_to_candidates-IsLanded refusing zero index w = (refl, inl tt)
  move_to_candidates-IsLanded refusing (suc left) index w =
      attempt-IsLanded refusing left index w
        (moves.move source (build_collision_candidate_path index) w)
        (move_to_candidates left (index + 1)) refl
        (move_to_candidates-IsLanded refusing left (index + 1) w)

  -- A file goes to the trash under the first of its 999 candidate names to which it can be moved, and
  -- every candidate before that one refused it and is taken. Or the operation throws and nothing has
  -- changed: all candidates refuse the file and are taken, or one refuses it that is not taken, and
  -- those before it refuse it and are taken. Condition: a move that fails changes nothing.
  pub move_file_to_collision_safe_destination-IsLanded :
      IsRefusing → (w : W) → IsLanded 999 0 w (move_file_to_collision_safe_destination w)
  unfolding move_file_to_collision_safe_destination
  move_file_to_collision_safe_destination-IsLanded refusing w =
      move_to_candidates-IsLanded refusing 999 0 w
