-- ===== src/Catalog/Batch.antt =====
-- What RemoveBatch of IBookRepository promises to the rollback.
use librova.Base.{
  ◌≡◌, List, ℕ, Bool, false, true, [], ◌⊎◌, inl, inr, ◌∷◌, arith, refl, Bool-cases, ◌==◌, subst,
  sym, ==→eq,
}
use librova.Catalog.{BookRepository, remove_batch, after_removal}
use librova.Base.Outcome.{ok, Outcome, err}
use librova.Rollback.{contains}

module _ {W B : Type 0} (repository : BookRepository W B) where
  after_removal-ok :
      (o : Outcome (Unit {0})) (after : W) (later : Outcome (Unit {0}) × W)
      → (after_removal repository o after later).0 ≡ ok tt
      → (o ≡ ok tt) × (later.0 ≡ ok tt) × ((after_removal repository o after later).1 ≡ later.1)
  unfolding after_removal
  after_removal-ok (ok tt) after later e = (refl, e, refl)
  after_removal-ok (err message) after later e = cc

  -- RemoveBatch that returns has taken every listed book out, if a removal that succeeds takes its
  -- book out and no removal brings one in: what the rollback relies on.
  pub remove_batch-gone :
      (present : ℕ → W → Bool)
      → ((id : ℕ) (w : W)
          → (repository.remove id w).0 ≡ ok tt
          → present id (repository.remove id w).1 ≡ false)
      → ((id x : ℕ) (w : W) → present x w ≡ false → present x (repository.remove id w).1 ≡ false)
      → (list : List ℕ) (x : ℕ) (w : W) → (contains x list ≡ true) ⊎ (present x w ≡ false)
      → (remove_batch repository list w).0 ≡ ok tt
      → present x (remove_batch repository list w).1 ≡ false
  unfolding remove_batch
  remove_batch-gone present gone stays [] x w (inl listed) e = cc
  remove_batch-gone present gone stays [] x w (inr out) e = out
  remove_batch-gone present gone stays (id ∷ rest) x w h e =
      let (o, after) = repository.remove id w in
      let (done, rest_done, same) =
        after_removal-ok o after (remove_batch repository rest after) e in
      rw same (
        remove_batch-gone present gone stays rest x after
          (elim (Bool-cases (x == id)) [
            | inl at ↦
                inr (subst (λ y. present y after ≡ false) (sym (==→eq x id at)) (gone id w done))
            | inr other ↦ elim h [
              | inl listed ↦ inl (ground arith)
              | inr out ↦ inr (stays id x w out)
            ]
          ])
          rest_done)
