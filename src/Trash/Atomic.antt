-- ===== src/Trash/Atomic.antt =====
-- How the steps of deleting a book may end.
use librova.Base.{
  ℕ, Bool, String, List, Option, [], ◌∷◌, none, some, ◌≡◌, refl, sym, ap, ◌∙◌, inl, inr, Bool-cases,
  str_eq, subst, ◌||◌,
}
use librova.Base.Outcome.{Outcome, ok, err, then_do}
use librova.Rollback.{Book}
use librova.Trash.{
  TrashServices, TrashedBookResult, StagedEntry, restore_staged, restore_and_throw,
  staged_or_restored, stage_path, removed_or_restored, remove_row, recycle, after_recycling,
  move_files, move_found, move_book_to_trash, resolve_cover, is_missing, misses_cover,
}
use librova.Trash.Views.{
  TrashView, IsLawful, AreMoved, IsStuck, Ends, IsTrashed, IsFound, originals, with_path,
}

module _ {W C D : Type 0} (v : TrashView W C D) (services : TrashServices W) where
  module _ (lawful : IsLawful v services) (w0 : W) where
    abbrev Restored : Outcome (Unit {0}) × W → Type 0
    Restored (ok _, w) = (v.catalog w ≡ (v.catalog w0)) × (v.files w ≡ (v.files w0))
    Restored (err message, w) = IsStuck v services (v.catalog w0) message w

    restore_step :
        (e : StagedEntry) (rest : List StagedEntry) (before w : W) (x : Outcome (Unit {0}) × W)
        → services.restore_from_trash e.trashed_path e.original_path w ≡ x
        → v.catalog w ≡ (v.catalog w0)
        → (services.move_to_trash e.original_path before).0 ≡ ok e.trashed_path
        → v.files w ≡ v.files (services.move_to_trash e.original_path before).1
        → AreMoved v services rest (v.files before) (v.files w0)
        → ((w' : W)
            → v.catalog w' ≡ (v.catalog w0)
            → AreMoved v services rest (v.files w') (v.files w0)
            → Restored (restore_staged services rest w'))
        → Restored (then_do x (λ _. restore_staged services rest))
    restore_step e rest before w (ok _, w') same kept moved now older next =
        let files_back =
          ap (λ (y : Outcome (Unit {0}) × W). v.files y.1) (sym same)
          ∙ lawful.restore_undoes e.original_path e.trashed_path before w moved now
              (ap (λ (y : Outcome (Unit {0}) × W). y.0) same) in
        next w'
          (ap (λ (y : Outcome (Unit {0}) × W). v.catalog y.1) (sym same)
            ∙ lawful.restore_catalog e.trashed_path e.original_path w
            ∙ kept)
          (subst (λ f. AreMoved v services rest f (v.files w0)) (sym files_back) older)
    restore_step e rest before w (err message, w') same kept moved now older next = (
      ap (λ (y : Outcome (Unit {0}) × W). v.catalog y.1) (sym same)
          ∙ lawful.restore_catalog e.trashed_path e.original_path w
          ∙ kept,
      (e.trashed_path, e.original_path, w, same),
    )

    restore_staged-Restored :
        (staged : List StagedEntry) (w : W)
        → v.catalog w ≡ (v.catalog w0)
        → AreMoved v services staged (v.files w) (v.files w0)
        → Restored (restore_staged services staged w)
    unfolding restore_staged
    restore_staged-Restored [] w kept moved = (kept, moved)
    restore_staged-Restored (e ∷ rest) w kept (before, moved, now, older) =
        restore_step e rest before w (services.restore_from_trash e.trashed_path e.original_path w)
          refl kept moved now older (restore_staged-Restored rest)

    then_do-Ends :
        {A B : Type 0} (Q : A → W → Type 0) (R : B → W → Type 0) (x : Outcome A × W)
        (f : A → W → Outcome B × W)
        → Ends v services (v.catalog w0) (v.files w0) Q x
        → ((a : A) (w : W) → Q a w → Ends v services (v.catalog w0) (v.files w0) R (f a w))
        → Ends v services (v.catalog w0) (v.files w0) R (then_do x f)
    then_do-Ends Q R (ok a, w) f h next = next a w h
    then_do-Ends Q R (err message, w) f h next = h

    thrown_after :
        {A : Type 0} (Q : A → W → Type 0) (message : String) (x : Outcome (Unit {0}) × W)
        → Restored x
        → Ends v services (v.catalog w0) (v.files w0) Q (then_do x (λ _ w'. (err message, w')))
    thrown_after Q message (ok _, w) h = inl h
    thrown_after Q message (err other, w) h = inr h

    restore_and_throw-Ends :
        {A : Type 0} (Q : A → W → Type 0) (staged : List StagedEntry) (message : String) (w : W)
        → v.catalog w ≡ (v.catalog w0)
        → AreMoved v services staged (v.files w) (v.files w0)
        → Ends v services
            (v.catalog w0)
            (v.files w0)
            Q
            (restore_and_throw services staged message w)
    restore_and_throw-Ends Q staged message w kept moved =
        thrown_after Q message (restore_staged services staged w)
          (restore_staged-Restored staged w kept moved)

    abbrev IsStaged : List String → List StagedEntry → W → Type 0
    IsStaged paths staged w =
        (v.catalog w ≡ v.catalog w0)
        × AreMoved v services staged (v.files w) (v.files w0)
        × (originals v services staged ≡ paths)

    staged_or_restored-Ends :
        (path : String) (paths : List String) (staged : List StagedEntry) (w : W)
        (x : Outcome String × W)
        → services.move_to_trash path w ≡ x
        → IsStaged paths staged w
        → Ends v services
            (v.catalog w0)
            (v.files w0)
            (IsStaged (path ∷ paths))
            (staged_or_restored services path staged x)
    staged_or_restored-Ends path paths staged w (ok trashed, w') same (kept, moved, named) = (
      ap (λ (y : Outcome String × W). v.catalog y.1) (sym same) ∙ lawful.move_catalog path w ∙ kept,
      (
        w,
        ap (λ (y : Outcome String × W). y.0) same,
        ap (λ (y : Outcome String × W). v.files y.1) (sym same),
        moved,
      ),
      ap (λ rest. path ∷ rest) named,
    )
    staged_or_restored-Ends path paths staged w (err message, w') same (kept, moved, named) =
        restore_and_throw-Ends (IsStaged (path ∷ paths)) staged message w'
          (ap (λ (y : Outcome String × W). v.catalog y.1) (sym same)
            ∙ lawful.move_catalog path w
            ∙ kept)
          (subst (λ f. AreMoved v services staged f (v.files w0))
            (sym (
              ap (λ (y : Outcome String × W). v.files y.1) (sym same)
              ∙ lawful.move_refused path w message (ap (λ (y : Outcome String × W). y.0) same)))
            moved)

    stage_path-Ends :
        (o : Option String) (paths : List String) (staged : List StagedEntry) (w : W)
        → IsStaged paths staged w
        → Ends v services
            (v.catalog w0)
            (v.files w0)
            (IsStaged (with_path v services o paths))
            (stage_path services o staged w)
    unfolding stage_path
    stage_path-Ends none paths staged w h = h
    stage_path-Ends (some path) paths staged w h =
        staged_or_restored-Ends path paths staged w (services.move_to_trash path w) refl h

    abbrev IsRemoved : ℕ → List String → List StagedEntry → W → Type 0
    IsRemoved id paths staged w =
        (v.catalog w ≡ v.without id (v.catalog w0))
        × AreMoved v services staged (v.files w) (v.files w0)
        × (originals v services staged ≡ paths)

    removed_or_restored-Ends :
        (id : ℕ) (paths : List String) (staged : List StagedEntry) (w : W)
        (x : Outcome (Unit {0}) × W)
        → services.remove id w ≡ x
        → IsStaged paths staged w
        → Ends v services
            (v.catalog w0)
            (v.files w0)
            (IsRemoved id paths)
            (removed_or_restored services staged x)
    removed_or_restored-Ends id paths staged w (ok _, w') same (kept, moved, named) = (
      ap (λ (y : Outcome (Unit {0}) × W). v.catalog y.1) (sym same)
          ∙ lawful.remove_done id w (ap (λ (y : Outcome (Unit {0}) × W). y.0) same)
          ∙ ap (v.without id) kept,
      subst (λ f. AreMoved v services staged f (v.files w0))
          (sym (
            ap (λ (y : Outcome (Unit {0}) × W). v.files y.1) (sym same) ∙ lawful.remove_files id w))
          moved,
      named,
    )
    removed_or_restored-Ends id paths staged w (err message, w') same (kept, moved, named) =
        restore_and_throw-Ends (IsRemoved id paths) staged message w'
          (ap (λ (y : Outcome (Unit {0}) × W). v.catalog y.1) (sym same)
            ∙ lawful.remove_refused id w message (ap (λ (y : Outcome (Unit {0}) × W). y.0) same)
            ∙ kept)
          (subst (λ f. AreMoved v services staged f (v.files w0))
            (sym (
              ap (λ (y : Outcome (Unit {0}) × W). v.files y.1) (sym same)
              ∙ lawful.remove_files id w))
            moved)

    abbrev Recycled : ℕ → Option TrashedBookResult → W → Type 0
    Recycled id o w = IsTrashed v services id w0 o w

    after_recycling-Ends :
        (id : ℕ) (bin : List String → W → Outcome (Unit {0}) × W) (paths : List String)
        (orphaned : Bool) (found : List String) (staged : List StagedEntry) (w : W)
        (x : Outcome (Unit {0}) × W)
        → services.move_to_recycle_bin ≡ some bin
        → bin paths w ≡ x
        → IsFound v services id found w0
        → IsRemoved id found staged w
        → Ends v services
            (v.catalog w0)
            (v.files w0)
            (Recycled id)
            (after_recycling services id paths orphaned x)
    after_recycling-Ends id bin paths orphaned found staged w (ok _, w') is_bin same is_found
          (kept, moved, named) =
        (
          refl,
          lawful.cleanup_catalog paths w'
              ∙ ap (λ (y : Outcome (Unit {0}) × W). v.catalog y.1) (sym same)
              ∙ lawful.bin_catalog bin paths w is_bin
              ∙ kept,
          (
            staged,
            subst (λ ps. IsFound v services id ps w0) (sym named) is_found,
            subst (λ f. AreMoved v services staged f (v.files w0))
                (sym (
                  lawful.cleanup_files paths w'
                  ∙ ap (λ (y : Outcome (Unit {0}) × W). v.files y.1) (sym same)
                  ∙ lawful.bin_files bin paths w is_bin))
                moved,
          ),
        )
    after_recycling-Ends id bin paths orphaned found staged w (err message, w') is_bin same is_found
          (kept, moved, named) =
        (
          refl,
          ap (λ (y : Outcome (Unit {0}) × W). v.catalog y.1) (sym same)
              ∙ lawful.bin_catalog bin paths w is_bin
              ∙ kept,
          (
            staged,
            subst (λ ps. IsFound v services id ps w0) (sym named) is_found,
            subst (λ f. AreMoved v services staged f (v.files w0))
                (sym (
                  ap (λ (y : Outcome (Unit {0}) × W). v.files y.1) (sym same)
                  ∙ lawful.bin_files bin paths w is_bin))
                moved,
          ),
        )

    recycle-Ends :
        (id : ℕ) (o : Option (List String → W → Outcome (Unit {0}) × W)) (paths : List String)
        (orphaned : Bool) (found : List String) (staged : List StagedEntry) (w : W)
        → services.move_to_recycle_bin ≡ o
        → IsFound v services id found w0
        → IsRemoved id found staged w
        → Ends v services
            (v.catalog w0)
            (v.files w0)
            (Recycled id)
            (recycle services id o paths orphaned w)
    unfolding recycle
    recycle-Ends id none paths orphaned found staged w e is_found (kept, moved, named) = (
      refl,
      kept,
      (staged, subst (λ ps. IsFound v services id ps w0) (sym named) is_found, moved),
    )
    recycle-Ends id (some bin) [] orphaned found staged w e is_found (kept, moved, named) = (
      refl,
      kept,
      (staged, subst (λ ps. IsFound v services id ps w0) (sym named) is_found, moved),
    )
    recycle-Ends id (some bin) (path ∷ rest) orphaned found staged w e is_found h =
        after_recycling-Ends id bin (path ∷ rest) orphaned found staged w (bin (path ∷ rest) w) e
          refl is_found h

    move_files-Ends :
        (id : ℕ) (book cover : Option String) (missing : Bool)
        → IsFound v services id (with_path v services cover (with_path v services book [])) w0
        → Ends v services
            (v.catalog w0)
            (v.files w0)
            (Recycled id)
            (move_files services id book cover missing w0)
    unfolding move_files remove_row
    move_files-Ends id book cover missing is_found =
        let first = with_path v services book [] in
        let all = with_path v services cover first in
        then_do-Ends (IsStaged first) (Recycled id) (stage_path services book [] w0) _
          (stage_path-Ends book [] [] w0 (refl, refl, refl))
          (λ staged w1 h1.
            then_do-Ends (IsStaged all) (Recycled id) (stage_path services cover staged w1) _
              (stage_path-Ends cover first staged w1 h1)
              (λ staged' w2 h2.
                then_do-Ends (IsRemoved id all) (Recycled id)
                  (removed_or_restored services staged' (services.remove id w2)) _
                  (removed_or_restored-Ends id all staged' w2 (services.remove id w2) refl h2)
                  (λ moved w3 h3.
                    recycle-Ends id services.move_to_recycle_bin _ missing all moved w3 refl
                      is_found h3)))

    -- A step that only reads.
    read-Ends :
        {A B : Type 0} (R : B → W → Type 0) (o : Outcome A) (f : A → W → Outcome B × W)
        → ((a : A) → o ≡ ok a → Ends v services (v.catalog w0) (v.files w0) R (f a w0))
        → Ends v services (v.catalog w0) (v.files w0) R (then_do (o, w0) f)
    read-Ends R (ok a) f next = next a refl
    read-Ends R (err message) f next = inl (refl, refl)

    resolve_cover-Ends :
        {B : Type 0} (R : B → W → Type 0) (o : Option String)
        (f : Option String → W → Outcome B × W)
        → ((cover : Option String)
            → (resolve_cover services o w0).0 ≡ ok cover
            → Ends v services (v.catalog w0) (v.files w0) R (f cover w0))
        → Ends v services (v.catalog w0) (v.files w0) R (then_do (resolve_cover services o w0) f)
    resolve_cover-Ends R none f next = next none refl
    resolve_cover-Ends R (some path) f next = read-Ends R (services.resolve path w0) f next

    move_found-Ends :
        (id : ℕ) (o : Option Book)
        → services.get_by_id id w0 ≡ ok o
        → Ends v services (v.catalog w0) (v.files w0) (Recycled id) (move_found services id o w0)
    unfolding move_found
    move_found-Ends id none e = (e, refl, refl)
    move_found-Ends id (some book) e = elim (Bool-cases (str_eq book.managed_path "")) [
      | inl unset ↦ rw unset (inl (refl, refl))
      | inr set ↦ rw set (
          read-Ends (Recycled id) (services.resolve book.managed_path w0) _ (λ source is_source.
            resolve_cover-Ends (Recycled id) book.cover_path _ (λ cover is_cover.
              move_files-Ends id source cover
                (is_missing services source || misses_cover services book.cover_path cover)
                (book, source, cover, e, is_source, is_cover, refl))))
    ]

  -- Moving a book to the trash is atomic. When it returns, the book was not in the catalog and nothing
  -- has changed; or its row is gone, and of its files exactly those are moved to the trash that exist:
  -- the book's, and its cover's if it has one. When it throws, whatever step failed, the catalog and
  -- the files are as they were, unless restoring a staged file failed; then the catalog is as it was
  -- and the exception is that of the restoration. Condition: the services are lawful.
  pub move_book_to_trash-Ends :
      (lawful : IsLawful v services) (id : ℕ) (w : W)
      → Ends v services
          (v.catalog w)
          (v.files w)
          (IsTrashed v services id w)
          (move_book_to_trash services id w)
  unfolding move_book_to_trash
  move_book_to_trash-Ends lawful id w =
      read-Ends lawful w (IsTrashed v services id w) (services.get_by_id id w) _
        (λ o e. move_found-Ends lawful w id o e)
