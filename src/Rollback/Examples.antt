-- ===== src/Rollback/Examples.antt =====
-- A library of three imported books, of which the second is locked and the third cannot be read.
use librova.Base.{
  ◌⊎◌, ◌≡◌, List, ℕ, if◌then◌else◌, none, ◌==◌, some, false, true, Bool-cases, ◌∷◌, inl, arith, [],
  inr, refl, subst, Bool, str_eq, sym, true≢false, some-injective,
}
use librova.Rollback.{Catalog, Cleanup, contains, RollbackResult, BookPaths}
use librova.Rollback.Phases.{rollback_imported_books, collect, remove_books, clean_books}
use librova.Base.Outcome.{Outcome, ok, err}
use librova.Rollback.Phases.Lossless.{rollback_imported_books_lossless}
use librova.Rollback.Phases.Sound.{rollback_imported_books_sound, IsUnreadable, IsIrremovable}
use librova.Rollback.Phases.Cleaning.{clean_books-keeps}

-- The ids in the catalog.
abbrev World : Type 0
World = List ℕ

abbrev without : ℕ → World → World
without id [] = []
without id (x ∷ rest) = let others = without id rest in if id == x then others else x ∷ others

abbrev locked : ℕ → Outcome (Unit {0})
locked id = if id == 2 then err "database is locked" else ok tt

abbrev remove_one : ℕ → World → Outcome (Unit {0}) × World
remove_one id w = (locked id, if id == 2 then w else without id w)

-- A batch of more than one book fails as a whole.
abbrev remove_all : List ℕ → World → Outcome (Unit {0}) × World
remove_all [] w = (ok tt, w)
remove_all (id ∷ []) w = remove_one id w
remove_all (id ∷ other ∷ rest) w = (err "database is locked", w)

abbrev sample_catalog : Catalog World
sample_catalog = record {
  get_by_id = λ id w.
      if id == 3
      then err "disk error"
      else ok (some (record { cover_path = some "c.jpg"; managed_path = "b.fb2" }));
  remove = remove_one;
  remove_batch = remove_all;
}

abbrev sample_cleanup : Cleanup World
sample_cleanup = record {
  cleanup_path = λ path w. (none, w);
  cleanup_directory = λ id w. (some "directory not empty", w);
}

contains-without : (id : ℕ) (w : World) → contains id (without id w) ≡ false
contains-without id [] = refl
contains-without id (y ∷ w) = elim (Bool-cases (id == y)) [
  | inl e ↦ rw e (contains-without id w)
  | inr e ↦ rw e (grind (arith, contains-without id w))
]

contains-without_other :
    (id x : ℕ) (w : World) → contains x w ≡ false → contains x (without id w) ≡ false
contains-without_other id x [] h = refl
contains-without_other id x (y ∷ w) h =
    let later = contains-without_other id x w (ground arith) in
    elim (Bool-cases (id == y)) [ inl e ↦ rw e later | inr e ↦ rw e (ground arith) ]

remove_one-gone :
    (id : ℕ) (w : World) → (remove_one id w).0 ≡ ok tt → contains id (remove_one id w).1 ≡ false
remove_one-gone id w h = elim (Bool-cases (id == 2)) [
  | inl e ↦ absurd (ground arith)
  | inr e ↦ rw e (contains-without id w)
]

remove_one-stays :
    (id x : ℕ) (w : World) → contains x w ≡ false → contains x (remove_one id w).1 ≡ false
remove_one-stays id x w h = elim (Bool-cases (id == 2)) [
  | inl e ↦ rw e h
  | inr e ↦ rw e (contains-without_other id x w h)
]

remove_all-gone :
    (list : List ℕ) (x : ℕ) (w : World)
    → contains x list ≡ true
    → (remove_all list w).0 ≡ ok tt
    → contains x (remove_all list w).1 ≡ false
remove_all-gone [] x w h e = cc
remove_all-gone (id ∷ []) x w h e =
    subst (λ y. contains y (remove_one id w).1 ≡ false) (sym (ground arith))
      (remove_one-gone id w e)
remove_all-gone (id ∷ other ∷ rest) x w h e = cc

abbrev rolled_back : RollbackResult × World × List (ℕ × ℕ)
rolled_back =
    rollback_imported_books (λ n. "n") sample_catalog sample_cleanup (λ n. false) (1 ∷ 2 ∷ 3 ∷ [])
      (1 ∷ 2 ∷ 3 ∷ 4 ∷ [])

-- Books 2 and 3 remain, and the progress is reported at the first book and at the last.
rolled_back-world : rolled_back.1 ≡ 2 ∷ 3 ∷ 4 ∷ []
unfolding rollback_imported_books collect remove_books clean_books
rolled_back-world = refl

rolled_back-reports : rolled_back.2 ≡ (1, 3) ∷ (2, 3) ∷ []
unfolding rollback_imported_books collect remove_books clean_books
rolled_back-reports = refl

rollback_imported_books_lossless_example : contains 2 rolled_back.0.remaining_book_ids ≡ true
unfolding rollback_imported_books collect remove_books clean_books
rollback_imported_books_lossless_example =
    rollback_imported_books_lossless (λ n. "n") sample_catalog sample_cleanup (λ n. false) contains
      remove_one-gone remove_one-stays remove_all-gone (λ path x w h. h) (λ id x w h. h)
      (1 ∷ 2 ∷ 3 ∷ []) (1 ∷ 2 ∷ 3 ∷ 4 ∷ []) 2 refl refl

rollback_imported_books_sound_example :
    (contains 2 (1 ∷ 2 ∷ 3 ∷ []) ≡ true)
    × (IsUnreadable (λ n. "n") sample_catalog 2 (1 ∷ 2 ∷ 3 ∷ 4 ∷ [])
        ⊎ IsIrremovable (λ n. "n") sample_catalog 2)
unfolding rollback_imported_books collect remove_books clean_books
rollback_imported_books_sound_example =
    rollback_imported_books_sound (λ n. "n") sample_catalog sample_cleanup (λ n. false)
      (1 ∷ 2 ∷ 3 ∷ []) (1 ∷ 2 ∷ 3 ∷ 4 ∷ []) 2 refl

-- The cover and the file of a book whose removal failed stay, here the ones of book 2.
abbrev two_books : List BookPaths
two_books =
    record { id = 2; cover_path = some "two.jpg"; book_file_path = some "two.fb2" }
    ∷ record { id = 1; cover_path = some "one.jpg"; book_file_path = none }
    ∷ []

abbrev FileWorld : Type 0
FileWorld = Bool × Bool

-- The first flag is whether two.jpg is there, the second whether one.jpg is.
abbrev unlink : Cleanup FileWorld
unlink = record {
  cleanup_path =
      λ path w. if str_eq path "two.jpg" then (none, (false, w.1)) else (none, (w.0, false));
  cleanup_directory = λ id w. (none, w);
}

clean_books-keeps_example :
    (clean_books unlink
      (λ n. false)
      2
      2
      (2 ∷ [])
      two_books
      (record {
        world = (true, true);
        remaining = [];
        residue = false;
        warnings = [];
        rolled_back = 0;
        reports = [];
      })).world.0
    ≡ true
clean_books-keeps_example =
    clean_books-keeps unlink (λ w. w.0 ≡ true) (λ n. false) 2 2 (2 ∷ []) two_books
      (record {
        world = (true, true);
        remaining = [];
        residue = false;
        warnings = [];
        rolled_back = 0;
        reports = [];
      })
      (
        (λ kept. absurd (true≢false kept)),
        (
          (λ _. (
            λ path e w h.
                subst (λ q. (unlink.cleanup_path q w).1.0 ≡ true) (some-injective "one.jpg" path e)
                  h,
            λ path e w h. absurd (cc),
            λ w h. h,
          )),
          tt,
        ),
      )
      refl
