-- ===== src/Trash/Examples.antt =====
-- A library of one book, "b", with a cover, "c"; the world says what is still in its place. The cover
-- of book 2 cannot be moved.
use librova.Base.{
  Bool-cases, inl, inr, ◌≡◌, ℕ, String, List, Bool, true, false, some, refl, ap, ap₂, subst,
  some-injective, ◌∙◌, if◌then◌else◌, str_eq, ◌==◌, sym,
}
use librova.Base.Outcome.{Outcome, ok, err}
use librova.Rollback.{Book}
use librova.Trash.{TrashServices, move_book_to_trash, recycle_bin}
use librova.Trash.Service.{
  TrashMoves, IsRefusing, IsLanded, move_file_to_collision_safe_destination,
  move_file_to_collision_safe_destination-IsLanded,
}
use librova.Trash.Views.{TrashView, IsLawful, Ends, IsTrashed}
use librova.Trash.Atomic.{move_book_to_trash-Ends}

record World : Type 0 where
  row : Bool
  book : Bool
  cover : Bool

data Place : Type 0 where
  book_place cover_place elsewhere : Place

abbrev place_of : String → Place
place_of path =
    if str_eq path "b" then book_place else if str_eq path "c" then cover_place else elsewhere

abbrev moved_if : Bool → String → World → World → Outcome String × World
moved_if true trashed moved w = (ok trashed, moved)
moved_if false trashed moved w = (err "missing", w)

abbrev move_at : Place → World → Outcome String × World
move_at book_place w = moved_if w.book "Trash/b" (record w { book = false }) w
move_at cover_place w = moved_if w.cover "Trash/c" (record w { cover = false }) w
move_at elsewhere w = (err "cannot be moved", w)

abbrev restore_at : Place → World → Outcome (Unit {0}) × World
restore_at book_place w = (ok tt, record w { book = true })
restore_at cover_place w = (ok tt, record w { cover = true })
restore_at elsewhere w = (err "cannot be moved", w)

abbrev book_of : ℕ → Book
book_of id = record { cover_path = some (if id == 1 then "c" else "x"); managed_path = "b" }

abbrev Bin : Type 0
Bin = List String → World → Outcome (Unit {0}) × World

abbrev keep_all : Bin
keep_all paths w = (ok tt, w)

abbrev sample : TrashServices World
sample = record {
  get_by_id = λ id w. ok (some (book_of id));
  remove = λ id w. (ok tt, record w { row = false });
  resolve = λ path w. ok (some path);
  move_to_trash = λ path w. move_at (place_of path) w;
  restore_from_trash = λ trashed path w. restore_at (place_of path) w;
  move_to_recycle_bin = some keep_all;
  cleanup_directories = λ paths w. w;
  path_exists = λ path w. true;
}

abbrev view : TrashView World Bool (Bool × Bool)
view = record { catalog = λ w. w.row; files = λ w. (w.book, w.cover); without = λ id c. false }

moved_if_row :
    (b : Bool) (trashed : String) (moved w : World)
    → moved.row ≡ w.row
    → (moved_if b trashed moved w).1.row ≡ w.row
moved_if_row true trashed moved w e = e
moved_if_row false trashed moved w e = refl

moved_if_refused :
    (b : Bool) (trashed message : String) (moved w : World)
    → (moved_if b trashed moved w).0 ≡ err message
    → (moved_if b trashed moved w).1 ≡ w
moved_if_refused true trashed message moved w e = cc
moved_if_refused false trashed message moved w e = refl

moved_if_done :
    (b : Bool) (trashed t : String) (moved w : World)
    → (moved_if b trashed moved w).0 ≡ ok t
    → (b ≡ true) × ((moved_if b trashed moved w).1 ≡ moved)
moved_if_done true trashed t moved w e = (refl, refl)
moved_if_done false trashed t moved w e = cc

move_row : (p : Place) (w : World) → (move_at p w).1.row ≡ w.row
move_row book_place w = moved_if_row w.book _ _ w refl
move_row cover_place w = moved_if_row w.cover _ _ w refl
move_row elsewhere w = refl

move_refused_at :
    (p : Place) (w : World) (message : String)
    → (move_at p w).0 ≡ err message
    → view.files (move_at p w).1 ≡ view.files w
move_refused_at book_place w message e = ap view.files (moved_if_refused w.book _ message _ w e)
move_refused_at cover_place w message e = ap view.files (moved_if_refused w.cover _ message _ w e)
move_refused_at elsewhere w message e = refl

restore_row : (p : Place) (w : World) → (restore_at p w).1.row ≡ w.row
restore_row book_place w = refl
restore_row cover_place w = refl
restore_row elsewhere w = refl

restore_undoes_at :
    (p : Place) (trashed : String) (before w : World)
    → (move_at p before).0 ≡ ok trashed
    → view.files w ≡ view.files (move_at p before).1
    → (restore_at p w).0 ≡ ok tt
    → view.files (restore_at p w).1 ≡ view.files before
restore_undoes_at book_place trashed before w e same done =
    let (there, moved) = moved_if_done before.book _ trashed _ before e in
    ap₂ (λ (x y : Bool). (x, y)) (sym there)
      (ap (λ (d : Bool × Bool). d.1) (same ∙ ap view.files moved))
restore_undoes_at cover_place trashed before w e same done =
    let (there, moved) = moved_if_done before.cover _ trashed _ before e in
    ap₂ (λ (x y : Bool). (x, y)) (ap (λ (d : Bool × Bool). d.0) (same ∙ ap view.files moved))
      (sym there)
restore_undoes_at elsewhere trashed before w e same done = cc

sample-IsLawful : IsLawful view sample
sample-IsLawful = record {
  move_catalog = λ path w. move_row (place_of path) w;
  move_refused = λ path w message e. move_refused_at (place_of path) w message e;
  restore_catalog = λ trashed path w. restore_row (place_of path) w;
  restore_undoes = λ path trashed before w. restore_undoes_at (place_of path) trashed before w;
  remove_files = λ id w. refl;
  remove_refused = λ id w message e. absurd (cc);
  remove_done = λ id w e. refl;
  bin_catalog = λ bin paths w e.
      subst (λ (f : Bin). (f paths w).1.row ≡ w.row) (some-injective keep_all bin e) refl;
  bin_files = λ bin paths w e.
      subst (λ (f : Bin). view.files (f paths w).1 ≡ view.files w) (some-injective keep_all bin e)
        refl;
  cleanup_catalog = λ paths w. refl;
  cleanup_files = λ paths w. refl;
}

abbrev library : World
library = record { row = true; book = true; cover = true }

move_one :
    (move_book_to_trash sample 1 library).0
    ≡ ok (some (record { book_id = 1; destination = recycle_bin; has_orphaned_files = false }))
unfolding move_book_to_trash
move_one = refl

-- The book is moved, its cover is not, and then the book is restored.
move_two : move_book_to_trash sample 2 library ≡ (err "cannot be moved", library)
unfolding move_book_to_trash
move_two = refl

move_book_to_trash-Ends_example :
    Ends view sample true
      (true, true)
      (IsTrashed view sample 2 library)
      (move_book_to_trash sample 2 library)
move_book_to_trash-Ends_example = move_book_to_trash-Ends view sample sample-IsLawful 2 library

-- A trash with a file of the same name; the world says where the deleted book is.
abbrev moves : TrashMoves String
moves = record {
  move = λ source destination w.
      if str_eq destination "Trash/b" then (false, w) else (true, destination);
  path_exists = λ path w. str_eq path "Trash/b";
  numbered = λ path n. "Trash/b.trashed-1";
}

moves-IsRefusing : IsRefusing moves "b" "Trash/b"
moves-IsRefusing = record { refused = refused_move }
  where
    refused_move :
        (path : String) (w : String)
        → (moves.move "b" path w).0 ≡ false
        → (moves.move "b" path w).1 ≡ w
    refused_move path w = elim (Bool-cases (str_eq path "Trash/b")) [
      | inl e ↦ rw e (λ same. refl)
      | inr e ↦ rw e (λ same. cc)
    ]

move_numbered :
    move_file_to_collision_safe_destination moves "b" "Trash/b" "b"
    ≡ (ok "Trash/b.trashed-1", "Trash/b.trashed-1")
unfolding move_file_to_collision_safe_destination
move_numbered = refl

move_file_to_collision_safe_destination-IsLanded_example :
    IsLanded moves "b" "Trash/b" 999 0 "b"
      (move_file_to_collision_safe_destination moves "b" "Trash/b" "b")
move_file_to_collision_safe_destination-IsLanded_example =
    move_file_to_collision_safe_destination-IsLanded moves "b" "Trash/b" moves-IsRefusing "b"
