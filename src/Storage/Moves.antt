-- ===== src/Storage/Moves.antt =====
-- CommitImport moves a file: a rename, or a copy and a removal.
use librova.Base.{String, Option, false, none, some, ◌≡◌, refl, sym, ap, ◌∙◌, inl, inr, str_eq}
use librova.Base.Outcome.{Outcome, ok, err, then_do}
use librova.Storage.{FileSystem, move_file, place_file, after_rename, after_copy}
use librova.Storage.Views.{DiskView, IsLawful, IsKept, NeedsCopy, IsMove}

module _ {W C : Type 0} (v : DiskView W C) (system : FileSystem W)
    (lawful : IsLawful v system) where
  after_copy-IsMove :
      (a b : String) (c : C) (w w1 : W) (message : String) (x : Option String × W)
      → v.content a w1 ≡ some c
      → ((path : String) → IsKept v system w w1 path)
      → NeedsCopy v system a b
      → str_eq b a ≡ false
      → system.copy_file a b w1 ≡ x
      → IsMove v system a b c w (after_copy system a b message x)
  after_copy-IsMove a b c w w1 message (none, w2) held kept needs differ same =
      let world : (system.copy_file a b w1).1 ≡ w2 = ap (λ (x : Option String × W). x.1) same in
      let done = ap (λ (x : Option String × W). x.0) same in
      (
        lawful.remove_kept a b w2 differ
            ∙ sym (ap (v.content b) world)
            ∙ lawful.copy_done a b c w1 held done,
        λ path (not_a, not_b).
            lawful.remove_kept a path w2 not_a
            ∙ sym (ap (v.content path) world)
            ∙ lawful.copy_kept a b path w1 not_b
            ∙ kept path,
        inr needs,
      )
  after_copy-IsMove a b c w w1 message (some copied, w2) held kept needs differ same = (
    λ path not_b.
        sym (ap (λ (x : Option String × W). v.content path x.1) same)
        ∙ lawful.copy_kept a b path w1 not_b
        ∙ kept path,
    inr needs,
  )

  after_rename-IsMove :
      (a b : String) (c : C) (w w1 : W) (x : Option String × W)
      → v.content a w1 ≡ some c
      → ((path : String) → IsKept v system w w1 path)
      → str_eq a b ≡ false
      → str_eq b a ≡ false
      → system.rename a b w1 ≡ x
      → IsMove v system a b c w (after_rename system a b x)
  after_rename-IsMove a b c w w1 (none, w2) held kept differ differ' same =
      let done =
        lawful.rename_done a b c w1 held differ (ap (λ (x : Option String × W). x.0) same) in
      let world : (system.rename a b w1).1 ≡ w2 = ap (λ (x : Option String × W). x.1) same in
      (
        sym (ap (v.content b) world) ∙ done.0,
        λ path other. sym (ap (v.content path) world) ∙ done.2 path other ∙ kept path,
        inl (sym (ap (v.content a) world) ∙ done.1),
      )
  after_rename-IsMove a b c w w1 (some message, w2) held kept differ differ' same =
      let refused = ap (λ (x : Option String × W). x.0) same in
      let unchanged : (path : String) → IsKept v system w1 w2 path = λ path.
        sym (ap (λ (x : Option String × W). v.content path x.1) same)
        ∙ lawful.rename_refused a b message path w1 refused in
      after_copy-IsMove a b c w w2 message (system.copy_file a b w2) (unchanged a ∙ held)
        (λ path. unchanged path ∙ kept path) (w1, message, refused) differ' refl

  ensured-IsMove :
      (a b : String) (c : C) (w : W) (x : Outcome (Unit {0}) × W)
      → ((path : String) → IsKept v system w x.1 path)
      → v.content a w ≡ some c
      → str_eq a b ≡ false
      → str_eq b a ≡ false
      → IsMove v system a b c w (then_do x (λ _. move_file system a b))
  unfolding move_file
  ensured-IsMove a b c w (err message, w1) kept held differ differ' =
      (λ path other. kept path, inl (kept b))
  ensured-IsMove a b c w (ok _, w1) kept held differ differ' =
      after_rename-IsMove a b c w w1 (system.rename a b w1) (kept a ∙ held) kept differ differ' refl

  pub place_file-IsMove :
      (a b : String) (c : C) (w : W)
      → v.content a w ≡ some c
      → str_eq a b ≡ false
      → str_eq b a ≡ false
      → IsMove v system a b c w (place_file system a b w)
  unfolding place_file
  place_file-IsMove a b c w =
      ensured-IsMove a b c w (system.ensure_directory (system.parent_path b) w)
        (λ path. lawful.ensure_content (system.parent_path b) path w)
