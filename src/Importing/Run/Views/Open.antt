-- ===== src/Importing/Run/Views/Open.antt =====
-- What holds from the start of an import, in the world `w0`, until its book is in the catalog: the
-- catalog and the managed files are as they were.
use librova.Base.{String, Option, some, none, ◌≡◌, ◌⊎◌, refl, ◌∙◌, Bool-cases, inl, inr}
use librova.Base.Outcome.{Outcome, ok, err}
use librova.Importing.{PreparedStorage, StoragePlan}
use librova.Importing.Services.{Services}
use librova.Importing.Run.Views.{View, Quiet, IsLawful}
use librova.Importing.Run.{
  RunState, Step, and_then, call, act, remove_temporary, remove_temporaries, rollback_prepared,
  discard,
}
use librova.Conversion.{is_empty}

-- What a step has to show: `P` of its result and state, or `Q` of the state if it threw.
abbrev pub Holds :
    {W A : Type 0} (P : A → RunState W → Type 0) (Q : RunState W → Type 0)
    → Outcome A × RunState W
    → Type 0
Holds P Q (ok a, s) = P a s
Holds P Q (err message, s) = Q s

pub and_then-Holds :
    {W A B : Type 0} (P : A → RunState W → Type 0) (P' : B → RunState W → Type 0)
    (Q : RunState W → Type 0) (x : Outcome A × RunState W) (f : A → Step W B)
    → Holds P Q x
    → ((a : A) (s : RunState W) → P a s → Holds P' Q (f a s))
    → Holds P' Q (and_then x f)
and_then-Holds P P' Q (ok a, s) f h next = next a s h
and_then-Holds P P' Q (err message, s) f h next = h

-- A step that shows the same of its state whether it throws or not.
pub Holds-both :
    {W A : Type 0} (R : RunState W → Type 0) (o : Outcome A) (s : RunState W)
    → R s
    → Holds (λ _ s'. R s') R (o, s)
Holds-both R (ok a) s h = h
Holds-both R (err message) s h = h

pub Holds-cases :
    {W A : Type 0} (P : A → RunState W → Type 0) (Q : RunState W → Type 0) (o : Outcome A)
    (s : RunState W)
    → ((a : A) → o ≡ ok a → P a s)
    → ((message : String) → o ≡ err message → Q s)
    → Holds P Q (o, s)
Holds-cases P Q (ok a) s h k = h a refl
Holds-cases P Q (err message) s h k = k message refl

module _ {W Metadata C D : Type 0} (v : View W Metadata C D) (services : Services W Metadata)
    (IsTemporary : String → Type 0) (lawful : IsLawful v services IsTemporary) (w0 : W) where
  abbrev pub TemporaryIfSet : Option String → Type 0
  TemporaryIfSet none = Unit
  TemporaryIfSet (some path) = IsTemporary path

  -- PrepareImport has returned `p`, and the files that are not of `p` are as they were.
  abbrev pub IsStaged : PreparedStorage → W → Type 0
  IsStaged p w =
      ((plan : StoragePlan) × (before : W) × ((services.storage.prepare_import plan before).0
          ≡ ok p))
      × (v.rest p w ≡ v.rest p w0)

  abbrev pub Undo : Option PreparedStorage → W → Type 0
  Undo none w = v.managed w ≡ v.managed w0
  Undo (some p) w = IsStaged p w

  -- The files are as they were: all of them if no storage was prepared, else all but the files of the
  -- prepared storage, and those are what RollbackImport has left of them.
  abbrev pub AreRestored : W → Type 0
  AreRestored w =
      (v.managed w ≡ v.managed w0)
      ⊎ ((p : PreparedStorage) × (before : W) × IsStaged p w
          × (v.own p w ≡ v.own p (services.storage.rollback_import p before)))

  pub record IsOpen (s : RunState W) : Type 0 where
    pub cover : TemporaryIfSet s.temporary_cover_path
    pub converted : TemporaryIfSet s.temporary_converted_path
    pub catalog_kept : v.catalog s.world ≡ v.catalog w0
    pub managed_kept : v.managed s.world ≡ v.managed w0
    pub undo : Undo s.prepared_storage s.world
    pub not_added : s.added_book_id ≡ none

  pub Quiet-Undo : (o : Option PreparedStorage) (w w' : W) → Quiet v w w' → Undo o w → Undo o w'
  Quiet-Undo none w w' q h = q.1 ∙ h
  Quiet-Undo (some p) w w' q (planned, h) = (planned, q.2 p ∙ h)

  pub Quiet-IsOpen :
      (s : RunState W) (w : W) → Quiet v s.world w → IsOpen s → IsOpen (record s { world = w })
  Quiet-IsOpen s w q h = record {
    cover = h.cover;
    converted = h.converted;
    catalog_kept = q.0 ∙ h.catalog_kept;
    managed_kept = q.1 ∙ h.managed_kept;
    undo = Quiet-Undo s.prepared_storage s.world w q h.undo;
    not_added = h.not_added;
  }

  -- A call that does not change the view.
  pub call-IsOpen :
      {A : Type 0} (f : W → Outcome A × W) (s : RunState W)
      → ((w : W) → Quiet v w (f w).1)
      → IsOpen s
      → Holds (λ _ s'. IsOpen s') IsOpen (call f s)
  call-IsOpen f s q h =
      Holds-both IsOpen (f s.world).0 _ (Quiet-IsOpen s (f s.world).1 (q s.world) h)

  act-IsOpen :
      (f : W → W) (s : RunState W) → ((w : W) → Quiet v w (f w)) → IsOpen s → IsOpen (act f s).1
  act-IsOpen f s q h = Quiet-IsOpen s (f s.world) (q s.world) h

  pub Quiet-trans : (a b e : W) → Quiet v a b → Quiet v b e → Quiet v a e
  Quiet-trans a b e q r = (r.0 ∙ q.0, r.1 ∙ q.1, λ p. r.2 p ∙ q.2 p, λ p. r.3 p ∙ q.3 p)

  pub remove_temporary-Quiet :
      (o : Option String) (w : W) → TemporaryIfSet o → Quiet v w (remove_temporary services o w)
  remove_temporary-Quiet none w t = (refl, refl, λ p. refl, λ p. refl)
  remove_temporary-Quiet (some path) w t = elim (Bool-cases (is_empty path)) [
    | inl e ↦ rw e (refl, refl, λ p. refl, λ p. refl)
    | inr e ↦ rw e (lawful.remove_path_quiet path w t)
  ]

  pub remove_temporaries-Quiet :
      (s : RunState W)
      → TemporaryIfSet s.temporary_cover_path
      → TemporaryIfSet s.temporary_converted_path
      → Quiet v s.world (remove_temporaries services s).1.world
  remove_temporaries-Quiet s cover converted =
      let w = remove_temporary services s.temporary_converted_path s.world in
      Quiet-trans s.world w (remove_temporary services s.temporary_cover_path w)
        (remove_temporary-Quiet s.temporary_converted_path s.world converted)
        (remove_temporary-Quiet s.temporary_cover_path w cover)

  pub Quiet-AreRestored : (w w' : W) → Quiet v w w' → AreRestored w → AreRestored w'
  Quiet-AreRestored w w' q (inl h) = inl (q.1 ∙ h)
  Quiet-AreRestored w w' q (inr (p, before, (planned, h), own)) =
      inr (p, before, (planned, q.2 p ∙ h), q.3 p ∙ own)

  rollback_prepared-AreRestored :
      (o : Option PreparedStorage) (w : W)
      → Undo o w
      → (v.catalog (rollback_prepared services o w) ≡ v.catalog w)
        × AreRestored (rollback_prepared services o w)
  rollback_prepared-AreRestored none w u = (refl, inl u)
  rollback_prepared-AreRestored (some p) w (planned, u) =
      (lawful.rollback_catalog p w, inr (p, w, (planned, lawful.rollback_rest p w ∙ u), refl))

  -- Discarding the storage and the temporary files restores the managed files.
  pub discard_restores :
      (s : RunState W)
      → TemporaryIfSet s.temporary_cover_path
      → TemporaryIfSet s.temporary_converted_path
      → Undo s.prepared_storage s.world
      → (v.catalog (discard services s).1.world ≡ v.catalog s.world)
        × AreRestored (discard services s).1.world
  discard_restores s cover converted u =
      let w = rollback_prepared services s.prepared_storage s.world in
      let q = remove_temporaries-Quiet (record s { world = w }) cover converted in
      let r = rollback_prepared-AreRestored s.prepared_storage s.world u in
      (
        q.0 ∙ r.0,
        Quiet-AreRestored w (remove_temporaries services (record s { world = w })).1.world q r.1,
      )
