-- ===== src/Importing/Examples.antt =====
-- A library of which only the ids of the rows and the paths of the files are kept. Metadata is the
-- title, and the disk is full for "big".
use librova.Base.{
  ◌≡◌, List, ℕ, String, ◌∷◌, if◌then◌else◌, if_true, concat, ap, none, [], ◌==◌, ==-refl, str_eq,
  length, ◌∙◌, false, ◌+◌, true, refl, some, Bool, Bool-cases, ◌||◌, inl, inr, str_eq-refl,
}
use librova.Importing.{
  imported, failed, SingleFileImportRequest, Book, StoragePlan, PreparedStorage,
}
use librova.Importing.Services.{Services}
use librova.Importing.Run.{run}
use librova.Importing.Run.Views.Handled.{run-IsAtomic, IsAtomic}
use librova.Importing.Run.Views.{View, IsLawful}
use librova.Catalog.{Insertion, added}
use librova.Base.Outcome.{Outcome, ok, err}
use librova.Conversion.{fb2}

record World : Type 0 where
  rows : List ℕ
  files : List String

abbrev pop : ℕ → List ℕ → List ℕ
pop id [] = []
pop id (x ∷ rest) = if x == id then rest else x ∷ rest

pop_self : (id : ℕ) (rest : List ℕ) → pop id (id ∷ rest) ≡ rest
pop_self id rest = if_true _ (==-refl id)

abbrev add_row : Book String → World → Insertion × World
add_row b w = (added b.id, record w { rows = b.id ∷ w.rows })

abbrev has_path : String → List String → Bool
has_path path [] = false
has_path path (x ∷ rest) = str_eq x path || has_path path rest

abbrev drop_path : String → List String → List String
drop_path path [] = []
drop_path path (x ∷ rest) = if str_eq x path then drop_path path rest else x ∷ drop_path path rest

drop_path_again :
    (path : String) (files : List String)
    → drop_path path (drop_path path files) ≡ drop_path path files
drop_path_again path [] = refl
drop_path_again path (x ∷ rest) = elim (Bool-cases (str_eq x path)) [
  | inl t ↦ rw t (drop_path_again path rest)
  | inr f ↦ rw f (rw f (ap (λ t. x ∷ t) (drop_path_again path rest)))
]

abbrev prepared_for : StoragePlan → PreparedStorage
prepared_for plan = record {
  staged_book_path = concat "staging/" plan.source_path;
  staged_cover_path = none;
  final_book_path = concat "Objects/" plan.source_path;
  final_cover_path = none;
  relative_book_path = plan.source_path;
  relative_cover_path = none;
}

abbrev commit_files : PreparedStorage → World → Outcome (Unit {0}) × World
commit_files p w =
    if str_eq p.final_book_path "Objects/big"
    then (err "disk full", w)
    else (ok tt, record w { files = p.final_book_path ∷ drop_path p.final_book_path w.files })

abbrev sample : Services World String
sample = record {
  repository = record {
    reserve_id = λ w. (ok (length w.rows + 1), w);
    add = add_row;
    force_add = add_row;
    remove = λ id w. (ok tt, record w { rows = pop id w.rows });
  };
  storage = record {
    prepare_import = λ plan w. (ok (prepared_for plan), w);
    commit_import = commit_files;
    rollback_import = λ p w. record w { files = drop_path p.final_book_path w.files };
  };
  cancelled = λ n. false;
  try_detect_format = λ path. some fb2;
  parse = λ path covers w. ok (record {
    metadata = "A title";
    source_format = fb2;
    cover_extension = none;
    cover_bytes = [];
  });
  compute_file_sha256_hex = λ path w. err "unreadable";
  find_duplicates = λ candidate w. ok [];
  can_convert = none;
  convert = λ request w. (err "no converter", w);
  process_cover = none;
  write_cover_temp_file = λ directory id cover w. (ok "cover.jpg", w);
  file_size = λ path w. ok 100;
  now = λ w. 0;
  report_value = λ percent message w. w;
  remove_path_no_throw = λ path w. w;
  show_id = λ id. "id";
}

abbrev view : View World String (List ℕ) (List String)
view = record {
  catalog = λ w. w.rows;
  managed = λ w. w.files;
  rest = λ p w. drop_path p.final_book_path w.files;
  row = λ id b c. id ∷ c;
  own = λ p w. if has_path p.final_book_path w.files then p.final_book_path ∷ [] else [];
}

commit_files_catalog : (p : PreparedStorage) (w : World) → (commit_files p w).1.rows ≡ w.rows
commit_files_catalog p w = elim (Bool-cases (str_eq p.final_book_path "Objects/big")) [
  | inl e ↦ rw e refl
  | inr e ↦ rw e refl
]

commit_files_rest :
    (p : PreparedStorage) (w : World)
    → drop_path p.final_book_path (commit_files p w).1.files ≡ drop_path p.final_book_path w.files
commit_files_rest p w = elim (Bool-cases (str_eq p.final_book_path "Objects/big")) [
  | inl e ↦ rw e refl
  | inr e ↦
      rw e (if_true _ (str_eq-refl p.final_book_path) ∙ drop_path_again p.final_book_path w.files)
]

added-injective : (a b : ℕ) → added a ≡ added b → a ≡ b
added-injective a b e = cc

sample-IsLawful : IsLawful view sample (λ path. Unit)
sample-IsLawful = record {
  managed_rest = λ p w w' e. ap (drop_path p.final_book_path) e;
  report_quiet = λ percent message w. (refl, refl, λ p. refl, λ p. refl);
  remove_path_quiet = λ path w t. (refl, refl, λ p. refl, λ p. refl);
  reserve_quiet = λ w. (refl, refl, λ p. refl, λ p. refl);
  convert_quiet = λ request w. (refl, refl, λ p. refl, λ p. refl);
  convert_temporary = λ request w r e. tt;
  write_cover_quiet = λ directory id cover w. (refl, refl, λ p. refl, λ p. refl);
  write_cover_temporary = λ directory id cover w path e. tt;
  prepare_quiet = λ plan w. (refl, refl, λ p. refl, λ p. refl);
  commit_catalog = commit_files_catalog;
  commit_rest = commit_files_rest;
  rollback_catalog = λ p w. refl;
  rollback_rest = λ p w. drop_path_again p.final_book_path w.files;
  add_rest = λ b p w. refl;
  add_managed = λ b w. refl;
  add_row = λ b w id e. ap (λ i. i ∷ w.rows) (added-injective b.id id e);
  add_refused = λ b w other. absurd (other b.id refl);
  remove_rest = λ id p w. refl;
  remove_own = λ id p w. refl;
  remove_undoes = λ b id before w e same done. ap (pop id) same ∙ pop_self id before.rows;
  remove_refused = λ id w message e. absurd (cc);
}

abbrev request : String → SingleFileImportRequest
request path = record {
  source_path = path;
  working_directory = "work";
  sha256_hex = none;
  pre_reserved_book_id = none;
  logical_source_label = none;
  allow_probable_duplicates = false;
  force_epub_conversion = false;
  import_covers = true;
}

abbrev library : World
library = record { rows = 1 ∷ []; files = "Objects/old" ∷ [] }

run_small : (run sample (request "a") library).0.status ≡ imported
unfolding run librova.Importing.is_valid_request librova.Importing.has_strict_duplicate
    librova.Importing.has_probable_duplicate librova.Conversion.plan_import_conversion
    librova.Conversion.resolve_import_conversion
run_small = refl

run_small_files : (run sample (request "a") library).1.files ≡ "Objects/a" ∷ "Objects/old" ∷ []
unfolding run librova.Importing.is_valid_request librova.Importing.has_strict_duplicate
    librova.Importing.has_probable_duplicate librova.Conversion.plan_import_conversion
    librova.Conversion.resolve_import_conversion
run_small_files = refl

run_big : (run sample (request "big") library).0.status ≡ failed
unfolding run librova.Importing.is_valid_request librova.Importing.has_strict_duplicate
    librova.Importing.has_probable_duplicate librova.Conversion.plan_import_conversion
    librova.Conversion.resolve_import_conversion
run_big = refl

run_big_files : (run sample (request "big") library).1.files ≡ "Objects/old" ∷ []
unfolding run librova.Importing.is_valid_request librova.Importing.has_strict_duplicate
    librova.Importing.has_probable_duplicate librova.Conversion.plan_import_conversion
    librova.Conversion.resolve_import_conversion
run_big_files = refl

run-IsAtomic_example :
    IsAtomic view sample
      (λ path. Unit)
      sample-IsLawful
      library
      (run sample (request "a") library).0
      (run sample (request "a") library).1
run-IsAtomic_example = run-IsAtomic view sample (λ path. Unit) sample-IsLawful (request "a") library
