-- ===== src/Storage/Examples.antt =====
-- A disk as a function from paths to what the files hold. No file can be put at the cover's place.
use librova.Base.{
  ◌≡◌, ℕ, String, Bool, true, false, Option, none, some, refl, if◌then◌else◌, str_eq,
}
use librova.Base.Outcome.{ok}
use librova.Importing.{PreparedStorage}
use librova.Storage.{FileSystem, commit_import}
use librova.Storage.Views.{DiskView}

abbrev Disk : Type 0
Disk = String → Option ℕ

abbrev put : String → Option ℕ → Disk → Disk
put path c w other = if str_eq other path then c else w other

abbrev parent_of : String → String
parent_of path =
    if str_eq path "Staging/1/book.epub"
    then "Staging/1"
    else if str_eq path "Staging/1/cover.png"
    then "Staging/1"
    else "Objects/1"

abbrev rename_if : Bool → String → String → Option ℕ → Disk → Option String × Disk
rename_if true a b c w = (some "access denied", w)
rename_if false a b none w = (some "no such file", w)
rename_if false a b (some c) w = (none, put b (some c) (put a none w))

abbrev copy_if : Bool → String → Option ℕ → Disk → Option String × Disk
copy_if true b c w = (some "access denied", w)
copy_if false b none w = (some "no such file", w)
copy_if false b (some c) w = (none, put b (some c) w)

abbrev is_denied : String → Bool
is_denied path = str_eq path "Objects/1/cover.png"

abbrev sample : FileSystem Disk
sample = record {
  rename = λ a b w. rename_if (is_denied b) a b (w a) w;
  copy_file = λ a b w. copy_if (is_denied b) b (w a) w;
  remove = λ path w. put path none w;
  remove_all = λ directory w path. if str_eq directory (parent_of path) then none else w path;
  ensure_directory = λ path w. (ok tt, w);
  parent_path = parent_of;
  cleanup_empty_directories = λ start stop w. w;
}

abbrev view : DiskView Disk ℕ
view = record {
  content = λ path w. w path;
  is_within = λ directory path. str_eq directory (parent_of path);
}

abbrev prepared : Option String → PreparedStorage
prepared cover = record {
  staged_book_path = "Staging/1/book.epub";
  staged_cover_path = cover;
  final_book_path = "Objects/1/book.epub";
  final_cover_path = some "Objects/1/cover.png";
  relative_book_path = "1/book.epub";
  relative_cover_path = none;
}

abbrev staged : Disk
staged path =
    if str_eq path "Staging/1/book.epub"
    then some 7
    else if str_eq path "Staging/1/cover.png"
    then some 8
    else none

commit_book : (commit_import sample (prepared none) staged).1 "Objects/1/book.epub" ≡ some 7
unfolding commit_import
commit_book = refl

-- The cover cannot be moved, so the book goes back.
commit_cover :
    (commit_import sample (prepared (some "Staging/1/cover.png")) staged).1 "Staging/1/book.epub"
    ≡ some 7
unfolding commit_import
commit_cover = refl
