-- ===== src/Std/Files.antt =====
-- The file system as the program sees it through `std::filesystem` and the file streams: regular
-- files by their path, and directories. A path is the text that the program builds; `.` and `..`
-- in it are not resolved.
pub mod Laws
pub mod Listing
pub mod Directories
use opcuatesttool.Prelude.{
  ℕ, nat_eq, text_eq, ◌≡◌, refl, Bool, true, false, ◌&&◌, ◌||◌, not, Option, none, some, List, [],
  ◌∷◌, ◌++◌, map, ◌==◌, contains, if◌then◌else◌, Result, ok, throw, filesystem_error,
}
use opcuatesttool.Prelude.Dict.{Dict, lookup, insert}
use opcuatesttool.Std.Text.{Text, codes, is_empty}

pub record FileSystem : Type 0 where
  pub files : Dict Text Text
  pub dirs : List Text

-- `dir + "/" + name`.
infixl 65 ◌/◌
abbrev pub ◌/◌ : Text → Text → Text
dir / name = dir ++ b'/' ∷ name

-- The directory and the name of a path: what stands before and after its last slash.
unfoldable pub split_path : Text → Option (Text × Text)
split_path [] = none
split_path (c ∷ s) = elim (split_path s) [
  | some (dir, name) ↦ some (c ∷ dir, name)
  | none ↦ if c == b'/' then some ([], s) else none
]

abbrev pub paths : FileSystem → List Text
paths fs = map (λ entry. entry.0) fs.files ++ fs.dirs

-- `fs::exists`.
unfoldable pub exists : FileSystem → Text → Bool
exists fs path = contains path (paths fs)

-- The contents that an `std::ifstream` reads; `none` is `fail()` after opening.
unfoldable pub read : FileSystem → Text → Option Text
read fs path = lookup path fs.files

abbrev is_named_in : List Text → Option (Text × Text) → Bool
is_named_in dirs none = false
is_named_in dirs (some (dir, name)) = contains dir dirs && not (is_empty name)

-- A file can be opened for writing if its directory is there and it is no directory itself.
unfoldable pub can_write : FileSystem → Text → Bool
unfolding split_path
can_write fs path = is_named_in fs.dirs (split_path path) && not (contains path fs.dirs)

-- `std::ofstream out(path); out << content; out.close()`. A failure to open is silent.
unfoldable pub write : FileSystem → Text → Text → FileSystem
unfolding can_write
write fs path content =
    if can_write fs path then record fs { files = insert path content fs.files } else fs

abbrev keep_name : Text → Option (Text × Text) → List Text → List Text
keep_name dir none others = others
keep_name dir (some (d, name)) others = if d == dir then name ∷ others else others

names_in : Text → List Text → List Text
names_in dir [] = []
names_in dir (path ∷ rest) = keep_name dir (split_path path) (names_in dir rest)

-- `fs::directory_iterator`: the names in a directory, in no particular order.
unfoldable pub list_directory : FileSystem → Text → Result (List Text)
unfolding split_path names_in
list_directory fs dir =
    if contains dir fs.dirs then ok (names_in dir (paths fs)) else throw filesystem_error

-- The path and those above it.
unfoldable pub prefixes : Text → Text → List Text
prefixes before [] = before ∷ []
prefixes before (c ∷ s) =
    let rest = prefixes (before ++ c ∷ []) s in if c == b'/' then before ∷ rest else rest

-- `fs::create_directories`.
unfoldable pub create_directories : FileSystem → Text → FileSystem
unfolding prefixes
create_directories fs path = record fs { dirs = prefixes [] path ++ fs.dirs }

abbrev sample : FileSystem
sample = record { files = (codes "/w/a", codes "x") ∷ []; dirs = codes "/w" ∷ [] }

samples :
    (list_directory (write sample (codes "/w/b") (codes "y")) (codes "/w")
      ≡ ok (codes "a" ∷ codes "b" ∷ []))
    × (write sample (codes "/v/b") (codes "y") ≡ sample)
    × (list_directory sample (codes "/v") ≡ throw filesystem_error)
unfolding write list_directory insert
samples = (refl, refl, refl)
