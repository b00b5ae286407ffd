-- ===== src/DataBase/FirstStart.antt =====
-- The constructor of `DataBase` in testService/DataBase.h in a directory with no jobs yet.
use opcuatesttool.Prelude.{
  nat_eq, int_eq, text_eq, ◌≡◌, ◌≢◌, refl, true, false, or-true, Bool-cases, inl, inr, none, some,
  [], ◌∷◌, ◌++◌, append_assoc, append-nil, contains, ℤ, pos, arith, ◌∙◌, sym,
}
use opcuatesttool.Std.Text.{Text, codes, append_cancel}
use opcuatesttool.Std.Decimal.{to_string}
use opcuatesttool.Std.Files.{FileSystem, ◌/◌, read, exists, prefixes, create_directories}
use opcuatesttool.Std.Files.Directories.{
  prefixes-begin, contains-prefixes, contains-create_directories,
}
use opcuatesttool.DataBase.Defs.{DataBase, Shell, clone_script_repo, members, initialize, construct}
use opcuatesttool.DataBase.Requests.{Ready, Represents}
use opcuatesttool.DataBase.Startup.{Spares, Holds-shell}

-- A path below the request directory begins no path that is made.
below_ne-prefix :
    (dir name path : Text)
    → ((rest : Text) → (dir / name) ++ rest ≢ path)
    → contains (dir / name) (prefixes [] path) ≡ false
below_ne-prefix dir name path other = elim (Bool-cases (contains (dir / name) (prefixes [] path))) [
  | inl made ↦ let (rest, e) = prefixes-begin [] path (dir / name) made in absurd (other rest e)
  | inr not_made ↦ not_made
]

module _ (root : Text) (fs : FileSystem) where
  unfoldable pub dir : Text
  dir = root ++ codes "/jobs/requests"

  unfoldable pub made : FileSystem
  made = create_directories (create_directories fs dir) (root ++ codes "/jobs/finished")

  dir_made : contains dir made.dirs ≡ true
  unfolding made
  dir_made = rw (
    contains-create_directories (create_directories fs dir) (root ++ codes "/jobs/finished") dir,
    contains-create_directories fs dir dir,
    contains-prefixes [] dir,
    or-true,
  )

  longer : (name rest : Text) → (dir / name) ++ rest ≢ dir
  longer name rest e = cc (
      append_cancel dir (b'/' ∷ name ++ rest) []
        (sym (append_assoc dir (b'/' ∷ name) rest) ∙ e ∙ sym (append-nil dir)))

  beside : (name rest : Text) → (dir / name) ++ rest ≢ root ++ codes "/jobs/finished"
  unfolding dir
  beside name rest e = apart (
      append_cancel root (codes "/jobs/requests" / name ++ rest) (codes "/jobs/finished")
        (simp append_assoc at e))
    where
      apart : codes "/jobs/requests" / name ++ rest ≢ codes "/jobs/finished"
      apart p = ground arith

  pub made-Ready : ((i : ℤ) → contains (dir / to_string i) fs.dirs ≡ false) → Ready dir made
  unfolding made
  made-Ready free = record {
    there = dir_made;
    numbers_free = λ i. rw (
      contains-create_directories (create_directories fs dir) (root ++ codes "/jobs/finished")
          (dir / to_string i),
      contains-create_directories fs dir (dir / to_string i),
      below_ne-prefix dir (to_string i) (root ++ codes "/jobs/finished") (beside (to_string i)),
      below_ne-prefix dir (to_string i) dir (longer (to_string i)),
      free i,
    );
  }

pub initialize-made :
    (root repo : Text) (fs : FileSystem)
    → exists fs (root ++ codes "/jobs") ≡ false
    → initialize root (members root repo) fs ≡ some (members root repo, made root fs)
unfolding initialize members made dir
initialize-made root repo fs new = rw new

-- If the directory of the jobs is not there, nor any file or directory below its request
-- directory, and the script that clones the repository leaves the request directory alone, the
-- constructor ends, and the data base holds no request and begins with the number 0.
pub construct-first :
    (shell : Shell) (root repo : Text) (fs : FileSystem)
    → Spares shell (root ++ codes "/jobs/requests")
    → exists fs (root ++ codes "/jobs") ≡ false
    → ((i : ℤ) → read fs ((root ++ codes "/jobs/requests") / to_string i) ≡ none)
    → ((i : ℤ) → contains ((root ++ codes "/jobs/requests") / to_string i) fs.dirs ≡ false)
    → (db : DataBase) × (fs' : FileSystem) × (construct shell root repo fs ≡ some (db, fs'))
      × Represents db fs' []
unfolding construct members made dir create_directories read clone_script_repo
construct-first shell root repo fs spares new no_files no_dirs = (
  members root repo,
  clone_script_repo shell (members root repo) (made root fs),
  rw (initialize-made root repo fs new, construct),
  record {
    next_id = refl;
    holds =
        Holds-shell shell (root ++ codes "/jobs/requests") _ (made root fs) [] spares
          (record { ready = made-Ready root fs no_dirs; file = λ i h. no_files (pos i) });
  },
)
