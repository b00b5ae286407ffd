-- ===== src/DataBase/Startup.antt =====
-- The constructor of `DataBase` (testService/DataBase.h): the job number after a restart.
use opcuatesttool.Prelude.{
  ℕ, zero, suc, nat_eq, int_eq, text_eq, ◌+◌, ◌≤◌, ◌<◌, ◌≡◌, refl, true, false, some, List, ◌++◌,
  pos, add_int-one, length, get_elem?-length, get_elem?-lt, arith, int_half, contains, ◌∙◌,
}
use native.Mathlib.Decide.{dec_lt}
use opcuatesttool.Prelude.Pigeonhole.{pigeonhole}
use opcuatesttool.Std.Text.{Text, codes}
use opcuatesttool.Std.Decimal.{to_string}
use opcuatesttool.Std.Files.{FileSystem, ◌/◌, paths, exists, read}
use opcuatesttool.Std.Files.Listing.{exists-read, exists-read-none}
use opcuatesttool.DataBase.Defs.{
  DataBase, Shell, clone_script_repo, recover_id, members, initialize, construct,
}
use opcuatesttool.DataBase.Requests.{Holds, Represents, path_ne}

module _ (dir : Text) (fs : FileSystem) (requests : List Text) (v : Holds dir fs requests)
    (fits : length requests < int_half) where
  taken : (i : ℕ) → i < length requests → exists fs (dir / to_string (pos i)) ≡ true
  taken i h =
      let (request, e) = get_elem?-lt requests i h in
      exists-read fs _ request (v.file i (omega arith) ∙ e)

  free : exists fs (dir / to_string (pos (length requests))) ≡ false
  free =
      exists-read-none fs _
        (v.file (length requests) fits ∙ get_elem?-length requests _ (omega arith))
        (v.ready.numbers_free (pos (length requests)))

  -- Each request is a path of its own, so there are no more requests than paths.
  length-le-paths : length requests ≤ length (paths fs)
  unfolding exists
  length-le-paths =
      pigeonhole (λ i. dir / to_string (pos i)) (length requests) (paths fs)
        (λ i j h k. path_ne dir i j (omega arith) (omega arith) (omega arith)) taken

  recover_id-Holds :
      (fuel i : ℕ)
      → i ≤ length requests
      → length requests < fuel + i
      → recover_id fuel fs dir (pos i) ≡ some (pos (length requests))
  unfolding recover_id
  recover_id-Holds zero i h k = absurd (omega arith)
  recover_id-Holds (suc fuel) i h k = elim (dec_lt i (length requests)) [
    | yes lt ↦
        rw (taken i lt, add_int-one i (omega arith))
          (recover_id-Holds fuel (suc i) (omega arith) (omega arith))
    | no ge ↦ let e : i ≡ length requests = omega arith in rw (e, free)
  ]

-- The script that clones the repository writes below `root/repo`: the directory `dir` and the files
-- in it stay as they are.
pub record Spares (shell : Shell) (dir : Text) : Type 0 where
  pub same_file :
      (command : Text) (fs : FileSystem) (name : Text)
      → read (shell command fs).1 (dir / name) ≡ read fs (dir / name)
  pub same_dir :
      (command : Text) (fs : FileSystem)
      → contains dir (shell command fs).1.dirs ≡ contains dir fs.dirs
  pub same_dirs :
      (command : Text) (fs : FileSystem) (name : Text)
      → contains (dir / name) (shell command fs).1.dirs ≡ contains (dir / name) fs.dirs

pub Holds-shell :
    (shell : Shell) (dir command : Text) (fs : FileSystem) (requests : List Text)
    → Spares shell dir
    → Holds dir fs requests
    → Holds dir (shell command fs).1 requests
Holds-shell shell dir command fs requests s v = record {
  ready = record {
    there = s.same_dir command fs ∙ v.ready.there;
    numbers_free = λ i. s.same_dirs command fs (to_string i) ∙ v.ready.numbers_free i;
  };
  file = λ i h. s.same_file command fs (to_string (pos i)) ∙ v.file i h;
}

-- The members after a restart.
unfoldable pub restarted : Text → Text → List Text → DataBase
restarted root repo requests = record (members root repo) { job_id = pos (length requests) }

initialize-Holds :
    (root repo : Text) (fs : FileSystem) (requests : List Text)
    → exists fs (root ++ codes "/jobs") ≡ true
    → Holds (root ++ codes "/jobs/requests") fs requests
    → length requests < int_half
    → initialize root (members root repo) fs ≡ some (restarted root repo requests, fs)
unfolding initialize members restarted
initialize-Holds root repo fs requests old v fits = rw (
  old,
  recover_id-Holds (root ++ codes "/jobs/requests") fs requests v fits (suc (length (paths fs))) 0
      (omega arith)
      (omega (arith, length-le-paths (root ++ codes "/jobs/requests") fs requests v fits)),
)

pub construct-Holds :
    (shell : Shell) (root repo : Text) (fs : FileSystem) (requests : List Text)
    → exists fs (root ++ codes "/jobs") ≡ true
    → Holds (root ++ codes "/jobs/requests") fs requests
    → length requests < int_half
    → construct shell root repo fs
      ≡ some
          (restarted root repo requests, clone_script_repo shell (restarted root repo requests) fs)
unfolding construct
construct-Holds shell root repo fs requests old v fits =
    rw (initialize-Holds root repo fs requests old v fits, construct)

pub restarted-Represents :
    (shell : Shell) (root repo : Text) (fs : FileSystem) (requests : List Text)
    → Spares shell (root ++ codes "/jobs/requests")
    → Holds (root ++ codes "/jobs/requests") fs requests
    → Represents
        (restarted root repo requests)
        (clone_script_repo shell (restarted root repo requests) fs)
        requests
unfolding clone_script_repo members restarted
restarted-Represents shell root repo fs requests spares v = record {
  next_id = refl;
  holds = Holds-shell shell (root ++ codes "/jobs/requests") _ fs requests spares v;
}

-- If the directory of the jobs is there, its request directory holds the requests 0, 1, … with no
-- gap, fewer than 2^31 of them, and the script that clones the repository leaves the request
-- directory alone, then the constructor ends, its loop included, and the data base represents
-- those requests: it goes on with the number after the last.
pub construct-Represents :
    (shell : Shell) (root repo : Text) (fs : FileSystem) (requests : List Text)
    → Spares shell (root ++ codes "/jobs/requests")
    → exists fs (root ++ codes "/jobs") ≡ true
    → Holds (root ++ codes "/jobs/requests") fs requests
    → length requests < int_half
    → (db : DataBase) × (fs' : FileSystem) × (construct shell root repo fs ≡ some (db, fs'))
      × Represents db fs' requests
construct-Represents shell root repo fs requests spares old v fits = (
  restarted root repo requests,
  clone_script_repo shell (restarted root repo requests) fs,
  construct-Holds shell root repo fs requests old v fits,
  restarted-Represents shell root repo fs requests spares v,
)
