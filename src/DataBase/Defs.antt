-- ===== src/DataBase/Defs.antt =====
-- testService/DataBase.h and testService/DataBase.cpp: job requests, results, logs, scripts and
-- targets as files. The file system is an argument of each method and part of its result; what is
-- logged is left out.
use opcuatesttool.Prelude.{
  ℕ, zero, suc, nat_eq, int_eq, Bool, true, false, ◌||◌, Option, none, some, List, [], ◌∷◌, ◌++◌,
  ◌==◌, if◌then◌else◌, ℤ, pos, add_int, length, Result, ok, ◌>>=◌,
}
use opcuatesttool.Std.Text.{Text, codes}
use opcuatesttool.Std.Decimal.{to_string}
use opcuatesttool.Std.Files.{
  FileSystem, ◌/◌, paths, exists, read, write, list_directory, create_directories,
}

pub record DataBase : Type 0 where
  pub root_dir : Text
  pub jobs_requests_dir : Text
  pub jobs_finished_dir : Text
  pub script_dir : Text
  pub target_dir : Text
  pub repo_url : Text
  pub job_id : ℤ

-- `system(3)`: it runs a command, which may change files, and returns a status.
abbrev pub Shell : Type 0
Shell = Text → FileSystem → ℤ × FileSystem

-- `cloneScriptRepo`: a failure of the script is logged, and otherwise ignored.
unfoldable pub clone_script_repo : Shell → DataBase → FileSystem → FileSystem
clone_script_repo shell db fs =
    (shell (db.root_dir ++ codes "/getScripts.sh " ++ db.root_dir ++ codes "/repo " ++ db.repo_url)
      fs).1

-- The `while` of the constructor, on fuel: the first number from `last_id` on that names no request.
unfoldable pub recover_id : ℕ → FileSystem → Text → ℤ → Option ℤ
recover_id zero fs dir last_id = none
recover_id (suc fuel) fs dir last_id =
    let next = recover_id fuel fs dir (add_int last_id (pos 1)) in
    if exists fs (dir / to_string last_id) then next else some last_id

-- The constructor's member initialisers.
unfoldable pub members : Text → Text → DataBase
members root repo = record {
  root_dir = root;
  jobs_requests_dir = root ++ codes "/jobs/requests";
  jobs_finished_dir = root ++ codes "/jobs/finished";
  script_dir = root ++ codes "/repo/scripts";
  target_dir = root ++ codes "/repo/targets";
  repo_url = repo;
  job_id = pos 0;
}

-- The body before the clone: `none` is a lack of fuel. Each round but the last finds another path
-- of the file system, so one more round than there are paths is allowed.
unfoldable pub initialize : Text → DataBase → FileSystem → Option (DataBase × FileSystem)
initialize root db fs =
    if exists fs (root ++ codes "/jobs")
    then elim (recover_id (suc (length (paths fs))) fs db.jobs_requests_dir (pos 0)) [
      | none ↦ none
      | some last_id ↦ some (record db { job_id = last_id }, fs)
    ]
    else some
        (db, create_directories (create_directories fs db.jobs_requests_dir) db.jobs_finished_dir)

-- The constructor.
unfoldable pub construct : Shell → Text → Text → FileSystem → Option (DataBase × FileSystem)
unfolding clone_script_repo
construct shell root repo fs = elim (initialize root (members root repo) fs) [
  | none ↦ none
  | some (db, fs') ↦ some (db, clone_script_repo shell db fs')
]

abbrev pub request_file_path : DataBase → ℤ → Text
request_file_path db id = db.jobs_requests_dir / to_string id

abbrev pub finished_file_path : DataBase → ℤ → Text
finished_file_path db id = db.jobs_finished_dir / to_string id

abbrev job_log_path : DataBase → ℤ → Text
job_log_path db id = db.root_dir ++ codes "/logs/" ++ to_string id ++ codes ".log"

unfoldable pub new_job : DataBase → Text → FileSystem → ℤ × DataBase × FileSystem
new_job db request fs = (
  db.job_id,
  record db { job_id = add_int db.job_id (pos 1) },
  write fs (request_file_path db db.job_id) request,
)

-- `stream << path` prints a name in quotes, with a backslash before a quote or a backslash.
escape : Text → Text
escape [] = []
escape (c ∷ s) =
    let rest = escape s in if c == b'"' || c == b'\\' then b'\\' ∷ c ∷ rest else c ∷ rest

-- The loop of `getScripts`; `first` is its flag.
script_entries : Bool → List Text → Text
unfolding escape
script_entries first [] = []
script_entries first (name ∷ names) =
    (if first then codes "{\n" else codes ",{\n")
    ++ codes "\"name\": "
    ++ (b'"' ∷ escape name ++ codes "\"")
    ++ codes "}"
    ++ script_entries false names

unfoldable pub get_scripts : DataBase → FileSystem → Result Text
unfolding script_entries
get_scripts db fs = do
  names ← list_directory fs db.script_dir
  ok (codes "[\n" ++ script_entries true names ++ codes "]\n")

abbrev contents_or : Text → Option Text → Text
contents_or message none = message
contents_or message (some content) = content

unfoldable pub get_script : DataBase → Text → FileSystem → Text
get_script db name fs = contents_or (codes "job not found") (read fs (db.script_dir / name))

unfoldable pub update_script : DataBase → Text → Text → FileSystem → FileSystem
update_script db name content fs = write fs (db.script_dir / name) content

unfoldable pub get_finished_job : DataBase → ℤ → FileSystem → Text
get_finished_job db id fs = contents_or (codes "job not found") (read fs (finished_file_path db id))

unfoldable pub get_job_log : DataBase → ℤ → FileSystem → Text
get_job_log db id fs = contents_or (codes "job log not found") (read fs (job_log_path db id))

unfoldable pub get_targets : DataBase → FileSystem → Text
get_targets db fs =
    contents_or (codes "job log not found") (read fs (db.target_dir / codes "targets.json"))
