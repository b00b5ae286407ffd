-- ===== src/Tests/Starting.antt =====
-- Starts of the service, and its configuration.
use opcuatesttool.Prelude.{
  nat_eq, int_eq, text_eq, ◌≡◌, refl, none, some, [], ◌∷◌, if◌then◌else◌, ltb, pos, out_of_range,
  ◌⊎◌, arith,
}
use opcuatesttool.Prelude.Dict.{lookup, insert}
use opcuatesttool.Std.Text.{Text, codes, Lacks}
use opcuatesttool.Std.Decimal.{to_string}
use opcuatesttool.Std.Files.{FileSystem, read, exists, write, split_path}
use opcuatesttool.DataBase.Defs.{new_job}
use opcuatesttool.DataBase.Requests.{Holds, new_job-Represents}
use opcuatesttool.DataBase.Startup.{Spares}
use opcuatesttool.JobScheduler.Defs.{forked}
use opcuatesttool.JobScheduler.Progress.{IsIdle}
use opcuatesttool.JobScheduler.Storage.{Stores}
use opcuatesttool.Repl.Process.{pipe_read, pipe_write, elsewhere, piped, Started}
use opcuatesttool.TestService.Monad.{Service}
use opcuatesttool.TestService.Main.{System, uncaught, serving, start, start_serves}
use opcuatesttool.TestService.Life.{Begins, start-cases}
use opcuatesttool.Tests.Data.{no_files, data_base, shell}

abbrev dir : Text
dir = codes "w/jobs/requests"

abbrev pub system : System
system = record {
  shell = shell;
  pipe = piped 4 5;
  fork = forked (pos 9);
  open_files = λ n. if ltb n 4 then some elsewhere else none;
}

shell-Spares : Spares shell dir
shell-Spares = record {
  same_file = λ command fs name. refl;
  same_dir = λ command fs. refl;
  same_dirs = λ command fs name. refl;
}

empty-Holds : Holds dir no_files []
unfolding read lookup
empty-Holds = record {
  ready = record { there = refl; numbers_free = λ i. refl };
  file = λ i h. refl;
}

-- A request of an earlier run.
abbrev files_1 : FileSystem
files_1 = (new_job data_base (codes "first") no_files).2

first-Holds : Holds dir files_1 (codes "first" ∷ [])
unfolding new_job
first-Holds =
    (new_job-Represents data_base no_files [] (codes "first")
      (record { next_id = refl; holds = empty-Holds }) (omega arith)).1.holds

start_serves_example :
    (s : Service) × (repl : Started) × (start system (codes "w/testService") [] files_1
      ≡ serving s repl (codes "w/dist/testToolApp"))
    × IsIdle s.host
    × Stores s.host (codes "first" ∷ [])
    × (repl.child.files 1 ≡ some pipe_write)
    × (repl.files 4 ≡ some pipe_read)
    × (repl.files 5 ≡ none)
unfolding exists new_job write to_string insert
start_serves_example =
    start_serves system (codes "w") (codes "testService") [] files_1 (codes "first" ∷ []) 4 5
      (pos 9) (omega arith) refl (omega arith) (omega arith) (omega arith) (omega arith) refl
      shell-Spares refl first-Holds (omega arith)

start-cases_example :
    (Lacks b'/' (codes "w/testService")
      × (start system (codes "w/testService") [] no_files ≡ uncaught out_of_range))
    ⊎ ((home : Text) × (name : Text) × (split_path (codes "w/testService") ≡ some (home, name))
        × Begins system no_files home (start system (codes "w/testService") [] no_files))
start-cases_example = start-cases system no_files (omega arith) (codes "w/testService") []

-- No directory but "w".
abbrev pub fresh : FileSystem
fresh = record { files = (codes "w/testService", codes "x") ∷ []; dirs = codes "w" ∷ [] }
