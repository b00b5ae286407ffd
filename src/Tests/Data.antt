-- ===== src/Tests/Data.antt =====
-- A service in the directory "w", and calls on it.
use opcuatesttool.Prelude.{Option, none, some, List, [], ◌∷◌, ℤ, pos}
use opcuatesttool.Prelude.{true}
use opcuatesttool.Std.Text.{Text, codes}
use opcuatesttool.Std.Files.{FileSystem}
use opcuatesttool.DataBase.Defs.{DataBase, Shell}
use opcuatesttool.JobScheduler.Defs.{Host}
use opcuatesttool.TestService.Monad.{Service}
use opcuatesttool.TestService.Defs.{Environment}
use opcuatesttool.JobScheduler.Defs.{forked}

abbrev pub dirs : List Text
dirs =
    codes "w/jobs"
    ∷ codes "w/jobs/requests"
    ∷ codes "w/jobs/finished"
    ∷ codes "w/logs"
    ∷ codes "w/repo/scripts"
    ∷ []

abbrev pub no_files : FileSystem
no_files = record { files = []; dirs = dirs }

-- The results 0 and 1, a file that is no result, and a script.
abbrev pub two_results : FileSystem
two_results = record {
  files =
      (codes "w/jobs/finished/readme", codes "x")
      ∷ (codes "w/jobs/finished/0", codes "{0}")
      ∷ (codes "w/jobs/finished/1", codes "{1}")
      ∷ (codes "w/repo/scripts/read.lua", codes "read()")
      ∷ [];
  dirs = dirs;
}

abbrev pub names : List Text
names = codes "readme" ∷ codes "0" ∷ codes "1" ∷ []

abbrev pub data_base : DataBase
data_base = record {
  root_dir = codes "w";
  jobs_requests_dir = codes "w/jobs/requests";
  jobs_finished_dir = codes "w/jobs/finished";
  script_dir = codes "w/repo/scripts";
  target_dir = codes "w/repo/targets";
  repo_url = codes "git";
  job_id = pos 0;
}

abbrev pub host : FileSystem → Host
host fs = record {
  scheduler = record {
    working_dir = codes "w";
    active_jobs = [];
    wait_queue = [];
    db = data_base;
    job_finished_callback = true;
  };
  files = fs;
  started = [];
  events = [];
}

abbrev pub idle : Host
idle = host no_files

abbrev pub service : FileSystem → Service
service fs = record { host = host fs; terminal = [] }

-- A shell that does nothing, a terminal that takes every character, and a `fork` that succeeds.
abbrev pub shell : Shell
shell command fs = (pos 0, fs)

abbrev pub environment : Environment
environment = record {
  shell = shell;
  inject = λ terminal c. some (c ∷ terminal);
  fork = forked (pos 7);
}

-- The host after a call; if the call exits, the host before it.
abbrev pub after : Host → Option (ℤ × Host) → Host
after h none = h
after h (some (id, h')) = h'

abbrev pub resumed : Host → Option Host → Host
resumed h none = h
resumed h (some h') = h'
