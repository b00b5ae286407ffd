-- ===== src/TestService/Main.antt =====
-- The constructor of `TestService` and the start of `main` in testService/TestService.cpp, up to the
-- threads that serve. `argv[0]` is there; the mask of signals and the logger are left out.
use opcuatesttool.Prelude.{
  ℕ, nat_eq, int_eq, text_eq, ◌≡◌, ◌≢◌, ◌<◌, true, Option, none, some, List, [], ◌∷◌, ◌++◌, ℤ,
  length, int_half, Exception, Result, ok, throw, out_of_range, lt→ltb, ◌∙◌, arith,
}
use opcuatesttool.Std.Text.{Text, codes, Lacks}
use opcuatesttool.Std.Files.{FileSystem, ◌/◌, split_path, exists}
use opcuatesttool.Std.Files.Laws.{split_path_of_name, split_path-Lacks}
use opcuatesttool.DataBase.Defs.{Shell}
use opcuatesttool.DataBase.Requests.{Holds}
use opcuatesttool.DataBase.Startup.{Spares}
use opcuatesttool.JobScheduler.Defs.{Host, Fork, forked, open_scheduler}
use opcuatesttool.JobScheduler.Progress.{IsIdle}
use opcuatesttool.JobScheduler.Storage.{Stores}
use opcuatesttool.JobScheduler.Restart.{open_scheduler-Stores}
use opcuatesttool.Repl.Process.{
  pipe_read, pipe_write, Files, Pipe, piped, Started, start_repl, start_repl_pipe,
}
use opcuatesttool.TestService.Monad.{Service}

-- `find_last_of('/')` and `erase`, which throws if there is no slash.
unfoldable pub binary_path : Text → Result Text
binary_path argv_0 = elim (split_path argv_0) [
  | none ↦ throw out_of_range
  | some (dir, name) ↦ ok dir
]

-- The URL of the script repository.
unfoldable pub repo_url : List Text → Text
repo_url (url ∷ []) = url
repo_url _ = codes "https://github.com/matkonnerth/opcuaTestToolScripts.git"

-- How the start ends. A service that serves has the interpreter beside it, and a directory with
-- the web application.
pub data Start : Type 0 where
  uncaught : Exception → Start
  exits : Start  -- `exit(EXIT_FAILURE)` in the constructor of `Repl`
  no_fuel : Start
  serving : Service → Started → Text → Start

-- What the operating system does during the start.
pub record System : Type 0 where
  pub shell : Shell
  pub pipe : Pipe
  pub fork : Fork
  pub open_files : Files

unfoldable pub with_scheduler : Text → Started → Option Host → Start
with_scheduler dir repl none = no_fuel
with_scheduler dir repl (some h) =
    serving (record { host = h; terminal = [] }) repl (dir ++ codes "/dist/testToolApp")

unfoldable pub with_repl : System → Text → Text → FileSystem → Option Started → Start
unfolding with_scheduler
with_repl system dir repo fs none = exits
with_repl system dir repo fs (some repl) =
    with_scheduler dir repl (open_scheduler system.shell dir repo fs)

-- The constructor: the member `m_repl` is made before the scheduler.
unfoldable pub construct : System → Text → Text → FileSystem → Start
unfolding with_repl
construct system dir repo fs =
    with_repl system dir repo fs
      (start_repl (dir ++ codes "/repl") system.pipe system.fork system.open_files)

unfoldable pub start : System → Text → List Text → FileSystem → Start
start system argv_0 args fs = elim (binary_path argv_0) [
  | throw x ↦ uncaught x
  | ok dir ↦ construct system dir (repo_url args) fs
]

binary_path-Lacks : (argv_0 : Text) → Lacks b'/' argv_0 → binary_path argv_0 ≡ throw out_of_range
unfolding binary_path
binary_path-Lacks argv_0 l = rw (split_path-Lacks argv_0 l, binary_path)

pub binary_path_of_name : (dir name : Text) → Lacks b'/' name → binary_path (dir / name) ≡ ok dir
unfolding binary_path
binary_path_of_name dir name l = rw (split_path_of_name dir name l, binary_path)

-- If the name by which the program was called has no slash, `main` ends with the exception
-- `out_of_range`, before it starts anything.
pub start_refused :
    (system : System) (argv_0 : Text) (args : List Text) (fs : FileSystem)
    → Lacks b'/' argv_0
    → start system argv_0 args fs ≡ uncaught out_of_range
unfolding start
start_refused system argv_0 args fs l = rw (binary_path-Lacks argv_0 l, start)

module _ (system : System) (dir name : Text) (args : List Text) (fs : FileSystem)
    (requests : List Text) (r w : ℕ) (pid : ℤ) (plain_name : Lacks b'/' name)
    (pipes : system.pipe ≡ piped r w) (apart : r ≢ w) (r_ne : r ≢ 1) (w_ne : w ≢ 1) (low : w < 6)
    (forks : system.fork ≡ forked pid)
    (spares : Spares system.shell (dir ++ codes "/jobs/requests"))
    (old : exists fs (dir ++ codes "/jobs") ≡ true)
    (holds : Holds (dir ++ codes "/jobs/requests") fs requests)
    (fits : length requests < int_half) where
  -- If the program was called by a path in `dir`, the pipe has two different descriptors, neither
  -- of them 1 and the write end below 6, `fork` succeeds, the directory of the jobs is there and
  -- its request directory holds the requests 0, 1, … with no gap, fewer than 2^31 of them, and the
  -- script that clones the repository leaves them alone: `main` comes to serve, with no job
  -- active, queued or started, with those requests, the web application of `dir`, the interpreter
  -- writing to the pipe, and the read end of the pipe as the only end that the service holds.
  pub start_serves :
      (s : Service) × (repl : Started) × (start system (dir / name) args fs
        ≡ serving s repl (dir ++ codes "/dist/testToolApp"))
      × IsIdle s.host
      × Stores s.host requests
      × (repl.child.files 1 ≡ some pipe_write)
      × (repl.files r ≡ some pipe_read)
      × (repl.files w ≡ none)
  unfolding start construct with_repl with_scheduler
  start_serves =
      let (repl, begun, stdout, read_end, write_end) =
        start_repl_pipe r w system.open_files apart r_ne w_ne (dir ++ codes "/repl") pid
          (omega arith) in
      let (h, opened, idle, stores) =
        open_scheduler-Stores system.shell dir (repo_url args) fs requests spares old holds fits in
      (
        record { host = h; terminal = [] },
        repl,
        rw (binary_path_of_name dir name plain_name, start) (rw (pipes, forks, begun, opened)),
        idle,
        stores,
        stdout ∙ rw (lt→ltb w 6 low),
        read_end,
        write_end,
      )
