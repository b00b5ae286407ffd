-- ===== src/TestService/Life.antt =====
-- The service from the start of `main` on, under requests and ended processes.
use opcuatesttool.Prelude.{
  ◌≡◌, refl, Option, Option-cases, some_elim, Result-cases, ok, none, some, List, inl, suc, length,
  int_half, ◌<◌, nat_eq, out_of_range, ◌⊎◌, ◌++◌, subst, sym, ◌≢◌, [], inr, ap, ℤ,
}
use opcuatesttool.Std.Text.{Text, codes, Lacks}
use opcuatesttool.Std.Files.{FileSystem, paths, split_path}
use opcuatesttool.Std.Files.Laws.{split_path-cases}
use opcuatesttool.DataBase.Defs.{Shell, construct}
use opcuatesttool.DataBase.Ends.{construct-ends}
use opcuatesttool.JobScheduler.Defs.{Host, open_scheduler}
use opcuatesttool.JobScheduler.Invariant.{Inv}
use opcuatesttool.JobScheduler.Progress.{IsIdle}
use opcuatesttool.Repl.Process.{Started, start_repl}
use opcuatesttool.TestService.Main
use opcuatesttool.TestService.Main.{
  System, Start, serving, uncaught, exits, no_fuel, binary_path, with_repl, with_scheduler, start,
  start_refused, repo_url,
}
use opcuatesttool.TestService.Monad.{Service}
use opcuatesttool.TestService.History.{Serves, Serves-Inv}
use opcuatesttool.Api.Handlers.{Json}
use opcuatesttool.Api.Server.{HttpLibrary}

open_scheduler-IsIdle :
    (shell : Shell) (dir repo : Text) (fs : FileSystem) (h : Host)
    → open_scheduler shell dir repo fs ≡ some h
    → IsIdle h
unfolding open_scheduler
open_scheduler-IsIdle shell dir repo fs h e = elim (Option-cases (construct shell dir repo fs)) [
  | inl stuck ↦ cc (stuck, e)
  | inr ((db, fs'), c) ↦
      some_elim IsIdle (rw (c, open_scheduler) at e)
        (record { no_jobs = refl; no_queue = refl; no_processes = refl })
]

service_of : Start → Option Service
service_of (serving s repl web) = some s
service_of (uncaught x) = none
service_of exits = none
service_of no_fuel = none

with_scheduler-opens :
    (dir : Text) (repl : Started) (o : Option Host) (s : Service)
    → service_of (with_scheduler dir repl o) ≡ some s
    → o ≡ some s.host
unfolding with_scheduler service_of
with_scheduler-opens dir repl none s e = cc
with_scheduler-opens dir repl (some h) s e = some_elim (λ s. some h ≡ some s.host) e refl

module _ (system : System) (fs : FileSystem) where
  with_repl-opens :
      (dir repo : Text) (o : Option Started) (s : Service)
      → service_of (with_repl system dir repo fs o) ≡ some s
      → open_scheduler system.shell dir repo fs ≡ some s.host
  unfolding with_repl service_of
  with_repl-opens dir repo none s e = cc
  with_repl-opens dir repo (some repl) s e =
      with_scheduler-opens dir repl (open_scheduler system.shell dir repo fs) s e

  -- A service that serves has the scheduler that was opened in the directory of the program.
  pub start-opens :
      (argv_0 : Text) (args : List Text) (s : Service) (repl : Started) (web : Text)
      → start system argv_0 args fs ≡ serving s repl web
      → (dir : Text) × (binary_path argv_0 ≡ ok dir)
        × (open_scheduler system.shell dir (repo_url args) fs ≡ some s.host)
  unfolding start Main.construct service_of
  start-opens argv_0 args s repl web e = elim (Result-cases (binary_path argv_0)) [
    | inl (x, refused) ↦ cc (refused, e)
    | inr (dir, found) ↦
        (dir, found, with_repl-opens dir _ _ s (rw (found, start) at (ap service_of e)))
  ]

  -- How the start goes on in the directory of the program: the constructor of `Repl` ends the process,
  -- or the service serves and has no job.
  abbrev pub Begins : Text → Start → Type 0
  Begins dir r =
      ((start_repl (dir ++ codes "/repl") system.pipe system.fork system.open_files ≡ none)
        × (r ≡ exits))
      ⊎ ((s : Service) × (repl : Started) × (start_repl (dir ++ codes "/repl") system.pipe
              system.fork system.open_files
            ≡ some repl)
          × (r ≡ serving s repl (dir ++ codes "/dist/testToolApp"))
          × IsIdle s.host)

  module _ (fits : suc (length (paths fs)) < int_half) where
    open_scheduler-ends : (dir repo : Text) → open_scheduler system.shell dir repo fs ≢ none
    unfolding open_scheduler
    open_scheduler-ends dir repo e = elim (Option-cases (construct system.shell dir repo fs)) [
      | inl stuck ↦ construct-ends system.shell dir repo fs fits stuck
      | inr ((db, fs'), c) ↦ cc (rw (c, open_scheduler) at e)
    ]

    served :
        (dir repo : Text) (repl : Started)
        → start_repl (dir ++ codes "/repl") system.pipe system.fork system.open_files ≡ some repl
        → Begins dir (Main.construct system dir repo fs)
    unfolding Main.construct with_repl with_scheduler
    served dir repo repl begun = elim (Option-cases (open_scheduler system.shell dir repo fs)) [
      | inl stuck ↦ absurd (open_scheduler-ends dir repo stuck)
      | inr (h, o) ↦ inr (
        record { host = h; terminal = [] },
        repl,
        begun,
        rw (begun, o),
        open_scheduler-IsIdle system.shell dir repo fs h o,
      )
    ]

    construct-Begins : (dir repo : Text) → Begins dir (Main.construct system dir repo fs)
    unfolding Main.construct with_repl
    construct-Begins dir repo =
        elim (Option-cases
          (start_repl (dir ++ codes "/repl") system.pipe system.fork system.open_files)) [
            | inl failed ↦ inl (failed, rw failed)
            | inr (repl, begun) ↦ served dir repo repl begun
          ]

    start_in :
        (argv_0 dir name : Text) (args : List Text)
        → split_path argv_0 ≡ some (dir, name)
        → start system argv_0 args fs ≡ Main.construct system dir (repo_url args) fs
    unfolding start binary_path
    start_in argv_0 dir name args found =
        let b : binary_path argv_0 ≡ ok dir = rw (found, binary_path) in rw (b, start)

    -- For any operating system, name of the program, arguments and fewer than 2^31 - 1 files and
    -- directories, the start of `main` ends: with the exception `out_of_range` if the name has no
    -- slash; and else, in the directory of that name, with an exit if the interpreter cannot be
    -- started, or with a service beside the interpreter, with no job active, queued or started.
    pub start-cases :
        (argv_0 : Text) (args : List Text)
        → (Lacks b'/' argv_0 × (start system argv_0 args fs ≡ uncaught out_of_range))
          ⊎ ((dir : Text) × (name : Text) × (split_path argv_0 ≡ some (dir, name))
              × Begins dir (start system argv_0 args fs))
    start-cases argv_0 args = elim (split_path-cases argv_0) [
      | inl plain ↦ inl (plain, start_refused system argv_0 args fs plain)
      | inr (dir, name, found) ↦ inr (
        dir,
        name,
        found,
        subst (Begins dir) (sym (start_in argv_0 dir name args found))
            (construct-Begins dir (repo_url args)),
      )
    ]

  -- If `main` comes to serve, with whatever name, arguments, files and operating system it was
  -- started: after any history of HTTP requests with any method, path, parameters and body,
  -- whatever the HTTP library makes of them, also those whose handler throws, of ended processes,
  -- and of changes of files by other processes, in which no call ended the service and each new
  -- process has a number that no active job has, at most four jobs are active, a job waits only
  -- while four are active, and the started jobs followed by the waiting ones are those that POST
  -- /api/jobs gave a number, in that order.
  pub start-Inv :
      (lib : HttpLibrary) (json : Json) (argv_0 : Text) (args : List Text) (s s' : Service)
      (repl : Started) (web : Text) (ids : List ℤ)
      → start system argv_0 args fs ≡ serving s repl web
      → Serves lib json s ids s'
      → Inv ids s'.host
  start-Inv lib json argv_0 args s s' repl web ids starts r =
      let (dir, found, opens) = start-opens argv_0 args s repl web starts in
      Serves-Inv lib json (open_scheduler-IsIdle system.shell dir (repo_url args) fs s.host opens) r
