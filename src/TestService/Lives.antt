-- ===== src/TestService/Lives.antt =====
-- The service over any number of starts: it is stopped between two calls, and started again over the
-- files that are left.
use opcuatesttool.Prelude.{
  nat_eq, int_eq, text_eq, ◌≡◌, ◌≢◌, refl, some, Option, List, [], ◌++◌, ℤ, length, length-append,
  ◌<◌, int_half, subst, arith,
}
use opcuatesttool.Std.Text.{Text, Lacks}
use opcuatesttool.Std.Files.{FileSystem, ◌/◌}
use opcuatesttool.DataBase.Requests.{Holds, Represents}
use opcuatesttool.JobScheduler.Defs.{Fork, open_scheduler}
use opcuatesttool.JobScheduler.Storage.{numbers}
use opcuatesttool.Repl.Process.{Started}
use opcuatesttool.TestService.Monad.{Service, exited, with_files}
use opcuatesttool.TestService.Defs.{Environment, api_callback, handle_sig_chld}
use opcuatesttool.TestService.Effect.{given_by}
use opcuatesttool.TestService.Main.{System, serving, start, repo_url, binary_path_of_name}
use opcuatesttool.TestService.Life.{start-opens}
use opcuatesttool.TestService.Durable.{SameRequests, IsSparing, Keeps-files_changed}
use opcuatesttool.TestService.Reopen.{IsFresh, reopened, opened_first}
use opcuatesttool.Api.Handlers.{Json, Endpoint, post_api_script}
use opcuatesttool.Api.Server.{HttpLibrary, Incoming, serve, reached}
use opcuatesttool.TestService.Numbered.{stored_by, Numbered, serve-Numbered, ended-Numbered}

-- The name of a posted script names a file of the directory of the scripts.
abbrev pub IsPlain : Option (Endpoint × Text) → Type 0
IsPlain (some (post_api_script, name)) = Lacks b'/' name
IsPlain _ = Unit {0}

module _ (lib : HttpLibrary) (json : Json) (home : Text) where
  -- The bodies that were posted to POST /api/jobs since the first start, and the numbers that were
  -- given out, oldest first.
  pub data Lives : List Text → List ℤ → Service → Type 1 where
    started :
        {s : Service} (system : System) (name : Text) (args : List Text) (fs : FileSystem)
        (repl : Started) (web : Text)
        → Lacks b'/' name
        → IsFresh home fs
        → IsSparing home system.shell
        → start system (home / name) args fs ≡ serving s repl web
        → Lives [] [] s
    requested :
        {bodies : List Text} {ids : List ℤ} {s : Service} (env : Environment) (req : Incoming)
        → Lives bodies ids s
        → IsSparing home env.shell
        → IsPlain (reached lib json (api_callback env) req)
        → (serve lib json (api_callback env) req s).0 ≢ exited
        → Lives
            (bodies ++ stored_by req.body (reached lib json (api_callback env) req))
            (ids ++ given_by (reached lib json (api_callback env) req) s)
            (serve lib json (api_callback env) req s).1
    ended :
        {bodies : List Text} {ids : List ℤ} {s : Service} (fork : Fork) (pid : ℤ)
        → Lives bodies ids s
        → (handle_sig_chld fork pid s).0 ≢ exited
        → Lives bodies ids (handle_sig_chld fork pid s).1
    files_changed :
        {bodies : List Text} {ids : List ℤ} {s : Service} (fs : FileSystem)
        → Lives bodies ids s
        → SameRequests home s.host.files fs
        → Lives bodies ids (with_files fs s)
    started_again :
        {bodies : List Text} {ids : List ℤ} {s s' : Service} (system : System) (name : Text)
        (args : List Text) (repl : Started) (web : Text)
        → Lives bodies ids s
        → Lacks b'/' name
        → IsSparing home system.shell
        → start system (home / name) args s.host.files ≡ serving s' repl web
        → Lives bodies ids s'

  opens_at_home :
      (system : System) (name : Text) (args : List Text) (fs : FileSystem) (s : Service)
      (repl : Started) (web : Text)
      → Lacks b'/' name
      → start system (home / name) args fs ≡ serving s repl web
      → open_scheduler system.shell home (repo_url args) fs ≡ some s.host
  opens_at_home system name args fs s repl web l e =
      let (dir, found, opens) = start-opens system fs (home / name) args s repl web e in
      let same : dir ≡ home = cc (found, binary_path_of_name home name l) in
      subst (λ d. open_scheduler system.shell d (repo_url args) fs ≡ some s.host) same opens

  Lives-Numbered :
      {bodies : List Text} {ids : List ℤ} {s : Service}
      → Lives bodies ids s
      → length bodies < int_half
      → Numbered lib json home bodies ids s.host
  Lives-Numbered (started {s = s} system name args fs repl web l new sparing e) fits = record {
    numbered = refl;
    keeps =
        opened_first system.shell home (repo_url args) fs sparing s.host new
          (opens_at_home system name args fs s repl web l e);
  }
  Lives-Numbered (requested {bodies = bodies} {ids = ids} {s = s} env req r sparing plain n) fits =
      serve-Numbered lib json home env req bodies ids s
        (Lives-Numbered r (
          omega (
            arith,
            length-append bodies (stored_by req.body (reached lib json (api_callback env) req)),
          )))
        sparing fits n
  Lives-Numbered (ended {bodies = bodies} {ids = ids} {s = s} fork pid r n) fits =
      ended-Numbered lib json home fork pid bodies ids s (Lives-Numbered r fits) n
  Lives-Numbered (files_changed {bodies = bodies} {s = s} fs r same) fits =
      let v = Lives-Numbered r fits in
      record {
        numbered = v.numbered;
        keeps = Keeps-files_changed home s.host fs bodies same v.keeps;
      }
  Lives-Numbered
        (started_again {bodies = bodies} {s = s} {s' = s'} system name args repl web r l sparing e)
        fits =
      let v = Lives-Numbered r fits in
      record {
        numbered = v.numbered;
        keeps =
            reopened system.shell home (repo_url args) s.host.files sparing s'.host bodies
              v.keeps.0.3 (subst (λ d. Holds d s.host.files bodies) v.keeps.0.1 v.keeps.1.1.holds)
              fits (opens_at_home system name args s.host.files s' repl web l e);
      }

  -- After a first start in a directory without jobs, any history of HTTP requests with any method,
  -- path, parameters and body, of ended processes, of stops between two calls and of further
  -- starts over the files that are left, in which the script that clones the repository and other
  -- processes leave the request directory alone, the names of posted scripts have no slash, no
  -- call ended the service, and fewer than 2^31 jobs were posted: the numbers given out by POST
  -- /api/jobs since the first start are 0, 1, … with no gap and no repetition, the request
  -- directory holds the posted bodies under these numbers, and the next job gets the number after
  -- the last.
  pub Lives-Represents :
      {bodies : List Text} {ids : List ℤ} {s : Service}
      → Lives bodies ids s
      → length bodies < int_half
      → (ids ≡ numbers 0 (length bodies)) × Represents s.host.db s.host.files bodies
  Lives-Represents r fits = let v = Lives-Numbered r fits in (v.numbered, v.keeps.1.1)
