-- ===== src/TestService/History.antt =====
-- All histories of the service: HTTP requests of any kind, also those whose handler throws, and
-- processes that end.
use opcuatesttool.Prelude.{
  nat_eq, int_eq, ◌≢◌, List, [], ◌++◌, append-nil, Option-cases, inl, inr, ℤ,
}
use opcuatesttool.JobScheduler.Defs.{Host, Fork, retire, job_finished}
use opcuatesttool.JobScheduler.Invariant.{Inv, Fresh, create-Inv, job_finished-Inv}
use opcuatesttool.JobScheduler.Progress.{IsIdle, IsIdle-Inv}
use opcuatesttool.TestService.Monad.{Service, with_files, exited}
use opcuatesttool.TestService.Defs.{Environment, api_callback, handle_sig_chld}
use opcuatesttool.Api.Handlers.{Json}
use opcuatesttool.Api.Server.{HttpLibrary, Incoming, serve, reached}
use opcuatesttool.Std.Files.{FileSystem}
use opcuatesttool.TestService.Effect.{given_by, Effect, writes, creates, serve-Effect}

Effect-Inv :
    (fork : Fork) (h h' : Host) (ids new : List ℤ)
    → Inv ids h
    → Fresh fork h
    → Effect fork h new h'
    → Inv (ids ++ new) h'
Effect-Inv fork h h' ids new v f (writes fs) =
    rw append-nil (record { bounded = v.bounded; busy = v.busy; in_order = v.in_order })
Effect-Inv fork h h' ids new v f (creates request e) = create-Inv fork request ids h h' _ v f e

module _ (lib : HttpLibrary) (json : Json) where
  -- A history of the service, with the numbers that it gave out, oldest first. The history ends where
  -- a `fork` fails.
  pub data Serves (start : Service) : List ℤ → Service → Type 1 where
    here : Serves start [] start
    requested :
        {ids : List ℤ} {s : Service} (env : Environment) (req : Incoming)
        → Serves start ids s
        → Fresh env.fork s.host
        → (serve lib json (api_callback env) req s).0 ≢ exited
        → Serves start
            (ids ++ given_by (reached lib json (api_callback env) req) s)
            (serve lib json (api_callback env) req s).1
    ended :
        {ids : List ℤ} {s : Service} (fork : Fork) (pid : ℤ)
        → Serves start ids s
        → Fresh fork (retire pid s.host)
        → (handle_sig_chld fork pid s).0 ≢ exited
        → Serves start ids (handle_sig_chld fork pid s).1
    -- Another process, such as a runner, changes files.
    files_changed :
        {ids : List ℤ} {s : Service} (fs : FileSystem)
        → Serves start ids s
        → Serves start ids (with_files fs s)

  ended-Inv :
      (fork : Fork) (pid : ℤ) (ids : List ℤ) (s : Service)
      → Inv ids s.host
      → Fresh fork (retire pid s.host)
      → (handle_sig_chld fork pid s).0 ≢ exited
      → Inv ids (handle_sig_chld fork pid s).1.host
  unfolding handle_sig_chld
  ended-Inv fork pid ids s v f n = elim (Option-cases (job_finished fork pid s.host)) [
    | inl stopped ↦ absurd (n (rw stopped))
    | inr (h', e) ↦ rw e (job_finished-Inv fork pid ids s.host h' v f e)
  ]

  -- After any history of the service that starts with no job, of HTTP requests with any method,
  -- path, parameters and body, whatever the HTTP library makes of them, also those whose handler
  -- throws, of ended processes, and of changes of files by other processes, in which no call ended
  -- the service and each new process has a number that no active job has: at most four jobs are
  -- active, a job waits only while four are active, and the started jobs followed by the waiting
  -- ones are those that POST /api/jobs gave a number, in that order.
  pub Serves-Inv :
      {start s : Service} {ids : List ℤ} → IsIdle start.host → Serves start ids s → Inv ids s.host
  Serves-Inv {start} idle here = IsIdle-Inv start.host idle
  Serves-Inv idle (requested {ids = ids} {s = s} env req r f n) =
      Effect-Inv env.fork s.host _ ids _ (Serves-Inv idle r) f (serve-Effect lib json env req s n)
  Serves-Inv idle (ended fork pid r f n) = ended-Inv fork pid _ _ (Serves-Inv idle r) f n
  Serves-Inv idle (files_changed fs r) =
      let v = Serves-Inv idle r in
      record { bounded = v.bounded; busy = v.busy; in_order = v.in_order }
