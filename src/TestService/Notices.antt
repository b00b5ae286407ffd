-- ===== src/TestService/Notices.antt =====
-- What the clients of GET /api/events are told of the jobs.
use opcuatesttool.Prelude.{
  ◌≡◌, ◌≢◌, refl, true, some, Option-cases, subst, List, [], ◌∷◌, ◌++◌, map, ℤ, ap, inl, inr,
  some_elim,
}
use mathlib.Core.List.{Perm}
use mathlib.Core.List.Perm
use opcuatesttool.Std.Text.{Text, codes}
use opcuatesttool.Std.Decimal.{to_string}
use opcuatesttool.Std.Files.{FileSystem}
use opcuatesttool.DataBase.Defs.{Shell, construct}
use opcuatesttool.JobScheduler.Defs.{Host, Fork, open_scheduler, retire, job_finished}
use opcuatesttool.JobScheduler.Invariant.{Fresh, jobs}
use opcuatesttool.JobScheduler.Accounts.{
  Accounts, active, job_event, create-Accounts, job_finished-Accounts,
}
use opcuatesttool.Repl.Process.{Started}
use opcuatesttool.Events.Dispatcher.{Dispatcher, send_all}
use opcuatesttool.Events.Framing.{event_message}
use opcuatesttool.Events.Wakeups.{follow, follow_delivers}
use opcuatesttool.TestService.Monad.{Service, exited}
use opcuatesttool.TestService.Defs.{handle_sig_chld}
use opcuatesttool.TestService.Effect.{Effect, writes, creates, serve-Effect}
use opcuatesttool.TestService.History.{Serves, here, requested, ended, files_changed}
use opcuatesttool.TestService.Main.{System, serving, start, repo_url}
use opcuatesttool.TestService.Life.{start-opens}
use opcuatesttool.Api.Handlers.{Json}
use opcuatesttool.Api.Server.{HttpLibrary}

open_scheduler-Accounts :
    (shell : Shell) (dir repo : Text) (fs : FileSystem) (h : Host)
    → open_scheduler shell dir repo fs ≡ some h
    → Accounts [] h
unfolding open_scheduler
open_scheduler-Accounts shell dir repo fs h e = elim (Option-cases (construct shell dir repo fs)) [
  | inl stuck ↦ cc (stuck, e)
  | inr ((db, fs'), c) ↦
      some_elim (Accounts []) (rw (c, open_scheduler) at e)
        (record { callback = refl; sent = refl; accounted = Perm.refl [] })
]

Effect-Accounts :
    (fork : Fork) (h h' : Host) (new finished : List ℤ)
    → Accounts finished h
    → Fresh fork h
    → Effect fork h new h'
    → Accounts finished h'
Effect-Accounts fork h h' new finished v f (writes fs) = record {
  callback = v.callback;
  sent = v.sent;
  accounted = v.accounted;
}
Effect-Accounts fork h h' new finished v f (creates request e) =
    create-Accounts fork request finished h h' _ v f e

ended-Accounts :
    (fork : Fork) (pid : ℤ) (s : Service) (finished : List ℤ)
    → Accounts finished s.host
    → Fresh fork (retire pid s.host)
    → (handle_sig_chld fork pid s).0 ≢ exited
    → (finished' : List ℤ) × Accounts finished' (handle_sig_chld fork pid s).1.host
unfolding handle_sig_chld
ended-Accounts fork pid s finished v f n = elim (Option-cases (job_finished fork pid s.host)) [
  | inl stopped ↦ absurd (n (rw stopped))
  | inr (h', e) ↦ rw e (_, job_finished-Accounts fork pid finished s.host h' v f e)
]

-- The text of an event.
abbrev pub message_of : Text × Text → Text
message_of (name, text) = event_message name text

-- What is written to a client when a job has finished.
abbrev pub notice : ℤ → Text
notice job_id =
    codes "data: " ++ event_message (codes "JobFinishedEvent") (to_string job_id) ++ codes "\n\n"

-- The call of the event callback when the interpreter has written a text.
abbrev pub reply_event : Text → Text × Text
reply_event text = (codes "ReplResponseEvent", text)

-- What is written to a client then.
abbrev pub answer : Text → Text
answer text = codes "data: " ++ event_message (codes "ReplResponseEvent") text ++ codes "\n\n"

-- A list made of two, each in its order.
pub data Interleaved {A : Type 0} : List A → List A → List A → Type 0 where
  neither : Interleaved [] [] []
  first : {xs ys zs : List A} (x : A) → Interleaved xs ys zs → Interleaved (x ∷ xs) ys (x ∷ zs)
  second : {xs ys zs : List A} (y : A) → Interleaved xs ys zs → Interleaved xs (y ∷ ys) (y ∷ zs)

Interleaved-map :
    {A B : Type 0} {xs ys zs : List A} (f : A → B)
    → Interleaved xs ys zs
    → Interleaved (map f xs) (map f ys) (map f zs)
Interleaved-map f neither = neither
Interleaved-map f (first x i) = first (f x) (Interleaved-map f i)
Interleaved-map f (second y i) = second (f y) (Interleaved-map f i)

framed : Text → Text
framed m = codes "data: " ++ m ++ codes "\n\n"

notices :
    (finished : List ℤ) → map framed (map message_of (map job_event finished)) ≡ map notice finished
unfolding framed
notices [] = refl
notices (job_id ∷ finished) = ap (◌∷◌ (notice job_id)) (notices finished)

answers :
    (replies : List Text)
    → map framed (map message_of (map reply_event replies)) ≡ map answer replies
unfolding framed
answers [] = refl
answers (text ∷ replies) = ap (◌∷◌ (answer text)) (answers replies)

written-Interleaved :
    (finished : List ℤ) (replies : List Text) (events : List (Text × Text))
    → Interleaved (map job_event finished) (map reply_event replies) events
    → Interleaved (map notice finished) (map answer replies) (map framed (map message_of events))
written-Interleaved finished replies events i =
    subst (λ xs. Interleaved xs (map answer replies) (map framed (map message_of events)))
      (notices finished)
      (subst
        (λ ys.
          Interleaved (map framed (map message_of (map job_event finished))) ys
            (map framed (map message_of events)))
        (answers replies) (Interleaved-map framed (Interleaved-map message_of i)))

module _ (lib : HttpLibrary) (json : Json) where
  Serves-Accounts :
      {begin s : Service} {ids : List ℤ}
      → Accounts [] begin.host
      → Serves lib json begin ids s
      → (finished : List ℤ) × Accounts finished s.host
  Serves-Accounts v here = ([], v)
  Serves-Accounts v (requested {s = s} env req r f n) =
      let (finished, w) = Serves-Accounts v r in
      (
        finished,
        Effect-Accounts env.fork s.host _ _ finished w f (serve-Effect lib json env req s n),
      )
  Serves-Accounts v (ended {s = s} fork pid r f n) =
      let (finished, w) = Serves-Accounts v r in ended-Accounts fork pid s finished w f n
  Serves-Accounts v (files_changed fs r) =
      let (finished, w) = Serves-Accounts v r in
      (finished, record { callback = w.callback; sent = w.sent; accounted = w.accounted })

  -- If `main` comes to serve, then after any history of HTTP requests, of ended processes and of
  -- changes of files by other processes, in which no call ended the service and each new process
  -- has a number that no active job has: the started jobs are, each once, those that are still
  -- active and those that have finished; and if the interpreter has written any texts meanwhile,
  -- whose events come in any order with those of the jobs, a client that can be written to, and
  -- whose thread runs between any two events of either kind, has received one message with the
  -- name JobFinishedEvent and the number for each finished job and one with the name
  -- ReplResponseEvent for each text, each kind in the order of its events, and nothing else.
  pub start-notices :
      (system : System) (fs : FileSystem) (argv_0 : Text) (args : List Text) (s s' : Service)
      (repl : Started) (web : Text) (ids : List ℤ) (d : Dispatcher) (received replies : List Text)
      (events : List (Text × Text))
      → start system argv_0 args fs ≡ serving s repl web
      → Serves lib json s ids s'
      → Interleaved s'.host.events (map reply_event replies) events
      → (finished : List ℤ) × Perm (finished ++ active s'.host.active_jobs) (jobs s'.host.started)
        × (new : List Text) × (follow
              (map message_of events)
              d
              (record { is_writable = true; written = received })
            ≡ some (
              send_all (map message_of events) d,
              record { is_writable = true; written = received ++ new },
            ))
        × Interleaved (map notice finished) (map answer replies) new
  unfolding framed
  start-notices system fs argv_0 args s s' repl web ids d received replies events starts r i =
      let (dir, found, opens) = start-opens system fs argv_0 args s repl web starts in
      let (finished, v) =
        Serves-Accounts (open_scheduler-Accounts system.shell dir (repo_url args) fs s.host opens)
          r in
      (
        finished,
        v.accounted,
        map framed (map message_of events),
        follow_delivers (map message_of events) d received,
        written-Interleaved finished replies events
            (subst (λ es. Interleaved es (map reply_event replies) events) v.sent i),
      )
