-- ===== src/Tests/Living.antt =====
-- Histories of the service, and one job from its request to its answer.
use opcuatesttool.Prelude.{
  ℕ, ℤ, map, true, nat_eq, int_eq, text_eq, ◌≡◌, ◌≢◌, refl, Bool, none, some, Option, List, [], ◌∷◌,
  ◌++◌, ◌==◌, if◌then◌else◌, pos, arith, ok, add_int, Exception,
}
use opcuatesttool.Prelude.Dict.{lookup, insert, erase}
use opcuatesttool.Std.Text.{Text, codes}
use opcuatesttool.Std.Decimal.{to_string}
use opcuatesttool.Std.Files.{FileSystem, exists, split_path, read, can_write}
use opcuatesttool.DataBase.Defs.{new_job, construct, initialize, recover_id, members as members_of}
use opcuatesttool.DataBase.Requests.{Holds}
use opcuatesttool.JobScheduler.Defs.{
  open_scheduler, Process, Image, Fork, forked, create, enqueue, schedule, schedule_front, launch,
  job_finished, retire,
}
use opcuatesttool.JobScheduler.Invariant.{Inv, jobs}
use opcuatesttool.TestService.Monad.{with_files, Service, Outcome, done, raised, exited}
use opcuatesttool.TestService.Defs.{Environment, api_callback, handle_sig_chld}
use opcuatesttool.TestService.Defs
use opcuatesttool.TestService.History.{Serves, here, requested, ended}
use opcuatesttool.JobScheduler.Queries
use opcuatesttool.TestService.Notices.{
  message_of, notice, answer, reply_event, Interleaved, neither, first, second, start-notices,
}
use mathlib.Core.List.{Perm}
use opcuatesttool.JobScheduler.Accounts.{active, job_event}
use opcuatesttool.Events.Dispatcher.{init, send_all}
use opcuatesttool.Events.Wakeups.{follow}
use opcuatesttool.TestService.Life.{start-Inv}
use opcuatesttool.TestService.Main.{start, serving, binary_path, repo_url}
use opcuatesttool.TestService.Main
use opcuatesttool.Repl.Process.{Started, start_repl}
use opcuatesttool.Tests.Starting.{system}
use opcuatesttool.Api.Request.{as_new_job_response, as_get_scripts_response}
use opcuatesttool.Api.Handlers.{
  Json, HttpRequest, reply_json, handle, handle_post_jobs, handle_post_script, handle_get_job,
}
use opcuatesttool.Std.Lua.{returns}
use opcuatesttool.TestRunner.Runtime.{load, after_connect, after_file}
use opcuatesttool.TestRunner.Job.{
  Run, Job, JobStatus, execute, after_load, eval, after_eval, new_job as new_run,
}
use opcuatesttool.TestRunner.Main.{RunnerJson, exit_code, main, result_of}
use opcuatesttool.Api.Routes.{
  post, Target, routes, match, all_in_line, all_digits, span_digits, matching, strip,
}
use opcuatesttool.Api.Server.{HttpLibrary, Incoming, serve}
use opcuatesttool.Lifecycle.{server_json, job_answered}
use opcuatesttool.Tests.Loading.{lua_with}
use opcuatesttool.Tests.Data.{no_files, service, environment}

-- Every script runs to its end.
abbrev pub run : Run
run = record {
  Duration = ℕ;
  zero_ms = 0;
  lua = lua_with (λ path. returns);
  connect = λ server. returns;
  start_time = pos 100;
  stop_time = pos 107;
  elapsed_ms = 7;
}

unfoldable pub members : List (Text × Text) → Text
members [] = []
members ((k, v) ∷ ms) = k ++ codes ":" ++ v ++ codes ";" ++ members ms

-- JSON as its text; the text of a request is the name of its script.
abbrev pub json : RunnerJson ℕ
json = record {
  Value = Text;
  parse = λ t. some t;
  dump = λ v. v;
  member = λ k v. if k == codes "script" then ok v else ok k;
  of_text = λ t. t;
  of_int = to_string;
  of_double = λ d. to_string (pos d);
  of_object = members;
}

abbrev pub of_bool : Bool → Text
of_bool b = if b then codes "true" else codes "false"

abbrev pub web_json : Json
web_json = server_json json of_bool

abbrev request : Text → Text → HttpRequest
request match_1 body = record { param = λ k. none; match_1 = match_1; body = body }

abbrev idle : Service
idle = service no_files

unfoldable pub first_of : List (Target × Text) → Option (Target × Text)
first_of [] = none
first_of (x ∷ xs) = some x

abbrev pub library : HttpLibrary
library = record {
  mounted_file = λ path. none;
  choose = λ rs method path. first_of (matching method path rs);
}

abbrev pub incoming : Text → Text → Incoming
incoming path body = record { method = post; path = path; param = λ k. none; body = body }

abbrev first_served : Service
first_served =
    (serve library web_json (api_callback environment)
      (incoming (codes "/api/jobs") (codes "read.lua")) idle).1

pub done_ne : {A : Type 0} (a : A) → ◌≢◌ {A = Outcome A} (done a) exited
done_ne a e = cc

raised_ne : {A : Type 0} (x : Exception) → ◌≢◌ {A = Outcome A} (raised x) exited
raised_ne x e = cc

idle_starts :
    (repl : Started) × (web : Text) × (start system
        (codes "w/testService")
        (codes "git" ∷ [])
        no_files
      ≡ serving idle repl web)
unfolding start binary_path split_path Main.construct start_repl open_scheduler construct initialize
    exists recover_id members_of repo_url
idle_starts = (_, _, refl)

abbrev after_end : Service
after_end = (handle_sig_chld (forked (pos 8)) (pos 7) first_served).1

abbrev after_script : Service
after_script =
    (serve library web_json (api_callback environment)
      (incoming (codes "/api/scripts/new.lua") (codes "write()")) after_end).1

-- A job is created, its process ends, and a script is posted, whose handler throws.
history : Serves library web_json idle (pos 0 ∷ []) after_script
unfolding serve first_of strip all_in_line all_digits span_digits match routes matching handle
    handle_post_jobs handle_post_script api_callback Defs.new_job Defs.update_script
    as_new_job_response as_get_scripts_response handle_sig_chld create enqueue new_job add_int
    schedule schedule_front launch lookup insert erase job_finished retire
history =
    requested environment (incoming (codes "/api/scripts/new.lua") (codes "write()"))
      (ended (forked (pos 8)) (pos 7)
        (requested environment (incoming (codes "/api/jobs") (codes "read.lua")) here refl
          (done_ne _))
        refl (done_ne tt))
      refl (raised_ne _)

start-Inv_example : Inv (pos 0 ∷ []) after_script.host
start-Inv_example =
    start-Inv system no_files library web_json (codes "w/testService") (codes "git" ∷ []) idle
      after_script idle_starts.0 idle_starts.1 (pos 0 ∷ []) idle_starts.2 history

-- The interpreter writes a prompt, then the process of the job ends.
abbrev all_events : List (Text × Text)
all_events = reply_event (codes "> ") ∷ after_script.host.events

prompt_and_job : Interleaved after_script.host.events (reply_event (codes "> ") ∷ []) all_events
unfolding serve first_of strip all_in_line all_digits span_digits match routes matching handle
    handle_post_jobs handle_post_script api_callback Defs.new_job Defs.update_script
    as_new_job_response as_get_scripts_response handle_sig_chld create enqueue new_job add_int
    schedule schedule_front launch lookup insert erase job_finished retire Queries.update_script
prompt_and_job = second (reply_event (codes "> ")) (first (job_event (pos 0)) neither)

start-notices_example :
    (finished : List ℤ) × Perm
      (finished ++ active after_script.host.active_jobs)
      (jobs after_script.host.started)
    × (new : List Text) × (follow
          (map message_of all_events)
          init
          (record { is_writable = true; written = [] })
        ≡ some (
          send_all (map message_of all_events) init,
          record { is_writable = true; written = [] ++ new },
        ))
    × Interleaved (map notice finished) (map answer (codes "> " ∷ [])) new
start-notices_example =
    start-notices library web_json system no_files (codes "w/testService") (codes "git" ∷ []) idle
      after_script idle_starts.0 idle_starts.1 (pos 0 ∷ []) init [] (codes "> " ∷ []) all_events
      idle_starts.2 history prompt_and_job

empty-Holds : Holds (codes "w/jobs/requests") no_files []
unfolding read lookup
empty-Holds = record {
  ready = record { there = refl; numbers_free = λ i. refl };
  file = λ i h. refl;
}

abbrev ran : Job run
ran = record {
  name = codes "name";
  server_uri = codes "serverUri";
  script_dir = codes "w/repo/scripts";
  script = codes "read.lua";
  status = JobStatus.finished;
  total_runtime_ms = 7;
  start = pos 100;
  stop = pos 107;
}

job_answered_example :
    (s' : Service) × (process : Process) × (image : Image) × (fs : FileSystem) × (s'' : Service)
    × (handle_post_jobs web_json (api_callback environment) (request [] (codes "read.lua")) idle ≡ (
      done (reply_json web_json ((codes "ok", codes "true") ∷ (codes "id", codes "0") ∷ [])),
      s',
    ))
    × (s'.host.started ≡ process ∷ [])
    × (process.image ≡ some image)
    × (main run json image.argv s'.host.files ≡ exit_code 0 fs)
    × ((fork : Fork) → handle_sig_chld fork process.pid (with_files fs s') ≡ (done tt, s''))
    × (handle_get_job web_json (api_callback environment) (request (codes "0") []) s'' ≡ (
      done (
          reply_json web_json (
            (codes "statusCode", codes "true")
            ∷ (
              codes "response",
              codes
                  "result:id:0;ts_start:100;ts_stop:107;totalRuntime_ms:7;statusCode:Ok;;request:read.lua;",
            )
            ∷ [])),
      s'',
    ))
unfolding can_write execute load after_connect after_file after_load eval after_eval new_run
    to_string result_of members
job_answered_example =
    job_answered run json of_bool environment idle (request [] (codes "read.lua"))
      (request (codes "0") []) (pos 7) [] (codes "read.lua") (codes "name") (codes "serverUri")
      (codes "read.lua") ran (refl, record { next_id = refl; holds = empty-Holds }) (omega arith)
      refl (omega arith) refl refl refl refl refl refl refl refl (λ v. refl) refl
