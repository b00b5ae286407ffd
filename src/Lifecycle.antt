-- ===== src/Lifecycle.antt =====
-- One job through all parts: api/Server.h takes it, testService/JobScheduler.cpp starts a runner for
-- it, testrunner/TestRunner.cpp writes its result, and api/Server.h answers with that. The service
-- and the runner use the same JSON library.
pub mod Crash
use opcuatesttool.Prelude.{
  suc, nat_eq, int_eq, text_eq, ◌<◌, ◌≡◌, refl, Bool, true, some, List, [], ◌∷◌, ◌++◌, ℤ, pos,
  length, ok, int_half, lt→ltb, get_elem?-append_last, ◌∙◌, ap, arith, beq_self,
}
use opcuatesttool.Prelude.Dict.{lookup-insert}
use opcuatesttool.Std.Text.{Text, codes}
use opcuatesttool.Std.Decimal.{to_string, stoi}
use opcuatesttool.Std.Decimal.RoundTrip.{stoi-to_string}
use opcuatesttool.Std.Files.{FileSystem, read, can_write, write}
use opcuatesttool.Std.Files.Laws.{read-write_self, can_write-write}
use opcuatesttool.DataBase.Defs.{request_file_path, finished_file_path, new_job}
use opcuatesttool.JobScheduler.Defs.{
  Process, Image, Fork, forked, max_concurrent_jobs, log_path, runner, child, open_log,
  retire_found, create,
}
use opcuatesttool.JobScheduler.Storage.{Stores, create-Stores}
use opcuatesttool.JobScheduler.Starts.{queued, with_job, create-with_job, job_finished-retire_found}
use opcuatesttool.TestService.Monad.{Service, done, with_files}
use opcuatesttool.TestService.Defs.{Environment, api_callback, handle_sig_chld}
use opcuatesttool.TestService.Defs
use opcuatesttool.Api.Request.{as_new_job_response}
use opcuatesttool.Api.Handlers.{Json, HttpRequest, reply_json, handle_post_jobs, handle_get_job}
use opcuatesttool.Api.Jobs.{get_job_found}
use opcuatesttool.TestRunner.Job.{Run, Job, new_job as new_run, execute}
use opcuatesttool.TestRunner.Main.{RunnerJson, exit_code, main, result_of}
use opcuatesttool.TestRunner.Results.{result_text, records}

-- The JSON library of the runner, as the service uses it.
abbrev pub server_json : {D : Type 0} (json : RunnerJson D) → (Bool → json.Value) → Json
server_json json of_bool = record {
  Value = json.Value;
  parse = json.parse;
  dump = json.dump;
  of_bool = of_bool;
  of_int = json.of_int;
  of_object = json.of_object;
}

module _ (run : Run) (json : RunnerJson run.Duration) (of_bool : Bool → json.Value)
    (env : Environment) (s : Service) (post get : HttpRequest) (pid : ℤ) (requests : List Text)
    (j : json.Value) (name server_uri script : Text) (job' : Job run)
    (stores : Stores s.host requests) (fits : suc (length requests) < int_half)
    (no_queue : s.host.wait_queue ≡ []) (room : length s.host.active_jobs < max_concurrent_jobs)
    (forks : env.fork ≡ forked pid) (parses : json.parse post.body ≡ some j)
    (has_name : json.member (codes "name") j ≡ ok name)
    (has_uri : json.member (codes "serverUri") j ≡ ok server_uri)
    (has_script : json.member (codes "script") j ≡ ok script)
    (logs : can_write s.host.files (log_path s.host.scheduler (pos (length requests))) ≡ true)
    (writable : can_write s.host.files (finished_file_path s.host.db (pos (length requests)))
      ≡ true)
    (executes : execute run (new_run run name server_uri s.host.db.script_dir script) ≡ some job')
    (reads_back : (v : json.Value) → json.parse (json.dump v) ≡ some v)
    (asks : get.match_1 ≡ to_string (pos (length requests))) where
  id : ℤ
  id = pos (length requests)

  s_1 : Service
  s_1 = record s { host = with_job pid post.body s.host }

  job_created : create (forked pid) post.body s.host ≡ some (id, with_job pid post.body s.host)
  unfolding new_job id
  job_created =
      create-with_job pid post.body s.host no_queue room
      ∙ ap (λ i. some (i, with_job pid post.body s.host)) stores.1.next_id

  answered : handle_post_jobs (server_json json of_bool) (api_callback env) post s ≡ (
    done (
        reply_json
          (server_json json of_bool)
          ((codes "ok", of_bool true) ∷ (codes "id", json.of_int id) ∷ [])),
    s_1,
  )
  unfolding handle_post_jobs api_callback Defs.new_job as_new_job_response s_1
  answered = rw (forks, job_created)

  process : Process
  process = child (queued post.body s.host) (new_job s.host.db post.body s.host.files).2 pid id

  image : Image
  image = runner (queued post.body s.host) id

  can_log :
      can_write (new_job s.host.db post.body s.host.files).2 (log_path s.host.scheduler id) ≡ true
  unfolding id new_job
  can_log = can_write-write _ _ _ _ ∙ logs

  runs : process.image ≡ some image
  unfolding process image child
  runs = rw can_log refl

  started_last : s_1.host.started ≡ s.host.started ++ process ∷ []
  unfolding new_job s_1 process id
  started_last =
      ap
        (λ i.
          s.host.started
          ++ child (queued post.body s.host) (new_job s.host.db post.body s.host.files).2 pid i
            ∷ [])
        stores.1.next_id

  stored : read s_1.host.files (request_file_path s.host.db id) ≡ some post.body
  unfolding s_1 id new_job
  stored =
      (create-Stores (forked pid) post.body s.host (with_job pid post.body s.host) id requests
          stores fits job_created).1.1.holds.file
        (length requests) (omega arith)
      ∙ get_elem?-append_last requests post.body

  can_write_result : can_write s_1.host.files (finished_file_path s.host.db id) ≡ true
  unfolding s_1 id new_job open_log
  can_write_result = can_write-write _ _ _ _ ∙ can_write-write _ _ _ _ ∙ writable

  fs' : FileSystem
  fs' = write s_1.host.files (finished_file_path s.host.db id) (result_text run json id j job')

  ran : main run json image.argv s_1.host.files ≡ exit_code 0 fs'
  unfolding s_1 id image fs' new_job
  ran =
      records run json (queued post.body s.host) id s_1.host.files post.body j name server_uri
        script (lt→ltb _ _ (omega arith)) stored parses has_name has_uri has_script job' executes

  s_2 : Service
  s_2 = record s_1 { host = retire_found pid id (with_files fs' s_1).host }

  has_ended : (fork : Fork) → handle_sig_chld fork pid (with_files fs' s_1) ≡ (done tt, s_2)
  unfolding handle_sig_chld s_1 s_2 id new_job
  has_ended fork = rw (
      job_finished-retire_found fork pid id (with_files fs' s_1).host
        (lookup-insert pid pid s.host.db.job_id s.host.active_jobs
          ∙ rw (beq_self pid) (ap some stores.1.next_id))
        refl)

  result_read :
      read s_2.host.files (finished_file_path s.host.db id) ≡ some (result_text run json id j job')
  unfolding s_2 fs'
  result_read = read-write_self s_1.host.files (finished_file_path s.host.db id) _ can_write_result

  -- One job through all parts, where the service holds `requests`, no job waits, fewer than four
  -- are active, `fork` succeeds, the numbers fit, the body is JSON with the three members, the log
  -- file and the result file can be written, the script's run ends in a state of the job, and JSON
  -- that is written is read back: POST /api/jobs answers the next number and starts a process as
  -- the last one, whose child comes to run the runner; the runner with the arguments that it is
  -- given ends with exit code 0; when its end is handled, whatever `fork` does, the service goes
  -- on; and GET /api/jobs/<number> then answers the result of that run together with the request.
  pub job_answered :
      (s' : Service) × (process : Process) × (image : Image) × (fs : FileSystem) × (s'' : Service)
      × (handle_post_jobs (server_json json of_bool) (api_callback env) post s ≡ (
        done (
            reply_json (server_json json of_bool) (
              (codes "ok", of_bool true) ∷ (codes "id", json.of_int (pos (length requests))) ∷ [])),
        s',
      ))
      × (s'.host.started ≡ s.host.started ++ process ∷ [])
      × (process.image ≡ some image)
      × (main run json image.argv s'.host.files ≡ exit_code 0 fs)
      × ((fork : Fork) → handle_sig_chld fork process.pid (with_files fs s') ≡ (done tt, s''))
      × (handle_get_job (server_json json of_bool) (api_callback env) get s'' ≡ (
        done (
            reply_json (server_json json of_bool) (
              (codes "statusCode", of_bool true)
              ∷ (
                codes "response",
                json.of_object (
                    (codes "result", result_of run json job' (pos (length requests)))
                    ∷ (codes "request", j)
                    ∷ []),
              )
              ∷ [])),
        s'',
      ))
  unfolding process image id new_job s_1 s_2 child runner
  job_answered = (
    s_1,
    process,
    image,
    fs',
    s_2,
    answered,
    started_last,
    runs,
    ran,
    has_ended,
    get_job_found (server_json json of_bool) env get s_2 id (result_text run json id j job') _
        (ap stoi asks ∙ stoi-to_string id (lt→ltb _ _ (omega arith))) result_read (reads_back _),
  )
