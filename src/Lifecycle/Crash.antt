-- ===== src/Lifecycle/Crash.antt =====
-- A job whose child cannot open its log file: testService/JobScheduler.cpp and api/Server.h.
use opcuatesttool.Prelude.{
  nat_eq, int_eq, text_eq, ◌<◌, ◌≡◌, ◌≢◌, refl, true, false, none, [], ◌∷◌, ◌++◌, ℤ, length,
  fits_int, parse_error, ◌∙◌, ap, beq_self,
}
use opcuatesttool.Prelude.Dict.{lookup-insert}
use opcuatesttool.Std.Text.{codes}
use opcuatesttool.Std.Decimal.{to_string, stoi}
use opcuatesttool.Std.Decimal.RoundTrip.{stoi-to_string}
use opcuatesttool.Std.Files.{read, can_write, write}
use opcuatesttool.Std.Files.Laws.{read-write_ne, can_write-write}
use opcuatesttool.DataBase.Defs.{request_file_path, finished_file_path, new_job}
use opcuatesttool.JobScheduler.Defs.{
  Process, Fork, forked, max_concurrent_jobs, log_path, child, open_log, retire_found,
}
use opcuatesttool.JobScheduler.Starts.{queued, with_job, create-with_job, job_finished-retire_found}
use opcuatesttool.TestService.Monad.{Service, done, raised}
use opcuatesttool.TestService.Defs.{Environment, api_callback, handle_sig_chld}
use opcuatesttool.TestService.Defs
use opcuatesttool.Api.Request.{as_new_job_response}
use opcuatesttool.Api.Handlers.{Json, HttpRequest, reply_json, handle_post_jobs, handle_get_job}
use opcuatesttool.Api.Jobs.{get_job_missing}

module _ (json : Json) (env : Environment) (s : Service) (post get : HttpRequest) (pid : ℤ)
    (no_queue : s.host.wait_queue ≡ []) (room : length s.host.active_jobs < max_concurrent_jobs)
    (forks : env.fork ≡ forked pid) (fits : fits_int s.host.db.job_id ≡ true)
    (no_log : can_write s.host.files (log_path s.host.scheduler s.host.db.job_id) ≡ false)
    (no_result : read s.host.files (finished_file_path s.host.db s.host.db.job_id) ≡ none)
    (apart : request_file_path s.host.db s.host.db.job_id
      ≢ finished_file_path s.host.db s.host.db.job_id)
    (refuses : json.parse (codes "job not found") ≡ none)
    (asks : get.match_1 ≡ to_string s.host.db.job_id) where
  s_1 : Service
  s_1 = record s { host = with_job pid post.body s.host }

  s_2 : Service
  s_2 = record s_1 { host = retire_found pid s.host.db.job_id s_1.host }

  process : Process
  process =
      child (queued post.body s.host) (new_job s.host.db post.body s.host.files).2 pid
        s.host.db.job_id

  answered : handle_post_jobs json (api_callback env) post s ≡ (
    done (
        reply_json json
          ((codes "ok", json.of_bool true) ∷ (codes "id", json.of_int s.host.db.job_id) ∷ [])),
    s_1,
  )
  unfolding handle_post_jobs api_callback Defs.new_job as_new_job_response s_1 new_job
  answered = rw (forks, create-with_job pid post.body s.host no_queue room)

  cannot_log :
      can_write
        (write s.host.files (request_file_path s.host.db s.host.db.job_id) post.body)
        (log_path s.host.scheduler s.host.db.job_id)
      ≡ false
  cannot_log = can_write-write _ _ _ _ ∙ no_log

  crashes : process.image ≡ none
  unfolding process child new_job
  crashes = rw cannot_log refl

  has_ended : (fork : Fork) → handle_sig_chld fork pid s_1 ≡ (done tt, s_2)
  unfolding handle_sig_chld s_1 s_2 new_job
  has_ended fork = rw (
      job_finished-retire_found fork pid s.host.db.job_id s_1.host
        (lookup-insert pid pid s.host.db.job_id s.host.active_jobs ∙ rw (beq_self pid) refl) refl)

  still_missing : read s_2.host.files (finished_file_path s.host.db s.host.db.job_id) ≡ none
  unfolding s_1 s_2 new_job open_log write
  still_missing = rw cannot_log (read-write_ne s.host.files _ _ post.body apart ∙ no_result)

  -- Where the log file of the next job cannot be opened, no job waits, fewer than four are active,
  -- `fork` succeeds, the number fits in an `int`, there is no result with that number, the paths
  -- of its request and its result differ, and the JSON parser refuses the text "job not found":
  -- POST /api/jobs nevertheless answers the number and starts a process as the last one, whose
  -- child never comes to run the runner; when its end is handled, whatever `fork` does, the
  -- service goes on; and GET /api/jobs/<number> then fails with the error of the parser.
  pub job_crashed :
      (s' : Service) × (process : Process) × (s'' : Service) × (handle_post_jobs json
          (api_callback env)
          post
          s
        ≡ (
          done (
              reply_json json (
                (codes "ok", json.of_bool true) ∷ (codes "id", json.of_int s.host.db.job_id) ∷ [])),
          s',
        ))
      × (s'.host.started ≡ s.host.started ++ process ∷ [])
      × (process.image ≡ none)
      × ((fork : Fork) → handle_sig_chld fork process.pid s' ≡ (done tt, s''))
      × (handle_get_job json (api_callback env) get s'' ≡ (raised parse_error, s''))
  unfolding process s_1 s_2 child new_job
  job_crashed = (
    s_1,
    process,
    s_2,
    answered,
    refl,
    crashes,
    has_ended,
    get_job_missing json env get s_2 s.host.db.job_id
        (ap stoi asks ∙ stoi-to_string s.host.db.job_id fits) still_missing refuses,
  )
