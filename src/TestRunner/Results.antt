-- ===== src/TestRunner/Results.antt =====
-- The runner as the scheduler starts it: from the request of a job to the result that the service
-- reads.
use opcuatesttool.Prelude.{◌≡◌, refl, true, some, ℤ, ok, fits_int, ◌∷◌, [], ◌∙◌, ap, ◌⊎◌, inl, inr}
use opcuatesttool.Std.Text.{Text, codes}
use opcuatesttool.Std.Decimal.{to_string}
use opcuatesttool.Std.Decimal.RoundTrip.{stoi-to_string}
use opcuatesttool.Std.Files.{FileSystem, ◌/◌, read, can_write, write}
use opcuatesttool.Std.Files.Laws.{read-write_self}
use opcuatesttool.DataBase.Defs.{request_file_path, finished_file_path, get_finished_job}
use opcuatesttool.JobScheduler.Defs.{JobScheduler, runner}
use opcuatesttool.Std.Lua.{Call, returns, throws_opc_exception, throws_std_exception, throws_other}
use opcuatesttool.TestRunner.Runtime.{load}
use opcuatesttool.TestRunner.Job.{
  finished, aborted, Run, Job, new_job, eval, after_eval, after_load, execute,
}
use opcuatesttool.TestRunner.Main.{
  RunnerJson, exit_code, uncaught, status_code, parse_file, create_from_file, result_of, add_result,
  record_job, run_job, main,
}

-- An exception that `execute` handles.
abbrev pub IsCaught : Call → Type 0
IsCaught c = (c ≡ throws_opc_exception) ⊎ (c ≡ throws_std_exception)

-- The text of the result file.
abbrev pub result_text :
    (run : Run) (json : RunnerJson run.Duration) → ℤ → json.Value → Job run → Text
result_text run json id j job =
    json.dump
      (json.of_object ((codes "result", result_of run json job id) ∷ (codes "request", j) ∷ []))

module _ (run : Run) (json : RunnerJson run.Duration) (s : JobScheduler) (id : ℤ) (fs : FileSystem)
    (request : Text) (j : json.Value) (name server_uri script : Text) (fits : fits_int id ≡ true)
    (stored : read fs (request_file_path s.db id) ≡ some request)
    (parses : json.parse request ≡ some j) (has_name : json.member (codes "name") j ≡ ok name)
    (has_uri : json.member (codes "serverUri") j ≡ ok server_uri)
    (has_script : json.member (codes "script") j ≡ ok script) where
  abbrev pub job : Job run
  job = new_job run name server_uri s.db.script_dir script

  -- How the loading ends, and the interpreter after it.
  abbrev pub loaded : Call × run.lua.State
  loaded = load run.lua run.connect server_uri s.db.script_dir

  request_parses : parse_file run json (request_file_path s.db id) fs ≡ ok j
  unfolding parse_file
  request_parses = rw (stored, parses)

  loads_job : create_from_file run json (request_file_path s.db id) s.db.script_dir fs ≡ ok job
  unfolding create_from_file
  loads_job = rw (request_parses, create_from_file, has_name, has_uri, has_script)

  -- The arguments that the scheduler passes are those that the runner takes.
  main-child :
      main run json (runner s id).argv fs
      ≡ record_job run json s.db.jobs_finished_dir s.db.jobs_requests_dir
          (to_string id)
          (execute run job)
          fs
  unfolding main runner run_job
  main-child = rw (loads_job, run_job)

  pub records :
      (job' : Job run)
      → execute run job ≡ some job'
      → main run json (runner s id).argv fs
        ≡ exit_code 0 (write fs (finished_file_path s.db id) (result_text run json id j job'))
  unfolding record_job add_result
  records job' e =
      main-child
      ∙ ap
          (λ o.
            record_job run json s.db.jobs_finished_dir s.db.jobs_requests_dir (to_string id) o fs)
          e
      ∙ recorded
    where
      recorded :
          record_job run json s.db.jobs_finished_dir s.db.jobs_requests_dir
            (to_string id)
            (some job')
            fs
          ≡ exit_code 0 (write fs (finished_file_path s.db id) (result_text run json id j job'))
      recorded = rw (stoi-to_string id fits, request_parses, record_job, add_result)

  get_finished_job-write :
      (text : Text)
      → can_write fs (finished_file_path s.db id) ≡ true
      → get_finished_job s.db id (write fs (finished_file_path s.db id) text) ≡ text
  unfolding get_finished_job
  get_finished_job-write text w = rw (read-write_self fs (finished_file_path s.db id) text w)

  -- The runner with the arguments that the scheduler's child passes for job `id`, where the
  -- request is stored, is JSON with the three members, the result file can be written, and the
  -- loading and the script return: it ends with exit code 0, and then the service reads as the
  -- result of the job an object with its number, the times of the run, the status "Ok" and the
  -- request.
  pub child_finished :
      can_write fs (finished_file_path s.db id) ≡ true
      → loaded.0 ≡ returns
      → run.lua.script_file (s.db.script_dir / script) loaded.1 ≡ returns
      → (fs' : FileSystem) × (main run json (runner s id).argv fs ≡ exit_code 0 fs')
        × (get_finished_job s.db id fs'
            ≡ json.dump (
                json.of_object (
                  (
                    codes "result",
                    json.of_object (
                        (codes "id", json.of_int id)
                        ∷ (codes "ts_start", json.of_int run.start_time)
                        ∷ (codes "ts_stop", json.of_int run.stop_time)
                        ∷ (codes "totalRuntime_ms", json.of_double run.elapsed_ms)
                        ∷ (codes "statusCode", json.of_text (codes "Ok"))
                        ∷ []),
                  )
                  ∷ (codes "request", j)
                  ∷ [])))
  unfolding execute after_load eval after_eval new_job result_of
  child_finished w loads runs = (_, records ran (rw (loads, runs)), get_finished_job-write _ w)
    where
      ran : Job run
      ran = record job {
        start = run.start_time;
        stop = run.stop_time;
        total_runtime_ms = run.elapsed_ms;
        status = finished;
      }

  abbrev stopped_in_script : Job run
  stopped_in_script = record job { start = run.start_time; status = aborted }

  -- A run that ends with an exception that `execute` handles.
  aborts :
      (loaded.0 ≡ returns) × IsCaught (run.lua.script_file (s.db.script_dir / script) loaded.1)
        ⊎ IsCaught (loaded.0)
      → (job' : Job run) × (execute run job ≡ some job') × (job'.status ≡ aborted)
  unfolding execute after_load eval after_eval new_job
  aborts (inl (loads, inl fails)) = (stopped_in_script, rw (loads, fails), refl)
  aborts (inl (loads, inr fails)) = (stopped_in_script, rw (loads, fails), refl)
  aborts (inr (inl fails)) = (record job { status = aborted }, rw fails, refl)
  aborts (inr (inr fails)) = (record job { status = aborted }, rw fails, refl)

  -- The runner with the arguments that the scheduler's child passes for job `id`, where the
  -- request is stored, is JSON with the three members, the result file can be written, and the
  -- loading, or after it the script, throws an exception that `execute` handles: it ends with exit
  -- code 0, and then the service reads a result of that job whose status is "Error".
  pub child_aborted :
      can_write fs (finished_file_path s.db id) ≡ true
      → (loaded.0 ≡ returns) × IsCaught (run.lua.script_file (s.db.script_dir / script) loaded.1)
        ⊎ IsCaught (loaded.0)
      → (fs' : FileSystem) × (job' : Job run) × (main run json (runner s id).argv fs
          ≡ exit_code 0 fs')
        × (get_finished_job s.db id fs' ≡ result_text run json id j job')
        × (status_code job'.status ≡ codes "Error")
  unfolding status_code
  child_aborted w fails =
      let (job', e, status) = aborts fails in
      (_, job', records job' e, get_finished_job-write _ w, rw status)

  -- The runner with the arguments that the scheduler's child passes for job `id`, where the
  -- request is stored and is JSON with the three members, and the loading, or after it the script,
  -- throws what `execute` does not handle: an exception leaves `main`, and no file has changed.
  child_uncaught :
      (loaded.0 ≡ returns)
          × (run.lua.script_file (s.db.script_dir / script) loaded.1 ≡ throws_other)
        ⊎ (loaded.0 ≡ throws_other)
      → main run json (runner s id).argv fs ≡ uncaught fs
  unfolding execute after_load eval after_eval new_job record_job
  child_uncaught (inl (loads, fails)) = main-child ∙ rw (loads, fails)
  child_uncaught (inr fails) = main-child ∙ rw fails
