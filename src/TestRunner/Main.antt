-- ===== src/TestRunner/Main.antt =====
-- testrunner/JobFactory.cpp, `Job::addResult` of testrunner/Job.cpp and `main` of
-- testrunner/TestRunner.cpp. The scripts have no library for files, so a run changes none; what
-- they print goes to the standard output, which is not modelled.
use opcuatesttool.Prelude.{
  ℕ, Option, none, some, List, [], ◌∷◌, ℤ, Result, ok, throw, parse_error, ◌>>=◌,
}
use opcuatesttool.Std.Text.{Text, codes}
use opcuatesttool.Std.Decimal.{stoi}
use opcuatesttool.Std.Files.{FileSystem, ◌/◌, read, write}
use opcuatesttool.TestRunner.Job.{
  JobStatus, init, pending, running, finished, aborted, Run, Job, new_job, execute,
}

-- nlohmann::json as the runner uses it, with the `double` of a run. `parse` throws at a text that
-- is not JSON, `member` is `at(…).get<std::string>()`, and an object is given by its members.
pub record RunnerJson (Duration : Type 0) : Type 1 where
  pub Value : Type 0
  pub parse : Text → Option Value
  pub dump : Value → Text
  pub member : Text → Value → Result Text
  pub of_text : Text → Value
  pub of_int : ℤ → Value
  pub of_double : Duration → Value
  pub of_object : List (Text × Value) → Value

-- How the process of the runner ends, and the files it leaves.
pub data Exit : Type 0 where
  exit_code : ℕ → FileSystem → Exit
  uncaught : FileSystem → Exit  -- an exception leaves `main`

unfoldable pub status_code : JobStatus → Text
status_code finished = codes "Ok"
status_code init = codes "Error"
status_code pending = codes "Error"
status_code running = codes "Error"
status_code aborted = codes "Error"

module _ (run : Run) (json : RunnerJson run.Duration) where
  open json use {Value, parse, dump, member, of_text, of_int, of_double, of_object}

  abbrev pub parsed : Option Value → Result Value
  parsed none = throw parse_error
  parsed (some v) = ok v

  -- A stream that could not be opened has no text.
  abbrev pub text_of : Option Text → Text
  text_of none = []
  text_of (some text) = text

  -- `json::parse` of a file.
  unfoldable pub parse_file : Text → FileSystem → Result Value
  parse_file path fs = parsed (parse (text_of (read fs path)))

  unfoldable pub create_from_file : Text → Text → FileSystem → Result (Job run)
  unfolding parse_file
  create_from_file path script_dir fs = do
    j ← parse_file path fs
    name ← member (codes "name") j
    server_uri ← member (codes "serverUri") j
    script_name ← member (codes "script") j
    ok (new_job run name server_uri script_dir script_name)

  unfoldable pub result_of : Job run → ℤ → Value
  unfolding status_code
  result_of job id = of_object (
      (codes "id", of_int id)
      ∷ (codes "ts_start", of_int job.start)
      ∷ (codes "ts_stop", of_int job.stop)
      ∷ (codes "totalRuntime_ms", of_double job.total_runtime_ms)
      ∷ (codes "statusCode", of_text (status_code job.status))
      ∷ [])

  unfoldable pub add_result : Job run → Text → Text → ℤ → FileSystem → Result FileSystem
  unfolding parse_file result_of
  add_result job input_file output_file id fs = do
    j ← parse_file input_file fs
    ok (
        write fs output_file
          (dump (of_object ((codes "result", result_of job id) ∷ (codes "request", j) ∷ []))))

  -- What follows `execute`.
  unfoldable pub record_job : Text → Text → Text → Option (Job run) → FileSystem → Exit
  unfolding add_result
  record_job finished_dir requests_dir job_name none fs = uncaught fs
  record_job finished_dir requests_dir job_name (some job) fs =
      elim (stoi job_name >>= λ id.
      add_result job (requests_dir / job_name) (finished_dir / job_name) id fs) [
        | ok fs' ↦ exit_code 0 fs'
        | throw x ↦ uncaught fs
      ]

  unfoldable pub run_job : Text → Text → Text → Text → FileSystem → Exit
  unfolding create_from_file record_job
  run_job finished_dir requests_dir job_name script_dir fs =
      elim (create_from_file (requests_dir / job_name) script_dir fs) [
        | ok job ↦ record_job finished_dir requests_dir job_name (execute run job) fs
        | throw x ↦ uncaught fs
      ]

  unfoldable pub main : List Text → FileSystem → Exit
  unfolding run_job
  main (program ∷ working_dir ∷ finished_dir ∷ requests_dir ∷ job_name ∷ script_dir ∷ []) fs =
      run_job finished_dir requests_dir job_name script_dir fs
  main argv fs = exit_code 1 fs
