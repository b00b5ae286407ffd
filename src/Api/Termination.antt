-- ===== src/Api/Termination.antt =====
-- The handlers of api/Server.h end: the only loops under them are those of `getFinishedJobs`.
use opcuatesttool.Prelude.{nat_eq, ◌≡◌, ◌≢◌, true, Option, none, some, ℤ, ok, fits_int, arith}
use opcuatesttool.Std.Text.{Text, codes}
use opcuatesttool.Std.Decimal.Range.{stoi-fits}
use opcuatesttool.DataBase.Termination.{get_finished_jobs-ends}
use opcuatesttool.JobScheduler.Queries
use opcuatesttool.TestService.Monad.{Service, no_fuel}
use opcuatesttool.TestService.Defs.{
  Environment, api_callback, new_job, get_jobs, get_finished_job, get_scripts, get_script,
  update_script, get_job_log, get_targets, new_line_repl, clone_script_repo,
}
use opcuatesttool.Api.Request.{
  as_response, as_new_job_response, as_get_job_response, as_get_scripts_response,
  as_get_script_response, as_get_job_log_response, as_get_targets_response,
  as_clone_script_repo_response,
}
use opcuatesttool.Api.Handlers.{
  Json, HttpRequest, Endpoint, get_api_jobs, get_api_scripts, put_api_repo_clone, get_api_script,
  post_api_script, post_api_jobs, get_api_job, get_api_job_log, get_api_targets, post_api_repl,
  int_param, handle_get_jobs, handle_get_scripts, handle_clone, handle_get_script,
  handle_post_script, handle_post_jobs, handle_get_job, handle_get_job_log, handle_get_targets,
  handle_post_repl, handle,
}

int_param-fits : (o : Option Text) (i : ℤ) → int_param o ≡ ok i → fits_int i ≡ true
int_param-fits none i e = ground (arith, e)
int_param-fits (some t) i e = stoi-fits t i e

get_jobs-ends :
    (from max : ℤ) (s : Service)
    → fits_int from ≡ true
    → fits_int max ≡ true
    → (get_jobs from max s).0 ≢ no_fuel
unfolding get_jobs Queries.get_finished_jobs
get_jobs-ends from max s f m h =
    ground (arith, get_finished_jobs-ends s.host.db s.host.files from max f m)

module _ (json : Json) (env : Environment) (req : HttpRequest) (s : Service) where
  get_api_jobs-ends : (handle_get_jobs json (api_callback env) req s).0 ≢ no_fuel
  unfolding handle_get_jobs api_callback as_get_job_response
  get_api_jobs-ends h = grind (
    arith,
    int_param-fits (req.param (codes "from")),
    int_param-fits (req.param (codes "max")),
    get_jobs-ends,
  )

  get_api_scripts-ends : (handle_get_scripts json (api_callback env) req s).0 ≢ no_fuel
  unfolding handle_get_scripts api_callback get_scripts as_get_scripts_response
  get_api_scripts-ends h = ground arith

  post_api_jobs-ends : (handle_post_jobs json (api_callback env) req s).0 ≢ no_fuel
  unfolding handle_post_jobs api_callback new_job as_new_job_response
  post_api_jobs-ends h = ground arith

  get_api_job-ends : (handle_get_job json (api_callback env) req s).0 ≢ no_fuel
  unfolding handle_get_job api_callback get_finished_job as_get_job_response
  get_api_job-ends h = ground arith

  get_api_job_log-ends : (handle_get_job_log json (api_callback env) req s).0 ≢ no_fuel
  unfolding handle_get_job_log api_callback get_job_log as_get_job_log_response
  get_api_job_log-ends h = ground arith

  -- The handler of every endpoint ends, for any request and any state of the service, also where
  -- the numbers of GET /api/jobs add up to more than an `int` holds: the bound of the modelled
  -- loops is always enough.
  pub handle-ends : (e : Endpoint) → (handle json e (api_callback env) req s).0 ≢ no_fuel
  unfolding handle handle_clone handle_get_script handle_post_script handle_get_targets
      handle_post_repl api_callback clone_script_repo get_script get_targets new_line_repl
      update_script as_clone_script_repo_response as_get_script_response as_get_targets_response
      as_get_scripts_response as_response
  handle-ends get_api_jobs = get_api_jobs-ends
  handle-ends get_api_scripts = get_api_scripts-ends
  handle-ends put_api_repo_clone = λ h. cc
  handle-ends get_api_script = λ h. cc
  handle-ends post_api_script = λ h. cc
  handle-ends post_api_jobs = post_api_jobs-ends
  handle-ends get_api_job = get_api_job-ends
  handle-ends get_api_job_log = get_api_job_log-ends
  handle-ends get_api_targets = λ h. cc
  handle-ends post_api_repl = λ h. cc
