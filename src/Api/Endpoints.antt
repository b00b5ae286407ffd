-- ===== src/Api/Endpoints.antt =====
-- What the endpoints of api/Server.h do over the service of testService/TestService.cpp.
use opcuatesttool.Prelude.{
  nat_eq, text_eq, ◌≡◌, ◌≢◌, refl, Bool, true, false, Option, none, some, ℤ, throw,
  bad_variant_access, arith,
}
use opcuatesttool.Std.Text.{Text, codes}
use opcuatesttool.Std.Decimal.Errors.{stoi-ne}
use opcuatesttool.Std.Files.{◌/◌, can_write, list_directory}
use opcuatesttool.Std.Files.Laws.{read-write_self}
use opcuatesttool.DataBase.Defs
use opcuatesttool.DataBase.Finished
use opcuatesttool.JobScheduler.Queries
use opcuatesttool.TestService.Monad.{Service, done, raised}
use opcuatesttool.TestService.Defs.{
  Environment, api_callback, new_job, get_jobs, get_finished_job, get_scripts, get_script,
  update_script, get_job_log, get_targets, new_line_repl, clone_script_repo,
}
use opcuatesttool.Api.Request.{
  as_response, as_new_job_response, as_get_job_response, as_get_scripts_response,
  as_get_script_response, as_get_job_log_response, as_get_targets_response,
  as_clone_script_repo_response,
}
use opcuatesttool.Api.Handlers.{
  Json, HttpRequest, Endpoint, get_api_jobs, get_api_scripts, put_api_repo_clone, get_api_script,
  post_api_script, post_api_jobs, get_api_job, get_api_job_log, get_api_targets, post_api_repl,
  reply, int_param, handle_get_jobs, handle_get_scripts, handle_clone, handle_get_script,
  handle_post_script, handle_post_jobs, handle_get_job, handle_get_job_log, handle_get_targets,
  handle_post_repl, handle,
}

module _ (json : Json) (env : Environment) (req : HttpRequest) (s : Service) where
  -- POST /api/scripts/<name> writes the script and then always throws `bad_variant_access`, for
  -- any request and any state of the service: `updateScript` returns a `Response`, and the handler
  -- asks for a `GetScriptsResponse`.
  pub post_script_throws : handle json post_api_script (api_callback env) req s ≡ (
    raised bad_variant_access,
    record s { host = Queries.update_script req.match_1 req.body s.host },
  )
  unfolding handle handle_post_script api_callback update_script as_get_scripts_response
  post_script_throws = refl

get_finished_jobs-ne :
    (from max : ℤ) (s : Service)
    → Queries.get_finished_jobs from max s.host ≢ throw bad_variant_access
unfolding Queries.get_finished_jobs Finished.get_finished_jobs list_directory
get_finished_jobs-ne from max s h = ground arith

get_scripts-ne : (s : Service) → Queries.get_scripts s.host ≢ throw bad_variant_access
unfolding Queries.get_scripts Defs.get_scripts list_directory
get_scripts-ne s h = ground arith

int_param-ne : (o : Option Text) → int_param o ≢ throw bad_variant_access
int_param-ne none h = cc
int_param-ne (some t) h = stoi-ne bad_variant_access t (λ e. cc) (λ e. cc) h

module _ (json : Json) (env : Environment) (req : HttpRequest) (s : Service) where
  get_api_jobs-ne : (handle_get_jobs json (api_callback env) req s).0 ≢ raised bad_variant_access
  unfolding handle_get_jobs api_callback get_jobs as_get_job_response
  get_api_jobs-ne h = grind (
    arith,
    int_param-ne (req.param (codes "from")),
    int_param-ne (req.param (codes "max")),
    get_finished_jobs-ne,
  )

  get_api_scripts-ne :
      (handle_get_scripts json (api_callback env) req s).0 ≢ raised bad_variant_access
  unfolding handle_get_scripts api_callback get_scripts as_get_scripts_response
  get_api_scripts-ne h = ground (arith, get_scripts-ne s)

  post_api_jobs-ne : (handle_post_jobs json (api_callback env) req s).0 ≢ raised bad_variant_access
  unfolding handle_post_jobs api_callback new_job as_new_job_response
  post_api_jobs-ne h = ground arith

  get_api_job-ne : (handle_get_job json (api_callback env) req s).0 ≢ raised bad_variant_access
  unfolding handle_get_job api_callback get_finished_job as_get_job_response
  get_api_job-ne h = ground (arith, stoi-ne bad_variant_access req.match_1 (λ e. cc) (λ e. cc))

  get_api_job_log-ne :
      (handle_get_job_log json (api_callback env) req s).0 ≢ raised bad_variant_access
  unfolding handle_get_job_log api_callback get_job_log as_get_job_log_response
  get_api_job_log-ne h = ground (arith, stoi-ne bad_variant_access req.match_1 (λ e. cc) (λ e. cc))

  -- The handler of any other endpoint never throws `bad_variant_access`, for any request and any
  -- state: it asks for the alternative that the service returns.
  pub handle-ne :
      (e : Endpoint)
      → e ≢ post_api_script
      → (handle json e (api_callback env) req s).0 ≢ raised bad_variant_access
  unfolding handle handle_clone handle_get_script handle_get_targets handle_post_repl api_callback
      clone_script_repo get_script get_targets new_line_repl as_clone_script_repo_response
      as_get_script_response as_get_targets_response as_response
  handle-ne get_api_jobs n = get_api_jobs-ne
  handle-ne get_api_scripts n = get_api_scripts-ne
  handle-ne put_api_repo_clone n = λ h. cc
  handle-ne get_api_script n = λ h. cc
  handle-ne post_api_script n = absurd (n refl)
  handle-ne post_api_jobs n = post_api_jobs-ne
  handle-ne get_api_job n = get_api_job-ne
  handle-ne get_api_job_log n = get_api_job_log-ne
  handle-ne get_api_targets n = λ h. cc
  handle-ne post_api_repl n = λ h. cc

-- The endpoints that only read.
abbrev pub is_query : Endpoint → Bool
is_query get_api_jobs = true
is_query get_api_scripts = true
is_query get_api_script = true
is_query get_api_job = true
is_query get_api_job_log = true
is_query get_api_targets = true
is_query _ = false

module _ (json : Json) (env : Environment) (req : HttpRequest) (s : Service) where
  get_jobs_unchanged : (handle_get_jobs json (api_callback env) req s).1 ≡ s
  unfolding handle_get_jobs api_callback get_jobs as_get_job_response
  get_jobs_unchanged = ground arith

  get_scripts_unchanged : (handle_get_scripts json (api_callback env) req s).1 ≡ s
  unfolding handle_get_scripts api_callback get_scripts as_get_scripts_response
  get_scripts_unchanged = ground arith

  get_job_unchanged : (handle_get_job json (api_callback env) req s).1 ≡ s
  unfolding handle_get_job api_callback get_finished_job as_get_job_response
  get_job_unchanged = ground arith

  get_job_log_unchanged : (handle_get_job_log json (api_callback env) req s).1 ≡ s
  unfolding handle_get_job_log api_callback get_job_log as_get_job_log_response
  get_job_log_unchanged = ground arith

  -- The handlers of GET /api/jobs, /api/scripts, /api/scripts/<name>, /api/jobs/<id>,
  -- /api/jobs/<id>/log and /api/targets leave the service as it was, also when they throw.
  pub query_unchanged :
      (e : Endpoint) → is_query e ≡ true → (handle json e (api_callback env) req s).1 ≡ s
  unfolding handle handle_get_script handle_get_targets api_callback get_script get_targets
      as_get_script_response as_get_targets_response
  query_unchanged get_api_jobs q = get_jobs_unchanged
  query_unchanged get_api_scripts q = get_scripts_unchanged
  query_unchanged put_api_repo_clone q = cc
  query_unchanged get_api_script q = refl
  query_unchanged post_api_script q = cc
  query_unchanged post_api_jobs q = cc
  query_unchanged get_api_job q = get_job_unchanged
  query_unchanged get_api_job_log q = get_job_log_unchanged
  query_unchanged get_api_targets q = refl
  query_unchanged post_api_repl q = cc

  -- If the file of the script can be written, GET /api/scripts/<name> after POST
  -- /api/scripts/<name> answers the text that was posted, though the POST threw.
  pub get_script-post_script :
      can_write s.host.files (s.host.db.script_dir / req.match_1) ≡ true
      → let s' = (handle json post_api_script (api_callback env) req s).1 in
        handle json get_api_script (api_callback env) req s'
        ≡ (done (reply req.body (codes "text/plain")), s')
  unfolding handle handle_get_script api_callback get_script as_get_script_response
      Queries.get_script Defs.get_script
  get_script-post_script w = rw (post_script_throws json env req s) (
      unfold Queries.update_script Defs.update_script in
      rw (read-write_self s.host.files (s.host.db.script_dir / req.match_1) req.body w))
