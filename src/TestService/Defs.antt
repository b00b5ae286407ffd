-- ===== src/TestService/Defs.antt =====
-- `TestService` and `apiCallback` of testService/TestService.cpp.
use opcuatesttool.Prelude.{ℤ, true, Option, none, some}
use opcuatesttool.Std.Text.{Text}
use opcuatesttool.DataBase.Defs.{Shell}
use opcuatesttool.JobScheduler.Defs
use opcuatesttool.JobScheduler.Defs.{Host, Fork}
use opcuatesttool.JobScheduler.Queries
use opcuatesttool.Api.Request.{
  RequestVariant, new_job_request, get_job_request, get_jobs_request, get_scripts_request,
  get_script_request, update_script_request, get_job_log_request, get_targets_request,
  new_line_repl_request, clone_script_repo_request, ResponseVariant, response, new_job_response,
  get_job_response, get_scripts_response, get_script_response, get_job_log_response,
  get_targets_response, clone_script_repo_response,
}
use opcuatesttool.TestService.Monad.{done, exited, M, pure, ◌>>=◌, lift, fueled}
use opcuatesttool.TestService.Repl.{Inject, new_line}

-- What the operating system does during a call: the script that clones the repository, the
-- terminal, and the next `fork`.
pub record Environment : Type 0 where
  pub shell : Shell
  pub inject : Inject
  pub fork : Fork

created : Option (ℤ × Host) → M ℤ
created none s = (exited, s)
created (some (id, h)) s = (done id, record s { host = h })

unfoldable pub new_job : Environment → Text → M ResponseVariant
unfolding created
new_job env request = do
  id ← λ s. created (Defs.create env.fork request s.host) s
  pure (new_job_response true id)

unfoldable pub get_jobs : ℤ → ℤ → M ResponseVariant
get_jobs from max = do
  page ← λ s. lift (Queries.get_finished_jobs from max s.host) s
  text ← λ s. (fueled page, s)
  pure (get_job_response true text)

unfoldable pub get_finished_job : ℤ → M ResponseVariant
get_finished_job id s = (done (get_job_response true (Queries.get_finished_job id s.host)), s)

unfoldable pub get_scripts : M ResponseVariant
get_scripts = do
  text ← λ s. lift (Queries.get_scripts s.host) s
  pure (get_scripts_response true text)

unfoldable pub get_script : Text → M ResponseVariant
get_script name s = (done (get_script_response true (Queries.get_script name s.host)), s)

unfoldable pub update_script : Text → Text → M ResponseVariant
update_script name content s =
    (done (response true), record s { host = Queries.update_script name content s.host })

unfoldable pub get_job_log : ℤ → M ResponseVariant
get_job_log id s = (done (get_job_log_response true (Queries.get_job_log id s.host)), s)

unfoldable pub get_targets : M ResponseVariant
get_targets s = (done (get_targets_response true (Queries.get_targets s.host)), s)

unfoldable pub new_line_repl : Environment → Text → M ResponseVariant
new_line_repl env line s =
    (done (response true), record s { terminal = new_line env.inject line s.terminal })

unfoldable pub clone_script_repo : Environment → M ResponseVariant
clone_script_repo env s = (
  done (clone_script_repo_response true),
  record s { host = Queries.clone_script_repo env.shell s.host },
)

-- The visitor: one method for each alternative of the request.
unfoldable pub api_callback : Environment → RequestVariant → M ResponseVariant
api_callback env (get_job_request id) = get_finished_job id
api_callback env (get_jobs_request from max) = get_jobs from max
api_callback env (new_job_request request) = new_job env request
api_callback env get_scripts_request = get_scripts
api_callback env (get_script_request name) = get_script name
api_callback env (update_script_request name content) = update_script name content
api_callback env (get_job_log_request id) = get_job_log id
api_callback env get_targets_request = get_targets
api_callback env (new_line_repl_request line) = new_line_repl env line
api_callback env clone_script_repo_request = clone_script_repo env

resumed : Option Host → M (Unit {0})
resumed none s = (exited, s)
resumed (some h) s = (done tt, record s { host = h })

-- `handleSigChld`: `wait` returned a process number, or -1.
unfoldable pub handle_sig_chld : Fork → ℤ → M (Unit {0})
unfolding resumed
handle_sig_chld fork pid s = resumed (Defs.job_finished fork pid s.host) s
