-- ===== src/Api/Handlers.antt =====
-- The request handlers of `Server` in api/Server.h. The HTTP library chooses the handler by method
-- and path, and answers 500 when a handler throws; it and the JSON library are parameters.
use opcuatesttool.Prelude.{
  Bool, Option, none, some, List, [], ◌∷◌, ℤ, pos, Result, ok, throw, parse_error,
}
use opcuatesttool.Std.Text.{Text, codes}
use opcuatesttool.Std.Decimal.{stoi}
use opcuatesttool.Api.Request.{
  RequestVariant, new_job_request, get_job_request, get_jobs_request, get_scripts_request,
  get_script_request, update_script_request, get_job_log_request, get_targets_request,
  new_line_repl_request, clone_script_repo_request, ResponseVariant, as_response,
  as_new_job_response, as_get_job_response, as_get_scripts_response, as_get_script_response,
  as_get_job_log_response, as_get_targets_response, as_clone_script_repo_response,
}
use opcuatesttool.TestService.Monad.{M, pure, ◌>>=◌, lift}

-- nlohmann::json. `parse` throws at a text that is not JSON; an object is given by its members.
pub record Json : Type 1 where
  pub Value : Type 0
  pub parse : Text → Option Value
  pub dump : Value → Text
  pub of_bool : Bool → Value
  pub of_int : ℤ → Value
  pub of_object : List (Text × Value) → Value

-- What the handlers use of httplib::Request: the query parameters, the first group of the pattern
-- of the path, and the body.
pub record HttpRequest : Type 0 where
  pub param : Text → Option Text
  pub match_1 : Text
  pub body : Text

-- What they set of httplib::Response.
pub record HttpResponse : Type 0 where
  pub allow_origin : Text
  pub content : Text
  pub content_type : Text

-- The `callback` that `setCallback` installs.
abbrev pub Callback : Type 0
Callback = RequestVariant → M ResponseVariant

abbrev pub reply : Text → Text → HttpResponse
reply content content_type = record {
  allow_origin = codes "*";
  content = content;
  content_type = content_type;
}

-- A query parameter; without it the member keeps the 0 of `GetJobsRequest req{}`.
abbrev pub int_param : Option Text → Result ℤ
int_param none = ok (pos 0)
int_param (some text) = stoi text

-- The endpoints with a handler that calls the callback.
pub data Endpoint : Type 0 where
  get_api_jobs get_api_scripts put_api_repo_clone get_api_script post_api_script : Endpoint
  post_api_jobs get_api_job get_api_job_log get_api_targets post_api_repl : Endpoint

module _ (json : Json) where
  open json use {Value, parse, dump, of_bool, of_int, of_object}

  abbrev pub parsed : Option Value → Result Value
  parsed none = throw parse_error
  parsed (some v) = ok v

  abbrev pub reply_json : List (Text × Value) → HttpResponse
  reply_json members = reply (dump (of_object members)) (codes "application/json")

  unfoldable pub handle_get_jobs : Callback → HttpRequest → M HttpResponse
  handle_get_jobs callback req = do
    from ← lift (int_param (req.param (codes "from")))
    max ← lift (int_param (req.param (codes "max")))
    resp ← callback (get_jobs_request from max)
    (flag, text) ← lift (as_get_job_response resp)
    value ← lift (parsed (parse text))
    pure (reply_json ((codes "ok", of_bool flag) ∷ (codes "response", value) ∷ []))

  unfoldable pub handle_get_scripts : Callback → HttpRequest → M HttpResponse
  handle_get_scripts callback req = do
    resp ← callback get_scripts_request
    (flag, text) ← lift (as_get_scripts_response resp)
    value ← lift (parsed (parse text))
    pure (reply_json ((codes "ok", of_bool flag) ∷ (codes "response", value) ∷ []))

  unfoldable pub handle_clone : Callback → HttpRequest → M HttpResponse
  handle_clone callback req = do
    resp ← callback clone_script_repo_request
    flag ← lift (as_clone_script_repo_response resp)
    pure (reply_json ((codes "ok", of_bool flag) ∷ []))

  unfoldable pub handle_get_script : Callback → HttpRequest → M HttpResponse
  handle_get_script callback req = do
    resp ← callback (get_script_request req.match_1)
    (flag, text) ← lift (as_get_script_response resp)
    pure (reply text (codes "text/plain"))

  -- The handler asks for a `GetScriptsResponse`.
  unfoldable pub handle_post_script : Callback → HttpRequest → M HttpResponse
  handle_post_script callback req = do
    resp ← callback (update_script_request req.match_1 req.body)
    (flag, text) ← lift (as_get_scripts_response resp)
    pure (reply_json ((codes "ok", of_bool flag) ∷ []))

  unfoldable pub handle_post_jobs : Callback → HttpRequest → M HttpResponse
  handle_post_jobs callback req = do
    resp ← callback (new_job_request req.body)
    (flag, id) ← lift (as_new_job_response resp)
    pure (reply_json ((codes "ok", of_bool flag) ∷ (codes "id", of_int id) ∷ []))

  unfoldable pub handle_get_job : Callback → HttpRequest → M HttpResponse
  handle_get_job callback req = do
    id ← lift (stoi req.match_1)
    resp ← callback (get_job_request id)
    (flag, text) ← lift (as_get_job_response resp)
    value ← lift (parsed (parse text))
    pure (reply_json ((codes "statusCode", of_bool flag) ∷ (codes "response", value) ∷ []))

  unfoldable pub handle_get_job_log : Callback → HttpRequest → M HttpResponse
  handle_get_job_log callback req = do
    id ← lift (stoi req.match_1)
    resp ← callback (get_job_log_request id)
    (flag, text) ← lift (as_get_job_log_response resp)
    pure (reply text (codes "text/plain"))

  unfoldable pub handle_get_targets : Callback → HttpRequest → M HttpResponse
  handle_get_targets callback req = do
    resp ← callback get_targets_request
    (flag, text) ← lift (as_get_targets_response resp)
    pure (reply text (codes "application/json"))

  unfoldable pub handle_post_repl : Callback → HttpRequest → M HttpResponse
  handle_post_repl callback req = do
    resp ← callback (new_line_repl_request req.body)
    flag ← lift (as_response resp)
    pure (reply_json ((codes "ok", of_bool flag) ∷ []))

  -- The handler that is registered for an endpoint.
  unfoldable pub handle : Endpoint → Callback → HttpRequest → M HttpResponse
  handle get_api_jobs = handle_get_jobs
  handle get_api_scripts = handle_get_scripts
  handle put_api_repo_clone = handle_clone
  handle get_api_script = handle_get_script
  handle post_api_script = handle_post_script
  handle post_api_jobs = handle_post_jobs
  handle get_api_job = handle_get_job
  handle get_api_job_log = handle_get_job_log
  handle get_api_targets = handle_get_targets
  handle post_api_repl = handle_post_repl
