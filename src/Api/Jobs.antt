-- ===== src/Api/Jobs.antt =====
-- GET /api/jobs and GET /api/jobs/<id>: what reaches the client of the pages and results.
use opcuatesttool.Prelude.{
  ℕ, nat_eq, text_eq, ◌≡◌, true, none, some, List, [], ◌∷◌, ◌++◌, ℤ, pos, ok, parse_error, arith,
  ◌∙◌, ap, length, ◌+◌, ◌<◌, int_half,
}
use opcuatesttool.Std.Text.{Text, codes}
use opcuatesttool.Std.Decimal.{stoi}
use opcuatesttool.Std.Files.{read, list_directory}
use opcuatesttool.DataBase.Defs
use opcuatesttool.DataBase.Defs.{finished_file_path}
use opcuatesttool.DataBase.Pages.{
  ascending, ascending_page, joined, length-ascending_pos, incomplete_page, complete_page,
}
use opcuatesttool.DataBase.FinishedJobs.{bracketed, get_finished_jobs-from}
use opcuatesttool.JobScheduler.Queries
use opcuatesttool.TestService.Monad.{Service, done, raised, pure, lift, ◌>>=◌}
use opcuatesttool.TestService.Defs.{Environment, api_callback, get_jobs, get_finished_job}
use opcuatesttool.Api.Request.{as_get_job_response}
use opcuatesttool.Api.Handlers.{
  Json, HttpRequest, reply_json, parsed, int_param, handle_get_jobs, handle_get_job,
}

module _ (json : Json) (env : Environment) (req : HttpRequest) (s : Service) where
  -- The handler, once the page is known.
  jobs_page :
      {from max : ℤ} {text : Text}
      → int_param (req.param (codes "from")) ≡ ok from
      → int_param (req.param (codes "max")) ≡ ok max
      → Queries.get_finished_jobs from max s.host ≡ ok (some text)
      → handle_get_jobs json (api_callback env) req s ≡ (
          (lift (parsed json (json.parse text)) >>= λ value.
          pure (reply_json json ((codes "ok", json.of_bool true) ∷ (codes "response", value) ∷ [])))
            s)
  unfolding handle_get_jobs api_callback get_jobs as_get_job_response
  jobs_page f m p = rw (f, m, p)

  module _ (from max : ℕ) (names : List Text) (content : Text)
      (from_param : int_param (req.param (codes "from")) ≡ ok (pos from))
      (max_param : int_param (req.param (codes "max")) ≡ ok (pos max))
      (listing : list_directory s.host.files s.host.db.jobs_finished_dir ≡ ok names)
      (first : read s.host.files (finished_file_path s.host.db (pos from)) ≡ some content)
      (fits : from + max < int_half) where
    page_text :
        Queries.get_finished_jobs (pos from) (pos max) s.host
        ≡ bracketed
            (ascending_page (ascending s.host.files s.host.db.jobs_finished_dir from max) max)
    unfolding Queries.get_finished_jobs
    page_text =
        get_finished_jobs-from s.host.db s.host.files names from max content listing first fits

    -- GET /api/jobs with the numbers `from` and `max`, where the directory can be listed, the
    -- result of job `from` is there and `from + max` fits in an `int`: if fewer than `max` results
    -- follow without a gap, and the JSON parser refuses a comma before the last bracket, the
    -- handler throws the parser's error.
    pub get_jobs_incomplete :
        ((t : Text) → json.parse (t ++ codes ",\n]\n") ≡ none)
        → length (ascending s.host.files s.host.db.jobs_finished_dir from max) < max
        → handle_get_jobs json (api_callback env) req s ≡ (raised parse_error, s)
    get_jobs_incomplete strict short = jobs_page from_param max_param page_text ∙ rw (refused)
      where
        cs : List Text
        cs = ascending s.host.files s.host.db.jobs_finished_dir from max

        refused : json.parse (codes "[\n" ++ ascending_page cs max ++ codes "]\n") ≡ none
        refused =
            ap json.parse (
              incomplete_page cs max
                (length-ascending_pos s.host.files s.host.db.jobs_finished_dir from max first
                  (omega arith))
                short)
            ∙ strict (codes "[\n" ++ joined cs)

    -- GET /api/jobs with the numbers `from` and `max`, where the directory can be listed, the
    -- result of job `from` is there and `from + max` fits in an `int`: if `max` results follow
    -- without a gap, and the JSON parser reads the array of them as `value`, the handler answers
    -- `value` with the flag true.
    pub get_jobs_complete :
        (value : json.Value)
        → length (ascending s.host.files s.host.db.jobs_finished_dir from max) ≡ max
        → json.parse (
            codes "[\n"
            ++ joined (ascending s.host.files s.host.db.jobs_finished_dir from max)
            ++ codes "]\n")
          ≡ some value
        → handle_get_jobs json (api_callback env) req s ≡ (
          done (reply_json json ((codes "ok", json.of_bool true) ∷ (codes "response", value) ∷ [])),
          s,
        )
    get_jobs_complete value full parses =
        jobs_page from_param max_param page_text
        ∙ rw (
            ap (λ t. json.parse (codes "[\n" ++ t ++ codes "]\n")) (complete_page _ max full)
            ∙ parses)

  -- If the path gives the number `id`, its result file is there and the parser reads it as
  -- `value`, GET /api/jobs/<id> answers `value` with the flag true.
  pub get_job_found :
      (id : ℤ) (text : Text) (value : json.Value)
      → stoi req.match_1 ≡ ok id
      → read s.host.files (finished_file_path s.host.db id) ≡ some text
      → json.parse text ≡ some value
      → handle_get_job json (api_callback env) req s ≡ (
        done (
            reply_json json
              ((codes "statusCode", json.of_bool true) ∷ (codes "response", value) ∷ [])),
        s,
      )
  unfolding handle_get_job api_callback get_finished_job as_get_job_response
      Queries.get_finished_job Defs.get_finished_job
  get_job_found id text value i r p = rw (i, r, p)

  -- If the path gives the number `id`, its result file is missing, and the parser refuses the text
  -- "job not found", which is not JSON, then GET /api/jobs/<id> throws the parser's error.
  pub get_job_missing :
      (id : ℤ)
      → stoi req.match_1 ≡ ok id
      → read s.host.files (finished_file_path s.host.db id) ≡ none
      → json.parse (codes "job not found") ≡ none
      → handle_get_job json (api_callback env) req s ≡ (raised parse_error, s)
  unfolding handle_get_job api_callback get_finished_job as_get_job_response
      Queries.get_finished_job Defs.get_finished_job
  get_job_missing id i r p = rw (i, r, p)
