-- ===== src/TestService/Effect.antt =====
-- What a request does to the scheduler: it creates a job, or changes files at most.
use opcuatesttool.Prelude.{
  Option, none, nat_eq, int_eq, ◌≡◌, ◌≢◌, refl, true, some, List, [], ◌∷◌, Option-cases, inl, inr,
  ℤ, sym, subst, arith,
}
use opcuatesttool.Std.Text.{Text}
use opcuatesttool.DataBase.Defs.{new_job}
use opcuatesttool.JobScheduler.Queries
use opcuatesttool.JobScheduler.Defs.{Host, Fork, create, enqueue}
use opcuatesttool.TestService.Monad.{Service, exited}
use opcuatesttool.TestService.Defs
use opcuatesttool.TestService.Defs.{Environment, api_callback, handle_sig_chld}
use opcuatesttool.Api.Request.{
  as_response, as_new_job_response, as_get_scripts_response, as_clone_script_repo_response,
}
use opcuatesttool.Api.Handlers.{
  Json, HttpRequest, Endpoint, get_api_jobs, get_api_scripts, put_api_repo_clone, get_api_script,
  post_api_script, post_api_jobs, get_api_job, get_api_job_log, get_api_targets, post_api_repl,
  handle_post_jobs, handle_clone, handle_post_repl, handle_post_script, handle,
}
use opcuatesttool.Api.Server.{HttpLibrary, Incoming, serve, reached}
use opcuatesttool.Api.Effect.{left_by, GoesOn, serve-Leaves}
use opcuatesttool.Std.Files.{FileSystem}
use opcuatesttool.Api.Endpoints.{is_query, query_unchanged}

-- The numbers that a request gives out.
abbrev pub given_out : Endpoint → Service → List ℤ
given_out post_api_jobs s = s.host.db.job_id ∷ []
given_out _ s = []

-- Those that any HTTP request gives out.
abbrev pub given_by : Option (Endpoint × Text) → Service → List ℤ
given_by none s = []
given_by (some (e, group)) s = given_out e s

-- A change of the scheduler and its surroundings, with the numbers that it gives out.
pub data Effect (fork : Fork) (h : Host) : List ℤ → Host → Type 0 where
  writes : (fs : FileSystem) → Effect fork h [] (record h { files = fs })
  creates :
      {id : ℤ} {h' : Host} (request : Text)
      → create fork request h ≡ some (id, h')
      → Effect fork h (id ∷ []) h'

create-id :
    (fork : Fork) (request : Text) (h h' : Host) (id : ℤ)
    → create fork request h ≡ some (id, h')
    → id ≡ h.db.job_id
unfolding create enqueue new_job
create-id fork request h h' id e = ground arith

module _ (lib : HttpLibrary) (json : Json) (env : Environment) where
  post_jobs-Effect :
      (req : HttpRequest) (s : Service)
      → (handle_post_jobs json (api_callback env) req s).0 ≢ exited
      → Effect env.fork s.host
          (s.host.db.job_id ∷ [])
          (handle_post_jobs json (api_callback env) req s).1.host
  unfolding handle_post_jobs api_callback Defs.new_job as_new_job_response
  post_jobs-Effect req s n = elim (Option-cases (create env.fork req.body s.host)) [
    | inl stopped ↦ absurd (n (rw stopped))
    | inr ((id, h'), e) ↦ rw e (
        subst (λ i. Effect env.fork s.host (i ∷ []) h') (create-id env.fork req.body s.host h' id e)
          (creates req.body e))
  ]

  query-Effect :
      (e : Endpoint) (req : HttpRequest) (s : Service)
      → is_query e ≡ true
      → Effect env.fork s.host [] (handle json e (api_callback env) req s).1.host
  query-Effect e req s q = rw (query_unchanged json env req s e q) (writes s.host.files)

  endpoint-Effect :
      (e : Endpoint) (req : HttpRequest) (s : Service)
      → (handle json e (api_callback env) req s).0 ≢ exited
      → Effect env.fork s.host (given_out e s) (handle json e (api_callback env) req s).1.host
  unfolding handle handle_clone handle_post_script handle_post_repl api_callback
      Defs.clone_script_repo Defs.update_script Defs.new_line_repl as_clone_script_repo_response
      as_response as_get_scripts_response Queries.clone_script_repo Queries.update_script
  endpoint-Effect get_api_jobs req s n = query-Effect get_api_jobs req s refl
  endpoint-Effect get_api_scripts req s n = query-Effect get_api_scripts req s refl
  endpoint-Effect put_api_repo_clone req s n = writes _
  endpoint-Effect get_api_script req s n = query-Effect get_api_script req s refl
  endpoint-Effect post_api_script req s n = writes _
  endpoint-Effect post_api_jobs req s n = post_jobs-Effect req s n
  endpoint-Effect get_api_job req s n = query-Effect get_api_job req s refl
  endpoint-Effect get_api_job_log req s n = query-Effect get_api_job_log req s refl
  endpoint-Effect get_api_targets req s n = query-Effect get_api_targets req s refl
  endpoint-Effect post_api_repl req s n = writes s.host.files

  reached-Effect :
      (req : Incoming) (s : Service) (o : Option (Endpoint × Text))
      → GoesOn lib json (api_callback env) req s o
      → Effect env.fork s.host (given_by o s) (left_by lib json (api_callback env) req s o).host
  reached-Effect req s none n = writes s.host.files
  reached-Effect req s (some (e, group)) n =
      endpoint-Effect e (record { param = req.param; match_1 = group; body = req.body }) s n

  pub serve-Effect :
      (req : Incoming) (s : Service)
      → (serve lib json (api_callback env) req s).0 ≢ exited
      → Effect env.fork s.host
          (given_by (reached lib json (api_callback env) req) s)
          (serve lib json (api_callback env) req s).1.host
  serve-Effect req s n =
      let (same, goes_on) = serve-Leaves lib json (api_callback env) req s in
      subst
        (λ s'.
          Effect env.fork s.host (given_by (reached lib json (api_callback env) req) s) s'.host)
        (sym same) (reached-Effect req s (reached lib json (api_callback env) req) (goes_on n))
