-- ===== src/TestService/Numbered.antt =====
-- The calls of the service over the list of the requests that it keeps.
use opcuatesttool.Prelude.{
  suc, nat_eq, int_eq, text_eq, ◌≡◌, ◌≢◌, refl, true, none, some, Option, Option-cases, List, [],
  ◌∷◌, ◌++◌, append-nil, ℤ, pos, length, length-append, ◌<◌, int_half, ap, sym, subst, ◌∙◌, arith,
  inl, inr,
}
use opcuatesttool.Std.Text.{Text}
use opcuatesttool.JobScheduler.Defs.{Host, Fork, create, job_finished}
use opcuatesttool.JobScheduler.Storage.{numbers, numbers_last}
use opcuatesttool.TestService.Monad.{Service, exited}
use opcuatesttool.TestService.Defs
use opcuatesttool.TestService.Defs.{Environment, api_callback, handle_sig_chld}
use opcuatesttool.TestService.Effect.{given_by}
use opcuatesttool.TestService.Durable.{
  Keeps, IsSparing, Keeps-create, Keeps-job_finished, Keeps-update_script, Keeps-clone,
}
use opcuatesttool.Api.Request.{
  as_response, as_new_job_response, as_get_scripts_response, as_clone_script_repo_response,
}
use opcuatesttool.Api.Handlers.{
  Json, HttpRequest, Endpoint, get_api_jobs, get_api_scripts, put_api_repo_clone, get_api_script,
  post_api_script, post_api_jobs, get_api_job, get_api_job_log, get_api_targets, post_api_repl,
  handle_post_jobs, handle_clone, handle_post_repl, handle_post_script, handle,
}
use opcuatesttool.Api.Endpoints.{is_query, query_unchanged}
use opcuatesttool.Api.Effect.{left_by, GoesOn, serve-Leaves}
use opcuatesttool.Api.Server.{HttpLibrary, Incoming, serve, reached}

-- The request that POST /api/jobs stores.
abbrev pub stored_by : Text → Option (Endpoint × Text) → List Text
stored_by body (some (post_api_jobs, group)) = body ∷ []
stored_by body _ = []

module _ (lib : HttpLibrary) (json : Json) (home : Text) where
  -- The numbers are those of the bodies, and the service keeps the bodies.
  pub record Numbered (bodies : List Text) (ids : List ℤ) (h : Host) : Type 0 where
    pub numbered : ids ≡ numbers 0 (length bodies)
    pub keeps : Keeps home h bodies

  Numbered-same :
      (bodies : List Text) (ids : List ℤ) (h h' : Host)
      → Numbered bodies ids h
      → Keeps home h' bodies
      → Numbered (bodies ++ []) (ids ++ []) h'
  Numbered-same bodies ids h h' v keeps =
      rw append-nil (rw append-nil (record { numbered = v.numbered; keeps = keeps }))

  next_number :
      (bodies : List Text) (ids : List ℤ) (body : Text) (id : ℤ)
      → ids ≡ numbers 0 (length bodies)
      → id ≡ pos (length bodies)
      → ids ++ id ∷ [] ≡ numbers 0 (length (bodies ++ body ∷ []))
  next_number bodies ids body id v e =
      ap (λ js. js ++ id ∷ []) v
      ∙ ap (λ i. numbers 0 (length bodies) ++ i ∷ []) (e ∙ ap pos (omega arith))
      ∙ sym (numbers_last 0 (length bodies))
      ∙ ap (numbers 0) {x = suc (length bodies)} (omega (arith, length-append bodies (body ∷ [])))

  post_jobs-Numbered :
      (env : Environment) (req : HttpRequest) (bodies : List Text) (ids : List ℤ) (s : Service)
      → Numbered bodies ids s.host
      → suc (length bodies) < int_half
      → (handle_post_jobs json (api_callback env) req s).0 ≢ exited
      → Numbered
          (bodies ++ req.body ∷ [])
          (ids ++ s.host.db.job_id ∷ [])
          (handle_post_jobs json (api_callback env) req s).1.host
  unfolding handle_post_jobs api_callback Defs.new_job as_new_job_response
  post_jobs-Numbered env req bodies ids s v fits n =
      elim (Option-cases (create env.fork req.body s.host)) [
        | inl stopped ↦ absurd (n (rw stopped))
        | inr ((id, h'), e) ↦
            let (number, keeps') =
              Keeps-create home env.fork req.body s.host h' id bodies v.keeps fits e in
            rw e (record {
              numbered =
                  next_number bodies ids req.body s.host.db.job_id v.numbered v.keeps.1.1.next_id;
              keeps = keeps';
            })
      ]

  query-Numbered :
      (env : Environment) (e : Endpoint) (req : HttpRequest) (bodies : List Text) (ids : List ℤ)
      (s : Service)
      → Numbered bodies ids s.host
      → is_query e ≡ true
      → Numbered (bodies ++ []) (ids ++ []) (handle json e (api_callback env) req s).1.host
  query-Numbered env e req bodies ids s v q =
      Numbered-same bodies ids s.host _ v (rw (query_unchanged json env req s e q) v.keeps)

  reached-Numbered :
      (env : Environment) (req : Incoming) (bodies : List Text) (ids : List ℤ) (s : Service)
      → Numbered bodies ids s.host
      → IsSparing home env.shell
      → (o : Option (Endpoint × Text)) → length (bodies ++ stored_by req.body o) < int_half
      → GoesOn lib json (api_callback env) req s o
      → Numbered
          (bodies ++ stored_by req.body o)
          (ids ++ given_by o s)
          (left_by lib json (api_callback env) req s o).host
  unfolding handle handle_clone handle_post_script handle_post_repl api_callback
      Defs.clone_script_repo Defs.update_script Defs.new_line_repl as_clone_script_repo_response
      as_response as_get_scripts_response
  reached-Numbered env req bodies ids s v sparing none fits n =
      Numbered-same bodies ids s.host _ v v.keeps
  reached-Numbered env req bodies ids s v sparing (some (get_api_jobs, g)) fits n =
      query-Numbered env get_api_jobs _ bodies ids s v refl
  reached-Numbered env req bodies ids s v sparing (some (get_api_scripts, g)) fits n =
      query-Numbered env get_api_scripts _ bodies ids s v refl
  reached-Numbered env req bodies ids s v sparing (some (put_api_repo_clone, g)) fits n =
      Numbered-same bodies ids s.host _ v (Keeps-clone home env.shell s.host bodies sparing v.keeps)
  reached-Numbered env req bodies ids s v sparing (some (get_api_script, g)) fits n =
      query-Numbered env get_api_script _ bodies ids s v refl
  reached-Numbered env req bodies ids s v sparing (some (post_api_script, g)) fits n =
      Numbered-same bodies ids s.host _ v
        (Keeps-update_script home g req.body s.host bodies v.keeps)
  reached-Numbered env req bodies ids s v sparing (some (post_api_jobs, g)) fits n =
      post_jobs-Numbered env _ bodies ids s v (omega (arith, length-append bodies (req.body ∷ [])))
        n
  reached-Numbered env req bodies ids s v sparing (some (get_api_job, g)) fits n =
      query-Numbered env get_api_job _ bodies ids s v refl
  reached-Numbered env req bodies ids s v sparing (some (get_api_job_log, g)) fits n =
      query-Numbered env get_api_job_log _ bodies ids s v refl
  reached-Numbered env req bodies ids s v sparing (some (get_api_targets, g)) fits n =
      query-Numbered env get_api_targets _ bodies ids s v refl
  reached-Numbered env req bodies ids s v sparing (some (post_api_repl, g)) fits n =
      Numbered-same bodies ids s.host _ v v.keeps

  pub serve-Numbered :
      (env : Environment) (req : Incoming) (bodies : List Text) (ids : List ℤ) (s : Service)
      → Numbered bodies ids s.host
      → IsSparing home env.shell
      → length (bodies ++ stored_by req.body (reached lib json (api_callback env) req)) < int_half
      → (serve lib json (api_callback env) req s).0 ≢ exited
      → Numbered
          (bodies ++ stored_by req.body (reached lib json (api_callback env) req))
          (ids ++ given_by (reached lib json (api_callback env) req) s)
          (serve lib json (api_callback env) req s).1.host
  serve-Numbered env req bodies ids s v sparing fits n =
      let (same, goes_on) = serve-Leaves lib json (api_callback env) req s in
      subst
        (λ s'.
          Numbered (bodies ++ stored_by req.body (reached lib json (api_callback env) req))
            (ids ++ given_by (reached lib json (api_callback env) req) s) s'.host)
        (sym same)
        (reached-Numbered env req bodies ids s v sparing (reached lib json (api_callback env) req)
          fits (goes_on n))

  pub ended-Numbered :
      (fork : Fork) (pid : ℤ) (bodies : List Text) (ids : List ℤ) (s : Service)
      → Numbered bodies ids s.host
      → (handle_sig_chld fork pid s).0 ≢ exited
      → Numbered bodies ids (handle_sig_chld fork pid s).1.host
  unfolding handle_sig_chld
  ended-Numbered fork pid bodies ids s v n = elim (Option-cases (job_finished fork pid s.host)) [
    | inl stopped ↦ absurd (n (rw stopped))
    | inr (h', e) ↦ rw e (record {
      numbered = v.numbered;
      keeps = Keeps-job_finished home fork pid s.host h' bodies v.keeps e;
    })
  ]
