-- ===== src/Repl/Server.antt =====
-- `apiCallback` of repl/server.cpp, behind the handlers of api/Server.h. Its state is the pending
-- input of the terminal, which is that of a `Service`.
use opcuatesttool.Prelude.{
  nat_eq, int_eq, ◌≡◌, ◌≢◌, refl, true, false, [], ◌∷◌, Exception, Result-cases, inl, inr,
  bad_variant_access,
}
use opcuatesttool.Std.Text.{codes}
use opcuatesttool.Std.Decimal.{stoi}
use opcuatesttool.TestService.Monad.{Service, done, raised, M}
use opcuatesttool.TestService.Repl.{Inject, new_line}
use opcuatesttool.Api.Request.{
  RequestVariant, new_line_repl_request, ResponseVariant, response, as_response,
  as_new_job_response, as_get_job_response, as_get_scripts_response, as_get_script_response,
  as_get_job_log_response, as_get_targets_response, as_clone_script_repo_response,
}
use opcuatesttool.Api.Handlers.{
  Json, HttpRequest, Endpoint, get_api_jobs, get_api_scripts, put_api_repo_clone, get_api_script,
  post_api_script, post_api_jobs, get_api_job, get_api_job_log, get_api_targets, post_api_repl,
  int_param, reply_json, handle, handle_get_jobs, handle_get_scripts, handle_clone,
  handle_get_script, handle_post_script, handle_post_jobs, handle_get_job, handle_get_job_log,
  handle_get_targets, handle_post_repl,
}

-- The response of a failed `ioctl` is overwritten after the loop.
unfoldable pub repl_callback : Inject → RequestVariant → M ResponseVariant
repl_callback inject (new_line_repl_request line) s =
    (done (response true), record s { terminal = new_line inject line s.terminal })
repl_callback inject _ s = (done (response false), s)

module _ (json : Json) (inject : Inject) (req : HttpRequest) (s : Service) where
  -- Behind the callback of the interpreter's server the handler of every endpoint but POST
  -- /api/repl throws, for any request and state, and changes nothing.
  repl_callback_refuses :
      (e : Endpoint)
      → e ≢ post_api_repl
      → (x : Exception) × (handle json e (repl_callback inject) req s ≡ (raised x, s))
  unfolding handle handle_get_jobs handle_get_scripts handle_clone handle_get_script
      handle_post_script handle_post_jobs handle_get_job handle_get_job_log handle_get_targets
      repl_callback as_new_job_response as_get_job_response as_get_scripts_response
      as_get_script_response as_get_job_log_response as_get_targets_response
      as_clone_script_repo_response
  repl_callback_refuses get_api_jobs n =
      elim (Result-cases (int_param (req.param (codes "from")))) [
        | inl (x, e) ↦ (x, rw e)
        | inr (from, e) ↦ elim (Result-cases (int_param (req.param (codes "max")))) [
          | inl (x, e') ↦ (x, rw (e, e'))
          | inr (max, e') ↦ (bad_variant_access, rw (e, e'))
        ]
      ]
  repl_callback_refuses get_api_scripts n = (_, refl)
  repl_callback_refuses put_api_repo_clone n = (_, refl)
  repl_callback_refuses get_api_script n = (_, refl)
  repl_callback_refuses post_api_script n = (_, refl)
  repl_callback_refuses post_api_jobs n = (_, refl)
  repl_callback_refuses get_api_job n = elim (Result-cases (stoi req.match_1)) [
    | inl (x, e) ↦ (x, rw e)
    | inr (id, e) ↦ (bad_variant_access, rw e)
  ]
  repl_callback_refuses get_api_job_log n = elim (Result-cases (stoi req.match_1)) [
    | inl (x, e) ↦ (x, rw e)
    | inr (id, e) ↦ (bad_variant_access, rw e)
  ]
  repl_callback_refuses get_api_targets n = (_, refl)
  repl_callback_refuses post_api_repl n = absurd (n refl)

  --
  pub repl_callback_accepts : handle json post_api_repl (repl_callback inject) req s ≡ (
    done (reply_json json ((codes "ok", json.of_bool true) ∷ [])),
    record s { terminal = new_line inject req.body s.terminal },
  )
  unfolding handle handle_post_repl repl_callback as_response
  repl_callback_accepts = refl
