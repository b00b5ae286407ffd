-- ===== src/Tests/Routing.antt =====
-- A request for the log of job 12, which a library that takes the first route passes on.
use opcuatesttool.Prelude.{
  nat_eq, text_eq, int_eq, ◌≡◌, ◌≢◌, refl, Option, none, some, [], ◌∷◌, ◌⊎◌, ap,
}
use opcuatesttool.Std.Text.{Text, codes}
use opcuatesttool.TestService.Monad.{no_fuel, pure, ◌>>=◌}
use opcuatesttool.TestService.Defs.{api_callback}
use opcuatesttool.Api.Handlers.{HttpRequest, get_api_jobs, get_api_job_log, handle}
use opcuatesttool.Api.Termination.{handle-ends}
use opcuatesttool.Api.Routes.{get, routes, all_digits, matching}
use opcuatesttool.Api.Addresses.{Address, IsValid, show_log, method_of, path_of, target_of}
use opcuatesttool.Api.Dispatch.{matching_cases}
use opcuatesttool.Api.Server.{IsHttpLibrary, Incoming, response, serve, serve_address}
use opcuatesttool.Tests.Data.{no_files, service, environment}
use opcuatesttool.Tests.Living.{web_json, first_of, library}

library-IsHttpLibrary : IsHttpLibrary library
unfolding first_of
library-IsHttpLibrary = record {
  one = λ method path x e. ap first_of e;
  nothing = λ method path e. ap first_of e;
}

abbrev no_param : Text → Option Text
no_param name = none

abbrev log_request : Incoming
log_request = record { method = get; path = codes "/api/jobs/12/log"; param = no_param; body = [] }

serve_address_example :
    serve library web_json (api_callback environment) log_request (service no_files)
    ≡ (handle web_json get_api_job_log
            (api_callback environment)
            (record { param = no_param; match_1 = codes "12"; body = [] })
          >>= λ answer. pure (response answer))
        (service no_files)
unfolding all_digits
serve_address_example =
    serve_address library web_json (api_callback environment) library-IsHttpLibrary no_param []
      (service no_files) (show_log (codes "12")) get_api_job_log (codes "12") refl refl refl

matching_cases_example :
    (matching get (codes "/api/jobs/12/log") routes ≡ [])
    ⊎ ((a : Address) × IsValid a
        × (method_of a ≡ get)
        × (path_of a ≡ codes "/api/jobs/12/log")
        × (matching get (codes "/api/jobs/12/log") routes ≡ target_of a ∷ []))
matching_cases_example = matching_cases get (codes "/api/jobs/12/log")

-- The page is asked for with numbers that add up to more than an `int` holds.
abbrev large : HttpRequest
large = record { param = λ name. some (codes "2147483647"); match_1 = []; body = [] }

handle-ends_example :
    (handle web_json get_api_jobs (api_callback environment) large (service no_files)).0 ≢ no_fuel
handle-ends_example = handle-ends web_json environment large (service no_files) get_api_jobs
