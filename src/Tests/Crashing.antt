-- ===== src/Tests/Crashing.antt =====
-- A job of a service without a directory for logs.
use opcuatesttool.Prelude.{
  nat_eq, int_eq, ℕ, ap, get_elem?, text_eq, ◌≡◌, ◌≢◌, refl, Option, none, some, List, [], ◌∷◌,
  ◌++◌, ◌==◌, if◌then◌else◌, pos, arith, parse_error,
}
use opcuatesttool.Prelude.Dict.{lookup}
use opcuatesttool.Std.Text.{Text, codes}
use opcuatesttool.Std.Decimal.{to_string}
use opcuatesttool.Std.Files.{FileSystem, read, can_write}
use opcuatesttool.DataBase.Defs.{request_file_path, finished_file_path}
use opcuatesttool.JobScheduler.Defs.{Process, Fork}
use opcuatesttool.TestService.Monad.{Service, done, raised}
use opcuatesttool.TestService.Defs.{api_callback, handle_sig_chld}
use opcuatesttool.Api.Handlers.{Json, HttpRequest, reply_json, handle_post_jobs, handle_get_job}
use opcuatesttool.Lifecycle.Crash.{job_crashed}
use opcuatesttool.Tests.Data.{environment, service}

abbrev no_logs : FileSystem
no_logs = record {
  files = [];
  dirs = codes "w/jobs" ∷ codes "w/jobs/requests" ∷ codes "w/jobs/finished" ∷ [];
}

-- JSON as its text; the parser refuses the text of a missing job.
abbrev json : Json
json = record {
  Value = Text;
  parse = λ t. if t == codes "job not found" then none else some t;
  dump = λ v. v;
  of_bool = λ b. if b then codes "true" else codes "false";
  of_int = to_string;
  of_object = members;
}
  where
    members : List (Text × Text) → Text
    members [] = []
    members ((k, v) ∷ ms) = k ++ codes ":" ++ v ++ codes ";" ++ members ms

abbrev request : Text → Text → HttpRequest
request match_1 body = record { param = λ k. none; match_1 = match_1; body = body }

abbrev s : Service
s = service no_logs

some_injective : (c d : ℕ) → ◌≡◌ {A = Option ℕ} (some c) (some d) → c ≡ d
some_injective c d e = cc

-- The paths differ at their eighth character.
apart : request_file_path s.host.db (pos 0) ≢ finished_file_path s.host.db (pos 0)
apart e = omega (arith, some_injective b'r' b'f' (ap (λ t. get_elem? t 7) e))

job_crashed_example :
    (s' : Service) × (process : Process) × (s'' : Service) × (handle_post_jobs json
        (api_callback environment)
        (request [] (codes "read.lua"))
        s
      ≡ (done (reply_json json ((codes "ok", codes "true") ∷ (codes "id", codes "0") ∷ [])), s'))
    × (s'.host.started ≡ process ∷ [])
    × (process.image ≡ none)
    × ((fork : Fork) → handle_sig_chld fork process.pid s' ≡ (done tt, s''))
    × (handle_get_job json (api_callback environment) (request (codes "0") []) s''
        ≡ (raised parse_error, s''))
unfolding can_write read lookup to_string
job_crashed_example =
    job_crashed json environment s (request [] (codes "read.lua")) (request (codes "0") []) (pos 7)
      refl (omega arith) refl refl refl refl apart refl refl
