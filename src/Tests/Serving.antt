-- ===== src/Tests/Serving.antt =====
-- Requests to the service over two results and a script.
use opcuatesttool.Prelude.{
  nat_eq, int_eq, text_eq, ◌≡◌, ◌≢◌, refl, Bool, true, false, ◌||◌, or-true, Option, none, some,
  List, [], ◌∷◌, ◌++◌, ◌==◌, if◌then◌else◌, arith, bad_variant_access, parse_error,
}
use opcuatesttool.Prelude.Dict.{lookup}
use opcuatesttool.Std.Text.{Text, codes, lines}
use opcuatesttool.Std.Decimal.{to_string, stoi}
use opcuatesttool.Std.Files.{list_directory, read, can_write}
use opcuatesttool.DataBase.Finished.{copy_file}
use opcuatesttool.DataBase.Pages.{ascending}
use opcuatesttool.JobScheduler.Queries
use opcuatesttool.TestService.Monad.{Service, done, raised}
use opcuatesttool.TestService.Defs.{api_callback}
use opcuatesttool.Api.Handlers.{
  Json, HttpRequest, get_api_script, post_api_script, get_api_job, reply, reply_json,
  handle_get_jobs, handle,
}
use opcuatesttool.Api.Endpoints.{
  post_script_throws, handle-ne, query_unchanged, get_script-post_script,
}
use opcuatesttool.Api.Jobs.{get_jobs_incomplete, get_jobs_complete}
use opcuatesttool.Tests.Data.{environment, two_results, service, names}

abbrev comma_end : Text
comma_end = codes ",\n]\n"

-- The text ends in a comma before a bracket.
ends_in_comma : Text → Bool
ends_in_comma [] = false
ends_in_comma (c ∷ s) = (c ∷ s) == comma_end || ends_in_comma s

ends_in_comma-append : (t : Text) → ends_in_comma (t ++ comma_end) ≡ true
unfolding ends_in_comma
ends_in_comma-append [] = refl
ends_in_comma-append (c ∷ t) = rw (ends_in_comma-append t, or-true)

refuse : Bool → Text → Option Text
refuse true t = none
refuse false t = some t

-- JSON as its text. The parser refuses what ends in such a comma, and a text that begins with a `j`.
abbrev begins_with_j : Text → Bool
begins_with_j [] = false
begins_with_j (c ∷ s) = c == b'j'

abbrev json : Json
json = record {
  Value = Text;
  parse = λ t. refuse (ends_in_comma t || begins_with_j t) t;
  dump = λ v. v;
  of_bool = λ b. if b then codes "true" else codes "false";
  of_int = to_string;
  of_object = members;
}
  where
    members : List (Text × Text) → Text
    members [] = []
    members ((k, v) ∷ ms) = k ++ codes ":" ++ v ++ codes ";" ++ members ms

abbrev get : Option Text → Option Text → Text → HttpRequest
get from max m = record {
  param = λ k. if k == codes "from" then from else if k == codes "max" then max else none;
  match_1 = m;
  body = codes "write()";
}

abbrev s : Service
s = service two_results

abbrev script : HttpRequest
script = get none none (codes "new.lua")

post_script_throws_example : handle json post_api_script (api_callback environment) script s ≡ (
  raised bad_variant_access,
  record s { host = Queries.update_script (codes "new.lua") (codes "write()") s.host },
)
post_script_throws_example = post_script_throws json environment script s

handle-ne_example :
    (handle json get_api_job (api_callback environment) (get none none (codes "1")) s).0
    ≢ raised bad_variant_access
handle-ne_example = handle-ne json environment (get none none (codes "1")) s get_api_job (λ e. cc)

query_unchanged_example :
    (handle json get_api_job (api_callback environment) (get none none (codes "x")) s).1 ≡ s
query_unchanged_example =
    query_unchanged json environment (get none none (codes "x")) s get_api_job refl

get_script-post_script_example :
    let s' = (handle json post_api_script (api_callback environment) script s).1 in
    handle json get_api_script (api_callback environment) script s'
    ≡ (done (reply (codes "write()") (codes "text/plain")), s')
unfolding can_write
get_script-post_script_example = get_script-post_script json environment script s refl

-- Three results from 0 on are asked for, and there are two.
get_jobs_incomplete_example :
    handle_get_jobs json (api_callback environment) (get (some (codes "0")) (some (codes "3")) []) s
    ≡ (raised parse_error, s)
unfolding list_directory read lookup ascending to_string stoi refuse
get_jobs_incomplete_example =
    get_jobs_incomplete json environment (get (some (codes "0")) (some (codes "3")) []) s 0 3 names
      (codes "{0}") refl refl refl refl (omega arith) (λ t. rw (ends_in_comma-append t))
      (omega arith)

get_jobs_complete_example :
    handle_get_jobs json (api_callback environment) (get (some (codes "0")) (some (codes "2")) []) s
    ≡ (
      done (
          reply_json json
            ((codes "ok", codes "true") ∷ (codes "response", codes "[\n{0}\n,\n{1}\n]\n") ∷ [])),
      s,
    )
unfolding list_directory read lookup ascending to_string stoi copy_file lines ends_in_comma refuse
get_jobs_complete_example =
    get_jobs_complete json environment (get (some (codes "0")) (some (codes "2")) []) s 0 2 names
      (codes "{0}") refl refl refl refl (omega arith) (codes "[\n{0}\n,\n{1}\n]\n") refl refl
