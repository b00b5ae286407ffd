-- ===== src/Tests/Asking.antt =====
-- The importer asks the service for the finished jobs.
use opcuatesttool.Prelude.{
  ℕ, zero, suc, nat_eq, int_eq, text_eq, ◌≡◌, refl, Bool, none, some, List, [], ◌∷◌, ◌++◌, ◌==◌,
  if◌then◌else◌, ℤ, pos, Result, ok, throw, json_type_error, length, true, false, arith, ap,
}
use opcuatesttool.Prelude.Dict.{lookup}
use opcuatesttool.Std.Text.{Text, codes}
use opcuatesttool.Std.Decimal.{to_string, stoi}
use opcuatesttool.Std.Files.{list_directory, read}
use opcuatesttool.DataBase.Pages.{ascending}
use opcuatesttool.TestService.Monad.{Service, done}
use opcuatesttool.TestService.Defs.{api_callback}
use opcuatesttool.Api.Handlers.{HttpRequest, HttpResponse, handle_get_jobs}
use opcuatesttool.Api.Jobs.{get_jobs_complete}
use opcuatesttool.Importer.Import.{ImportJson, uncaught, returned, Answer, started, round}
use opcuatesttool.Importer.Service.{server_json, round_ends}
use opcuatesttool.Tests.Data.{environment, two_results, service, names}
use opcuatesttool.Tests.Importing.{part, part-HasRoom}

take : ℕ → Text → Text
take zero s = []
take (suc n) [] = []
take (suc n) (c ∷ s) = c ∷ take n s

drop : ℕ → Text → Text
drop zero s = s
drop (suc n) [] = []
drop (suc n) (c ∷ s) = drop n s

take-append : (s t : Text) → take (length s) (s ++ t) ≡ s
unfolding take
take-append [] t = refl
take-append (c ∷ s) t = ap (◌∷◌ c) (take-append s t)

drop-append : (s t : Text) → drop (length s) (s ++ t) ≡ t
unfolding drop
drop-append [] t = refl
drop-append (c ∷ s) t = drop-append s t

-- JSON as texts: a flag is one code, and an object of two members the length of the first value and
-- both values.
items : Text → List Text
items [] = []
items (n ∷ s) = take n s ∷ drop n s ∷ []

of_object : List (Text × Text) → Text
of_object ((k, a) ∷ (l, b) ∷ []) = length a ∷ a ++ b
of_object _ = []

member_at : Text → Result ℤ
member_at (c ∷ []) = throw json_type_error
member_at _ = ok (pos 0)

abbrev json : ImportJson
json = record {
  Value = Text;
  Double = ℕ;
  parse = λ t. some t;
  items = items;
  int_at = λ a b v. member_at v;
  text_at = λ a b v. ok a;
  double_at = λ a b v. ok 0;
}

of_bool : Bool → Text
of_bool b = if b then codes "t" else codes "f"

items-of_object :
    (a b : Text) → items (of_object ((codes "ok", a) ∷ (codes "response", b) ∷ [])) ≡ a ∷ b ∷ []
unfolding items of_object
items-of_object a b = rw (take-append a b, drop-append a b) refl

no_member : (flag : Bool) → member_at (of_bool flag) ≡ throw json_type_error
unfolding member_at of_bool
no_member true = refl
no_member false = refl

-- The request of the importer has no `max`.
abbrev asks : HttpRequest
asks = record {
  param = λ k. if k == codes "from" then some (codes "0") else none;
  match_1 = [];
  body = [];
}

abbrev s : Service
s = service two_results

abbrev content : Text
content = 1 ∷ codes "t[\n]\n"

abbrev resp : HttpResponse
resp = record {
  allow_origin = codes "*";
  content = content;
  content_type = codes "application/json";
}

answers :
    handle_get_jobs
      (server_json json (λ v. v) of_bool to_string of_object)
      (api_callback environment)
      asks
      s
    ≡ (done resp, s)
unfolding list_directory read lookup ascending to_string stoi of_object of_bool
answers =
    get_jobs_complete (server_json json (λ v. v) of_bool to_string of_object) environment asks s 0 0
      names (codes "{0}") refl refl refl refl (omega arith) (codes "[\n]\n") refl refl

abbrev answer : Text → Answer
answer url = record { allocates = true; parts = part content ∷ []; code = 0 }

round_ends_example :
    round json
      (λ points. returned (pos 0))
      answer
      (record { payload = none; size = 0 })
      (started json)
    ≡ (uncaught json_type_error, started json)
round_ends_example =
    round_ends json (λ v. v) of_bool to_string of_object (λ points. returned (pos 0)) environment
      asks s s resp answer (record { payload = none; size = 0 }) (started json) (λ v. refl)
      items-of_object (λ member key. no_member) answers
      (record {
        allocates = refl;
        room = part-HasRoom content;
        whole = refl;
        fits = omega arith;
        no_nul = omega arith;
        ok_code = refl;
      })
