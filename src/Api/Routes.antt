-- ===== src/Api/Routes.antt =====
-- The routes that the constructor of `Server` in api/Server.h registers: their methods and the
-- regular expressions of their paths.
use opcuatesttool.Prelude.{
  ℕ, nat_eq, text_eq, Bool, true, false, Option, none, some, List, [], ◌∷◌, ◌==◌, if◌then◌else◌,
}
use opcuatesttool.Std.Text.{Text, codes}
use opcuatesttool.Std.Decimal.{is_digit}
use opcuatesttool.Api.Handlers.{
  Endpoint, get_api_jobs, get_api_scripts, put_api_repo_clone, get_api_script, post_api_script,
  post_api_jobs, get_api_job, get_api_job_log, get_api_targets, post_api_repl,
}

pub data Method : Type 0 where
  get post put options : Method

abbrev pub same_method : Method → Method → Bool
same_method get get = true
same_method post post = true
same_method put put = true
same_method options options = true
same_method _ _ = false

-- The forms of the expressions: no group, `l(.*)`, and `l(\d+)m`, where `m` begins with no digit.
pub data Pattern : Type 0 where
  plain : Text → Pattern
  then_any : Text → Pattern
  then_number : Text → Text → Pattern

-- `.` is any character but the ends of a line.
abbrev pub in_line : ℕ → Bool
in_line c = if c == 10 then false else if c == 13 then false else true

unfoldable pub all_in_line : Text → Bool
all_in_line [] = true
all_in_line (c ∷ s) = let rest = all_in_line s in if in_line c then rest else false

unfoldable pub all_digits : Text → Bool
all_digits [] = true
all_digits (c ∷ s) = let rest = all_digits s in if is_digit c then rest else false

-- One digit or more.
abbrev pub is_number : Text → Bool
is_number [] = false
is_number (c ∷ s) = all_digits (c ∷ s)

-- What follows the text at the front.
unfoldable pub strip : Text → Text → Option Text
strip [] p = some p
strip (c ∷ l) [] = none
strip (c ∷ l) (d ∷ p) = let rest = strip l p in if c == d then rest else none

abbrev pub cons_first : ℕ → Text × Text → Text × Text
cons_first c (a, b) = (c ∷ a, b)

-- The digits at the front, and the rest.
unfoldable pub span_digits : Text → Text × Text
span_digits [] = ([], [])
span_digits (c ∷ s) =
    let rest = span_digits s in if is_digit c then cons_first c rest else ([], c ∷ s)

abbrev pub any_group : Option Text → Option Text
any_group none = none
any_group (some s) = if all_in_line s then some s else none

abbrev pub number_group : Text → Text × Text → Option Text
number_group m ([], r) = none
number_group m (c ∷ ds, r) = if r == m then some (c ∷ ds) else none

abbrev pub after_strip : Text → Option Text → Option Text
after_strip m none = none
after_strip m (some s) = number_group m (span_digits s)

-- `std::regex_match` of the whole path, with the text of the group.
unfoldable pub match : Pattern → Text → Option Text
match (plain l) p = if p == l then some [] else none
match (then_any l) p = any_group (strip l p)
match (then_number l m) p = after_strip m (strip l p)

-- What a route does: an endpoint, the events, or the answer to a preflight request.
pub data Target : Type 0 where
  endpoint : Endpoint → Target
  events : Target
  preflight : Target

pub record Route : Type 0 where
  pub method : Method
  pub pattern : Pattern
  pub target : Target

abbrev route : Method → Pattern → Target → Route
route method pattern target = record { method = method; pattern = pattern; target = target }

-- The routes in the order of their registration.
unfoldable pub routes : List Route
routes =
    route options (then_any (codes "/")) preflight
    ∷ route get (plain (codes "/api/jobs")) (endpoint get_api_jobs)
    ∷ route get (plain (codes "/api/scripts")) (endpoint get_api_scripts)
    ∷ route put (plain (codes "/api/repo/clone")) (endpoint put_api_repo_clone)
    ∷ route get (then_any (codes "/api/scripts/")) (endpoint get_api_script)
    ∷ route post (then_any (codes "/api/scripts/")) (endpoint post_api_script)
    ∷ route post (plain (codes "/api/jobs")) (endpoint post_api_jobs)
    ∷ route get (then_number (codes "/api/jobs/") []) (endpoint get_api_job)
    ∷ route get (then_number (codes "/api/jobs/") (codes "/log")) (endpoint get_api_job_log)
    ∷ route get (plain (codes "/api/events")) events
    ∷ route get (plain (codes "/api/targets")) (endpoint get_api_targets)
    ∷ route post (plain (codes "/api/repl")) (endpoint post_api_repl)
    ∷ []

abbrev pub hit : Target → Option Text → List (Target × Text) → List (Target × Text)
hit target none hits = hits
hit target (some group) hits = (target, group) ∷ hits

-- The routes that match a request, each with the text of its group.
unfoldable pub matching : Method → Text → List Route → List (Target × Text)
matching method path [] = []
matching method path (r ∷ rs) =
    let rest = matching method path rs in
    if same_method r.method method then hit r.target (match r.pattern path) rest else rest
