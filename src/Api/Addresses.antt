-- ===== src/Api/Addresses.antt =====
-- The addresses of api/Server.h, and that each request has at most one route.
use opcuatesttool.Prelude.{
  ℕ, nat_eq, text_eq, ◌≡◌, refl, true, false, [], ◌∷◌, ◌++◌, append-nil, ◌∙◌, ap, sym, arith,
}
use opcuatesttool.Std.Text.{Text, codes}
use opcuatesttool.Std.Decimal.{is_digit}
use opcuatesttool.Api.Handlers.{
  get_api_jobs, get_api_scripts, put_api_repo_clone, get_api_script, post_api_script, post_api_jobs,
  get_api_job, get_api_job_log, get_api_targets, post_api_repl,
}
use opcuatesttool.Api.Routes.{
  Method, get, post, put, options, all_in_line, all_digits, is_number, strip, cons_first,
  span_digits, match, Target, endpoint, events, preflight, routes, matching,
}

-- The requests that the server answers; the names are those of api.md.
pub data Address : Type 0 where
  any_options : Text → Address
  list_jobs list_scripts clone_repo create_job watch_events list_targets send_line : Address
  show_script store_script show_job show_log : Text → Address

abbrev pub IsValid : Address → Type 0
IsValid (any_options rest) = all_in_line rest ≡ true
IsValid (show_script name) = all_in_line name ≡ true
IsValid (store_script name) = all_in_line name ≡ true
IsValid (show_job id) = is_number id ≡ true
IsValid (show_log id) = is_number id ≡ true
IsValid _ = Unit {0}

abbrev pub method_of : Address → Method
method_of (any_options rest) = options
method_of list_jobs = get
method_of list_scripts = get
method_of clone_repo = put
method_of create_job = post
method_of watch_events = get
method_of list_targets = get
method_of send_line = post
method_of (show_script name) = get
method_of (store_script name) = post
method_of (show_job id) = get
method_of (show_log id) = get

abbrev pub path_of : Address → Text
path_of (any_options rest) = codes "/" ++ rest
path_of list_jobs = codes "/api/jobs"
path_of list_scripts = codes "/api/scripts"
path_of clone_repo = codes "/api/repo/clone"
path_of create_job = codes "/api/jobs"
path_of watch_events = codes "/api/events"
path_of list_targets = codes "/api/targets"
path_of send_line = codes "/api/repl"
path_of (show_script name) = codes "/api/scripts/" ++ name
path_of (store_script name) = codes "/api/scripts/" ++ name
path_of (show_job id) = codes "/api/jobs/" ++ id
path_of (show_log id) = codes "/api/jobs/" ++ (id ++ codes "/log")

-- The target, and the text that the handler finds in `matches[1]`.
abbrev pub target_of : Address → Target × Text
target_of (any_options rest) = (preflight, rest)
target_of list_jobs = (endpoint get_api_jobs, [])
target_of list_scripts = (endpoint get_api_scripts, [])
target_of clone_repo = (endpoint put_api_repo_clone, [])
target_of create_job = (endpoint post_api_jobs, [])
target_of watch_events = (events, [])
target_of list_targets = (endpoint get_api_targets, [])
target_of send_line = (endpoint post_api_repl, [])
target_of (show_script name) = (endpoint get_api_script, name)
target_of (store_script name) = (endpoint post_api_script, name)
target_of (show_job id) = (endpoint get_api_job, id)
target_of (show_log id) = (endpoint get_api_job_log, id)

-- A text that begins with no digit.
abbrev NoDigit : Text → Type 0
NoDigit [] = Unit {0}
NoDigit (c ∷ s) = is_digit c ≡ false

all_digits-cons :
    (c : ℕ) (ds : Text) → all_digits (c ∷ ds) ≡ true → (is_digit c ≡ true) × (all_digits ds ≡ true)
unfolding all_digits
all_digits-cons c ds h = ground arith

span_digits-append :
    (ds m : Text) → all_digits ds ≡ true → NoDigit m → span_digits (ds ++ m) ≡ (ds, m)
unfolding span_digits all_digits
span_digits-append [] [] h n = refl
span_digits-append [] (c ∷ m) h n = rw n refl
span_digits-append (c ∷ ds) m h n =
    let (digit, more) = all_digits-cons c ds h in
    rw digit (ap (cons_first c) (span_digits-append ds m more n))

span_digits_all : (ds : Text) → all_digits ds ≡ true → span_digits ds ≡ (ds, [])
span_digits_all ds h = ap span_digits (sym (append-nil ds)) ∙ span_digits-append ds [] h tt

-- The request of an address matches one route, and the handler finds the text of the address.
pub matches_address :
    (a : Address) → IsValid a → matching (method_of a) (path_of a) routes ≡ target_of a ∷ []
unfolding matching match routes strip
matches_address (any_options rest) v = rw v refl
matches_address list_jobs v = refl
matches_address list_scripts v = refl
matches_address clone_repo v = refl
matches_address create_job v = refl
matches_address watch_events v = refl
matches_address list_targets v = refl
matches_address send_line v = refl
matches_address (show_script name) v = rw v refl
matches_address (store_script name) v = rw v refl
matches_address (show_job []) v = cc
matches_address (show_job (c ∷ id)) v = rw (span_digits_all (c ∷ id) v) refl
matches_address (show_log []) v = cc
matches_address (show_log (c ∷ id)) v = rw (span_digits-append (c ∷ id) (codes "/log") v refl) refl
