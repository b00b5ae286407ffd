-- ===== src/Importer/Service.antt =====
-- What the importer makes of an answer of the service itself: api/Server.h against
-- persistence/InfluxDBImporter.cpp.
use opcuatesttool.Prelude.{
  ◌≡◌, refl, ◌<◌, ◌+◌, nat_eq, length, true, Bool, some, List, [], ◌∷◌, ℤ, throw, json_type_error,
  ◌∙◌, ap, subst, sym,
}
use opcuatesttool.Std.Text.{Text, Lacks, codes}
use opcuatesttool.TestService.Monad.{
  Service, M, Outcome, done, raised, pure, bind_outcome, ◌>>=◌, lift,
}
use opcuatesttool.TestService.Defs.{Environment, api_callback}
use opcuatesttool.Api.Request.{ResponseVariant, get_jobs_request, as_get_job_response}
use opcuatesttool.Api.Handlers.{
  Json, HttpRequest, HttpResponse, reply_json, int_param, parsed, handle_get_jobs,
}
use opcuatesttool.Importer.Buffer.{Fetch, size_max}
use opcuatesttool.Importer.Fetch.{HasRoom, body}
use opcuatesttool.Importer.Import.{
  ImportJson, uncaught, Post, Answer, Point, Importer, entry_of, uri, import_items, round,
}
use opcuatesttool.Importer.Progress.{IsWhole, round_whole}

-- A chain of calls that is done: the first is done, and the rest after it.
record Done {A B : Type 0} (m : M A) (f : A → M B) (s : Service) (b : B) (s' : Service)
    : Type 0 where
  value : A
  between : Service
  begins : m s ≡ (done value, between)
  goes_on : f value between ≡ (done b, s')

bind-done :
    {A B : Type 0} (m : M A) (f : A → M B) (s s' : Service) (b : B)
    → (m >>= f) s ≡ (done b, s')
    → Done m f s b s'
bind-done {A = A} {B = B} m f s s' b e = cases (m s).0 (m s).1 refl e
  where
    cases :
        (o : Outcome A) (t : Service)
        → m s ≡ (o, t)
        → bind_outcome f o t ≡ (done b, s')
        → Done m f s b s'
    cases (done a) t h e = record { value = a; between = t; begins = h; goes_on = e }
    cases (raised x) t h e = cc
    cases Outcome.exited t h e = cc
    cases Outcome.no_fuel t h e = cc

done_value :
    {A : Type 0} (a b : A) (s s' : Service)
    → ◌≡◌ {A = Outcome A × Service} (done a, s) (done b, s')
    → a ≡ b
done_value a b s s' e = cc

-- A transfer that succeeds, in parts for which there is room.
pub record IsDelivered (a : Answer) (text : Text) : Type 0 where
  pub allocates : a.allocates ≡ true
  pub room : HasRoom a.parts
  pub whole : body a.parts ≡ text
  pub fits : length text + 1 < size_max
  pub no_nul : Lacks 0 text
  pub ok_code : a.code ≡ 0

arrives :
    (json : ImportJson) (post_http : List (Point json) → Post) (a : Answer) (text : Text)
    (value : json.Value)
    → IsDelivered a text
    → json.parse text ≡ some value
    → IsWhole json post_http a value
arrives json post_http a text value d e = record {
  allocates = d.allocates;
  room = d.room;
  fits = subst (λ t. length t + 1 < size_max) (sym d.whole) d.fits;
  no_nul = subst (Lacks 0) (sym d.whole) d.no_nul;
  ok_code = d.ok_code;
  parses = ap json.parse d.whole ∙ e;
}

-- The library that both programs use.
abbrev pub server_json :
    (json : ImportJson)
    → (json.Value → Text)
    → (Bool → json.Value)
    → (ℤ → json.Value)
    → (List (Text × json.Value) → json.Value)
    → Json
server_json json dump of_bool of_int of_object = record {
  Value = json.Value;
  parse = json.parse;
  dump = dump;
  of_bool = of_bool;
  of_int = of_int;
  of_object = of_object;
}

module _ (json : Json) (env : Environment) (req : HttpRequest) (s s' : Service)
    (resp : HttpResponse) where
  abbrev answer_value : Bool → json.Value → HttpResponse
  answer_value flag value =
      reply_json json ((codes "ok", json.of_bool flag) ∷ (codes "response", value) ∷ [])

  abbrev after_text : Bool × Text → M HttpResponse
  after_text r = lift (parsed json (json.parse r.1)) >>= λ value. pure (answer_value r.0 value)

  abbrev after_call : ResponseVariant → M HttpResponse
  after_call r = lift (as_get_job_response r) >>= after_text

  abbrev after_from : ℤ → M HttpResponse
  after_from from = lift (int_param (req.param (codes "max"))) >>= λ max.
      api_callback env (get_jobs_request from max) >>= after_call

  -- An answer of GET /api/jobs is an object with a flag in front.
  jobs_answer :
      handle_get_jobs json (api_callback env) req s ≡ (done resp, s')
      → (flag : Bool) × (value : json.Value) × (answer_value flag value ≡ resp)
  unfolding handle_get_jobs
  jobs_answer e =
      let a = bind-done (lift (int_param (req.param (codes "from")))) after_from s s' resp e in
      let b =
        bind-done (lift (int_param (req.param (codes "max"))))
          (λ max. api_callback env (get_jobs_request a.value max) >>= after_call) a.between s' resp
          a.goes_on in
      let c =
        bind-done (api_callback env (get_jobs_request a.value b.value)) after_call b.between s' resp
          b.goes_on in
      let d =
        bind-done (lift (as_get_job_response c.value)) after_text c.between s' resp c.goes_on in
      let f =
        bind-done (lift (parsed json (json.parse d.value.1)))
          (λ value. pure (answer_value d.value.0 value)) d.between s' resp d.goes_on in
      (d.value.0, f.value, done_value (answer_value d.value.0 f.value) resp f.between s' f.goes_on)

module _ (json : ImportJson) (dump : json.Value → Text) (of_bool : Bool → json.Value)
    (of_int : ℤ → json.Value) (of_object : List (Text × json.Value) → json.Value) where
  -- Let an answer of GET /api/jobs of the service, to any request in any state, be what the
  -- importer gets for its request, in a transfer that succeeds, shorter than the memory and
  -- without a NUL. Where the JSON library reads back what it has written, goes through the two
  -- members of the answer with "ok" first, and throws a type error for `at` of a flag: a round
  -- from any state ends `main` with that exception, and no job was posted.
  pub round_ends :
      (post_http : List (Point json) → Post) (env : Environment) (req : HttpRequest)
      (s s' : Service) (resp : HttpResponse) (answer : Text → Answer) (p : Fetch)
      (i : Importer json)
      → ((v : json.Value) → json.parse (dump v) ≡ some v)
      → ((a b : json.Value)
          → json.items (of_object ((codes "ok", a) ∷ (codes "response", b) ∷ [])) ≡ a ∷ b ∷ [])
      → ((member key : Text) (flag : Bool)
          → json.int_at member key (of_bool flag) ≡ throw json_type_error)
      → handle_get_jobs (server_json json dump of_bool of_int of_object) (api_callback env) req s
        ≡ (done resp, s')
      → IsDelivered (answer (uri json i.from_id)) resp.content
      → round json post_http answer p i ≡ (uncaught json_type_error, i)
  unfolding import_items entry_of
  round_ends post_http env req s s' resp answer p i reads_back members no_member answers delivered =
      let (flag, value, e) =
        jobs_answer (server_json json dump of_bool of_int of_object) env req s s' resp answers in
      let object = of_object ((codes "ok", of_bool flag) ∷ (codes "response", value) ∷ []) in
      let content : json.parse resp.content ≡ some object =
        ap (λ r. json.parse r.content) (sym e) ∙ reads_back object in
      round_whole json post_http answer p i object
        (arrives json post_http (answer (uri json i.from_id)) resp.content object delivered content)
      ∙ rw
          (
            members (of_bool flag) value,
            import_items,
            no_member (codes "request") (codes "id") flag,
          )
          refl
