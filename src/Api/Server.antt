-- ===== src/Api/Server.antt =====
-- `Server` of api/Server.h behind the HTTP library: a request goes to the web application, to the
-- handler of a route, or nowhere.
use opcuatesttool.Prelude.{◌≡◌, ◌≢◌, refl, Option, none, some, List, [], ◌∷◌, inl, inr}
use opcuatesttool.Std.Text.{Text, codes}
use opcuatesttool.TestService.Monad.{M, Service, done, pure, ◌>>=◌}
use opcuatesttool.Api.Handlers.{Json, HttpResponse, Callback, Endpoint, handle}
use opcuatesttool.Api.Routes.{
  Method, get, Target, endpoint, events, preflight, Route, routes, matching,
}
use opcuatesttool.Api.Addresses.{Address, IsValid, method_of, path_of, target_of, matches_address}
use opcuatesttool.Api.Dispatch.{matching_cases}

-- What cpp-httplib does: it looks for a file of the mounted directory where the method is GET, and
-- else chooses a route.
pub record HttpLibrary : Type 0 where
  pub mounted_file : Text → Option Text
  pub choose : List Route → Method → Text → Option (Target × Text)

-- It chooses the route that matches, where there is just one, and none where none matches. Of the
-- order between routes nothing is assumed.
pub record IsHttpLibrary (lib : HttpLibrary) : Type 0 where
  pub one :
      (method : Method) (path : Text) (x : Target × Text)
      → matching method path routes ≡ x ∷ []
      → lib.choose routes method path ≡ some x
  pub nothing :
      (method : Method) (path : Text)
      → matching method path routes ≡ []
      → lib.choose routes method path ≡ none

pub record Incoming : Type 0 where
  pub method : Method
  pub path : Text
  pub param : Text → Option Text
  pub body : Text

pub data Answer : Type 0 where
  response : HttpResponse → Answer
  headers : List (Text × Text) → Answer  -- of a preflight request
  event_stream : Answer  -- `provide` of the event dispatcher goes on from here
  file : Text → Answer
  not_found : Answer

-- The answer to OPTIONS.
unfoldable pub preflight_headers : List (Text × Text)
preflight_headers =
    (codes "Access-Control-Allow-Methods", codes "POST, GET, PUT, OPTIONS")
    ∷ (codes "Content-Type", codes "text/html; charset=utf-8")
    ∷ (codes "Access-Control-Allow-Headers", codes "X-Requested-With, Content-Type, Accept")
    ∷ (codes "Access-Control-Allow-Origin", codes "*")
    ∷ (codes "Connection", codes "close")
    ∷ []

module _ (lib : HttpLibrary) (json : Json) (callback : Callback) where
  -- The handler that was registered with the route.
  abbrev pub run_target : Incoming → Option (Target × Text) → M Answer
  run_target req none = pure not_found
  run_target req (some (endpoint e, group)) = do
    answer ← handle json e callback (record { param = req.param; match_1 = group; body = req.body })
    pure (response answer)
  run_target req (some (events, group)) = pure event_stream
  run_target req (some (preflight, group)) = pure (headers preflight_headers)

  abbrev pub routed : Incoming → M Answer
  routed req = run_target req (lib.choose routes req.method req.path)

  abbrev pub unless_file : Incoming → Option Text → M Answer
  unless_file req none = routed req
  unless_file req (some text) = pure (file text)

  abbrev pub file_for : Method → Text → Option Text
  file_for get path = lib.mounted_file path
  file_for _ path = none

  unfoldable pub serve : Incoming → M Answer
  serve req = unless_file req (file_for req.method req.path)

  -- The endpoint whose handler runs, with the text of the group.
  abbrev pub reached_by : Option Text → Option (Target × Text) → Option (Endpoint × Text)
  reached_by none (some (endpoint e, group)) = some (e, group)
  reached_by _ _ = none

  abbrev pub reached : Incoming → Option (Endpoint × Text)
  reached req = reached_by (file_for req.method req.path) (lib.choose routes req.method req.path)

module _ (lib : HttpLibrary) (json : Json) (callback : Callback) (is_lib : IsHttpLibrary lib)
    (param : Text → Option Text) (body : Text) (s : Service) where
  abbrev pub request : Method → Text → Incoming
  request method path = record { method = method; path = path; param = param; body = body }

  -- Behind a library that chooses the route that matches, where there is just one: the request of
  -- an address that has an endpoint, for whose path the web application has no file, gets the
  -- answer of the handler of that endpoint, which finds in its first group the name or number of
  -- the address.
  pub serve_address :
      (a : Address) (e : Endpoint) (group : Text)
      → IsValid a
      → target_of a ≡ (endpoint e, group)
      → file_for lib json callback (method_of a) (path_of a) ≡ none
      → serve lib json callback (request (method_of a) (path_of a)) s
        ≡ (handle json e callback (record { param = param; match_1 = group; body = body })
              >>= λ answer. pure (response answer))
            s
  unfolding serve
  serve_address a e group v t no_file =
      rw (no_file, is_lib.one (method_of a) (path_of a) (target_of a) (matches_address a v), t) refl

  -- Behind such a library, a request that is not that of an address, and for whose path the web
  -- application has no file, is not found, and the service is unchanged.
  pub serve_elsewhere :
      (method : Method) (path : Text)
      → ((a : Address) → IsValid a → method_of a ≡ method → path_of a ≢ path)
      → file_for lib json callback method path ≡ none
      → serve lib json callback (request method path) s ≡ (done not_found, s)
  unfolding serve
  serve_elsewhere method path no_address no_file = elim (matching_cases method path) [
    | inl e ↦ rw (no_file, is_lib.nothing method path e) refl
    | inr (a, v, m, p, e) ↦ absurd (no_address a v m p)
  ]
