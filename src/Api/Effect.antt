-- ===== src/Api/Effect.antt =====
-- What a request leaves of the service: what the handler leaves that it reaches.
use opcuatesttool.Prelude.{◌≡◌, ◌≢◌, refl, Option, none, some}
use opcuatesttool.Std.Text.{Text}
use opcuatesttool.TestService.Monad.{
  Outcome, Service, done, raised, exited, no_fuel, bind_outcome, pure,
}
use opcuatesttool.Api.Handlers.{Json, Callback, Endpoint, handle}
use opcuatesttool.Api.Routes.{Target, endpoint, events, preflight, routes}
use opcuatesttool.Api.Server.{
  HttpLibrary, Incoming, response, serve, run_target, unless_file, file_for, Answer, reached_by,
  reached,
}

-- A handler's answer is passed on, and its exit.
bind_pure :
    {A B : Type 0} (f : A → B) (r : Outcome A × Service)
    → let r' = bind_outcome (λ a. pure (f a)) r.0 r.1 in
      (r'.1 ≡ r.1) × (r'.0 ≢ exited → r.0 ≢ exited)
bind_pure f (done a, s) = (refl, λ n e. cc)
bind_pure f (raised x, s) = (refl, λ n e. cc)
bind_pure f (exited, s) = (refl, λ n e. n refl)
bind_pure f (no_fuel, s) = (refl, λ n e. cc)

module _ (lib : HttpLibrary) (json : Json) (callback : Callback) (req : Incoming)
    (s : Service) where
  -- The service after the handler, if one is reached.
  abbrev pub left_by : Option (Endpoint × Text) → Service
  left_by none = s
  left_by (some (e, group)) =
      (handle json e callback (record { param = req.param; match_1 = group; body = req.body }) s).1

  -- The handler does not end the service.
  abbrev pub GoesOn : Option (Endpoint × Text) → Type 0
  GoesOn none = Unit {0}
  GoesOn (some (e, group)) =
      (handle json e callback (record { param = req.param; match_1 = group; body = req.body }) s).0
      ≢ exited

  abbrev Leaves : Outcome Answer × Service → Option (Endpoint × Text) → Type 0
  Leaves r reaches = (r.1 ≡ left_by reaches) × (r.0 ≢ exited → GoesOn reaches)

  run_target-Leaves :
      (t : Option (Target × Text))
      → Leaves (run_target lib json callback req t s) (reached_by lib json callback none t)
  run_target-Leaves none = (refl, λ n. tt)
  run_target-Leaves (some (events, group)) = (refl, λ n. tt)
  run_target-Leaves (some (preflight, group)) = (refl, λ n. tt)
  run_target-Leaves (some (endpoint e, group)) =
      bind_pure response
        (handle json e callback (record { param = req.param; match_1 = group; body = req.body }) s)

  unless_file-Leaves :
      (o : Option Text)
      → Leaves
          (unless_file lib json callback req o s)
          (reached_by lib json callback o (lib.choose routes req.method req.path))
  unless_file-Leaves none = run_target-Leaves (lib.choose routes req.method req.path)
  unless_file-Leaves (some text) = (refl, λ n. tt)

  pub serve-Leaves : Leaves (serve lib json callback req s) (reached lib json callback req)
  unfolding serve
  serve-Leaves = unless_file-Leaves (file_for lib json callback req.method req.path)
