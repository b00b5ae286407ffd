-- ===== src/Console/Posted.antt =====
-- From POST /api/repl to the interpreter: api/Server.h, testService/Repl.h and repl/console.cpp.
use opcuatesttool.Prelude.{pos, ℕ, nat_eq, text_eq, int_eq, ◌≡◌, false, some, List, [], ◌∷◌, ◌++◌}
use opcuatesttool.Std.Text.{Text, codes}
use opcuatesttool.TestService.Monad.{Service}
use opcuatesttool.TestService.Repl.{Inject}
use opcuatesttool.TestService.Defs.{Environment, api_callback}
use opcuatesttool.Api.Handlers.{Json, HttpRequest, handle, post_api_repl}
use opcuatesttool.Repl.Extension
use opcuatesttool.Console.Api.{LuaApi}
use opcuatesttool.Console.Input.{W}
use opcuatesttool.Console.Options.{Process}

-- A terminal that takes every character.
abbrev pub Appends : Inject → Type 0
Appends inject = (terminal : Text) (c : ℕ) → inject terminal c ≡ some (terminal ++ c ∷ [])

module _ (json : Json) (env : Environment) where
  -- The service after the requests, one after the other.
  unfoldable pub post_all : List HttpRequest → Service → Service
  post_all [] s = s
  post_all (req ∷ reqs) s = post_all reqs (handle json post_api_repl (api_callback env) req s).1

module _ (api : LuaApi) (process : Process) where
  -- The console with no options, in front of its first prompt.
  abbrev pub ready : W api → W api
  ready w = record {
    lua =
        api.set_arg ((pos 0, codes "./repl") ∷ [])
          (api.open_libs false (Extension.add api.lua w.lua));
    input = w.input;
    output =
        w.output
        ++ codes "stdin refers to a tty\n"
        ++ codes "before stding is tty\n"
        ++ codes "stdin is tty\n"
        ++ (process.copyright ++ codes "\n");
    errors = w.errors;
  }
