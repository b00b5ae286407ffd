-- ===== src/Console/Chunks.antt =====
-- The running of chunks in repl/console.cpp: `msghandler`, `docall`, `report`, and what is built of
-- them. The handler of SIGINT is not modelled.
use opcuatesttool.Prelude.{
  nat_eq, text_eq, Bool, true, false, Option, none, some, List, [], ◌∷◌, ◌++◌, ◌==◌, ◌&&◌,
  if◌then◌else◌,
}
use opcuatesttool.Std.Text.{Text, codes}
use opcuatesttool.Console.Api.{
  Loaded, chunk, syntax_error, load_error, Error, message, object, Called, returned, failed, World,
  LuaApi, l_message,
}

module _ (api : LuaApi) where
  open api use {lua, Value, Chunk, call, traceback}

  abbrev pub W : Type 0
  W = World lua.State

  unfoldable pub msghandler : Error → lua.State → Text
  msghandler (message text) s = traceback text s
  msghandler (object (some text) name) s = text
  msghandler (object none name) s =
      traceback (codes "(error object is a " ++ name ++ codes " value)") s

  -- The results, or the message that the handler makes.
  pub data Ran : Type 0 where
    values : List Value → Ran
    error_text : Text → Ran

  abbrev pub handled : Called Value × W → Ran × W
  handled (returned vs, w) = (values vs, w)
  handled (failed e, w) = (error_text (msghandler e w.lua), w)

  unfoldable pub docall : Chunk → List Value → W → Ran × W
  unfolding msghandler
  docall f args w = handled (call f args w)

  -- `report`, and whether there was no error.
  abbrev pub report : Option Text → Ran × W → Bool × W
  report progname (values vs, w) = (true, w)
  report progname (error_text text, w) = (false, l_message progname text w)

  unfoldable pub dochunk : Option Text → Loaded Chunk → W → Bool × W
  unfolding docall
  dochunk progname (chunk f) w = report progname (docall f [] w)
  dochunk progname (syntax_error text) w = report progname (error_text text, w)
  dochunk progname (load_error text) w = report progname (error_text text, w)

  unfoldable pub dofile : Option Text → Option Text → W → Bool × W
  unfolding dochunk
  dofile progname name w = let r = api.load_file name w in dochunk progname r.0 r.1

  unfoldable pub dostring : Option Text → Text → Text → W → Bool × W
  unfolding dochunk
  dostring progname source name w = dochunk progname (api.load source name) w

  -- The result of `require` is stored under the name.
  abbrev pub store_library : Text → Ran × W → Ran × W
  store_library name (values vs, w) =
      (values [], record w { lua = api.set_value name (api.first_or_nil vs) w.lua })
  store_library name (error_text text, w) = (error_text text, w)

  unfoldable pub dolibrary : Option Text → Text → W → Bool × W
  unfolding msghandler
  dolibrary progname name w = report progname (store_library name (handled (api.require name w)))

  abbrev starts_at : Text → Bool
  starts_at [] = false
  starts_at (c ∷ s) = c == b'@'

  abbrev pub rest_of : Text → Text
  rest_of [] = []
  rest_of (c ∷ s) = s

  abbrev run_init : Option Text → Text → Option Text → W → Bool × W
  run_init progname name none w = (true, w)
  run_init progname name (some init) w =
      if starts_at init
      then dofile progname (some (rest_of init)) w
      else dostring progname init (codes "=" ++ name) w

  -- `handle_luainit`; `suffix` is the version in the name of the first variable.
  unfoldable pub handle_luainit : Option Text → Text → (Text → Option Text) → W → Bool × W
  unfolding dofile dostring
  handle_luainit progname suffix getenv w = elim (getenv (codes "LUA_INIT" ++ suffix)) [
    | none ↦ run_init progname (codes "LUA_INIT") (getenv (codes "LUA_INIT")) w
    | some init ↦ run_init progname (codes "LUA_INIT" ++ suffix) (some init) w
  ]

  -- How `handle_script` ends: with the status, or with an error of `pushargs`.
  pub data Ended : Type 0 where
    ended : Bool → Ended
    raised : Text → Ended

  abbrev call_script : Option Text → Option (List Value) → Chunk → W → Ended × W
  call_script progname none f w = (raised (codes "'arg' is not a table"), w)
  call_script progname (some args) f w =
      let r = report progname (docall f args w) in (ended r.0, r.1)

  abbrev run_script : Option Text → Loaded Chunk × W → Ended × W
  run_script progname (chunk f, w) = call_script progname (api.arg_values w.lua) f w
  run_script progname (syntax_error text, w) = (ended false, l_message progname text w)
  run_script progname (load_error text, w) = (ended false, l_message progname text w)

  -- `handle_script`, with the argument before the script.
  unfoldable pub handle_script : Option Text → Text → Text → W → Ended × W
  unfolding docall
  handle_script progname before name w =
      let is_stdin = name == codes "-" && (if before == codes "--" then false else true) in
      run_script progname (api.load_file (if is_stdin then none else some name) w)
