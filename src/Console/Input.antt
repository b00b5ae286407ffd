-- ===== src/Console/Input.antt =====
-- The reading of a statement in repl/console.cpp: `pushline`, `addreturn`, `multiline` and `loadline`.
use opcuatesttool.Prelude.{
  text_eq, ℕ, zero, suc, nat_eq, Bool, true, false, Option, none, some, [], ◌∷◌, ◌++◌, ◌==◌,
  if◌then◌else◌,
}
use opcuatesttool.Std.Text.{Text, codes, newline, c_str}
use opcuatesttool.Console.Api.{Loaded, chunk, syntax_error, load_error, World, LuaApi, write}

-- At most `n` characters, up to the first newline, and the rest.
unfoldable pub split_line : ℕ → Text → Text × Text
split_line zero s = ([], s)
split_line (suc n) [] = ([], [])
split_line (suc n) (c ∷ s) =
    let rest = split_line n s in if c == newline then (c ∷ [], s) else (c ∷ rest.0, rest.1)

-- LUA_MAXINPUT is 512, with the NUL.
abbrev pub max_line : ℕ
max_line = 511

-- `fgets`; `none` is the end of the input.
abbrev pub fgets : Text → Option (Text × Text)
fgets [] = none
fgets (c ∷ s) = some (split_line max_line (c ∷ s))

-- Without the newline at the end.
unfoldable pub chop : Text → Text
chop [] = []
chop (c ∷ []) = if c == newline then [] else c ∷ []
chop (c ∷ d ∷ s) = c ∷ chop (d ∷ s)

-- The `=` of Lua 5.2.
abbrev pub expand : Bool → Text → Text
expand first [] = []
expand false (c ∷ s) = c ∷ s
expand true (c ∷ s) = if c == b'=' then codes "return " ++ s else c ∷ s

abbrev ends_text : Text → Text → Bool
ends_text mark [] = mark == []
ends_text mark (c ∷ s) = let rest = ends_text mark s in if mark == c ∷ s then true else rest

module _ (api : LuaApi) where
  open api use {lua, Value, Chunk}

  abbrev pub W : Type 0
  W = World lua.State

  abbrev or_default : Bool → Option Text → Text
  or_default first (some p) = p
  or_default true none = codes "> "
  or_default false none = codes ">> "

  unfoldable pub get_prompt : Bool → lua.State → Text
  get_prompt true s = or_default true (api.global_text (codes "_PROMPT") s)
  get_prompt false s = or_default false (api.global_text (codes "_PROMPT2") s)

  abbrev pub got_line : Bool → W → Option (Text × Text) → Option (Text × W)
  got_line first w none = none
  got_line first w (some (buffer, rest)) =
      some (expand first (chop (c_str buffer)), record w { input = rest })

  -- The prompt is written also where no line follows.
  abbrev pub prompted : Bool → W → W
  prompted first w = write (get_prompt first w.lua) w

  unfoldable pub pushline : Bool → W → Option (Text × W)
  unfolding get_prompt
  pushline first w = got_line first (prompted first w) (fgets w.input)

  abbrev pub stdin_name : Text
  stdin_name = codes "=stdin"

  unfoldable pub addreturn : Text → Loaded Chunk
  addreturn line = api.load (codes "return " ++ line ++ codes ";") stdin_name

  -- The message of an incomplete statement.
  unfoldable pub incomplete : Loaded Chunk → Bool
  incomplete (chunk f) = false
  incomplete (syntax_error text) = ends_text (codes "<eof>") text
  incomplete (load_error text) = false

  -- What `report` finds on the stack in place of the message that `incomplete` has removed: the value
  -- of `_PROMPT2`, as a text.
  abbrev pub left_over : Option Text → Text
  left_over none = api.null_text
  left_over (some p) = p

  -- The loop, on fuel.
  unfoldable pub multiline : ℕ → Text → W → Option (Loaded Chunk × W)
  unfolding incomplete
  multiline zero line w = none
  multiline (suc fuel) line w =
      let result = api.load line stdin_name in
      let more : Option (Loaded Chunk × W) = elim (pushline false w) [
        | none ↦
            some (
              syntax_error (left_over (api.global_text (codes "_PROMPT2") w.lua)),
              prompted false w,
            )
        | some (next, w') ↦ multiline fuel (line ++ codes "\n" ++ next) w'
      ] in
      if incomplete result then more else some (result, w)

  -- A statement, or the end of the input.
  pub data Read : Type 0 where
    statement : Loaded Chunk → W → Read
    no_input : W → Read

  abbrev pub as_statement : Option (Loaded Chunk × W) → Option Read
  as_statement none = none
  as_statement (some (result, w)) = some (statement result w)

  abbrev pub try_return : ℕ → Text → W → Loaded Chunk → Option Read
  try_return fuel line w (chunk f) = some (statement (chunk f) w)
  try_return fuel line w (syntax_error text) = as_statement (multiline fuel line w)
  try_return fuel line w (load_error text) = as_statement (multiline fuel line w)

  abbrev pub with_line : ℕ → W → Option (Text × W) → Option Read
  with_line fuel w none = some (no_input (prompted true w))
  with_line fuel w (some (line, w')) = try_return fuel line w' (addreturn line)

  unfoldable pub loadline : ℕ → W → Option Read
  unfolding multiline addreturn
  loadline fuel w = with_line fuel w (pushline true w)
