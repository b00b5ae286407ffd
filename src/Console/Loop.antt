-- ===== src/Console/Loop.antt =====
-- `doREPL` of repl/console.cpp.
use opcuatesttool.Prelude.{ℕ, zero, suc, Option, none, some, List, [], ◌∷◌, ◌++◌, length}
use opcuatesttool.Std.Text.{Text, codes}
use opcuatesttool.Console.Api.{Loaded, chunk, syntax_error, load_error, LuaApi, write, l_message}
use opcuatesttool.Console.Chunks.{Ran, values, error_text, docall}
use opcuatesttool.Console.Input.{W, Read, statement, no_input, loadline}

module _ (api : LuaApi) where
  abbrev pub printed : Option Text × W api → W api
  printed (none, w) = w
  printed (some text, w) = l_message none (codes "error calling 'print' (" ++ text ++ codes ")") w

  unfoldable pub l_print : List api.Value → W api → W api
  l_print [] w = w
  l_print (v ∷ vs) w = printed (api.print (v ∷ vs) w)

  abbrev pub shown : Ran api × W api → W api
  shown (values vs, w) = l_print vs w
  shown (error_text text, w) = l_message none text w

  -- One round of the loop, once a statement was read.
  unfoldable pub evaluate : Loaded api.Chunk → W api → W api
  unfolding docall l_print
  evaluate (chunk f) w = shown (docall api f [] w)
  evaluate (syntax_error text) w = l_message none text w
  evaluate (load_error text) w = l_message none text w

  -- The test of the loop.
  abbrev pub after_read :
      (Loaded api.Chunk → W api → Option (W api)) → Option (Read api) → Option (W api)
  after_read next none = none
  after_read next (some (no_input w)) = some (write (codes "\n") w)
  after_read next (some (statement result w)) = next result w

  -- The loop, on fuel; `none` would be a lack of it. The loops of `loadline` get the same.
  unfoldable pub rounds : ℕ → W api → Option (W api)
  unfolding loadline evaluate
  rounds zero w = none
  rounds (suc fuel) w =
      after_read (λ result w'. rounds fuel (evaluate result w')) (loadline api (suc fuel) w)

  -- Each round but the last reads at least one character of the input.
  unfoldable pub do_repl : W api → Option (W api)
  unfolding rounds
  do_repl w = rounds (suc (length w.input)) w
