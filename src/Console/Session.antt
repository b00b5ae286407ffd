-- ===== src/Console/Session.antt =====
-- Lines that are posted to the service, and what the console makes of them.
use opcuatesttool.Prelude.{
  ℕ, zero, suc, nat_eq, ◌<◌, ◌≡◌, true, some, List, [], ◌∷◌, length, length-append, arith, All, ap,
  ◌∙◌,
}
use opcuatesttool.Std.Text.{Text, newline}
use opcuatesttool.Console.Api.{LuaApi}
use opcuatesttool.Console.Input.{W, prompted, got_line, pushline, fgets, with_line, loadline}
use opcuatesttool.Console.Loop.{evaluate, after_read, rounds, do_repl}
use opcuatesttool.Console.Lines.{joined, compiled, IsStatement, evaluate_all, loadline-line}

module _ (api : LuaApi) where
  -- The run of the line, and the printing of its results, do not read the standard input.
  abbrev pub LeavesInput : Text → Type 0
  LeavesInput l = (w : W api) → (evaluate api (compiled api l) w).input ≡ w.input

  at_end :
      (fuel : ℕ) (w : W api) → w.input ≡ [] → rounds api (suc fuel) w ≡ some (evaluate_all api [] w)
  unfolding rounds evaluate_all loadline pushline
  at_end fuel w e =
      ap
        (λ i.
          after_read api (λ result w'. rounds api fuel (evaluate api result w'))
            (with_line api (suc fuel) w (got_line api true (prompted api true w) (fgets i))))
        e

  rounds-lines :
      (ls : List Text) (fuel : ℕ) (w : W api)
      → All (IsStatement api) ls
      → All LeavesInput ls
      → w.input ≡ joined ls
      → length (joined ls) < fuel
      → rounds api fuel w ≡ some (evaluate_all api ls w)
  unfolding rounds evaluate_all
  rounds-lines ls zero w v k e f = elim f [ ]
  rounds-lines [] (suc fuel) w v k e f = at_end fuel w e
  rounds-lines (l ∷ ls) (suc fuel) w (v, vs) (k, ks) e f =
      ap (after_read api (λ result w'. rounds api fuel (evaluate api result w')))
        (loadline-line api fuel l (joined ls) w v e)
      ∙ rounds-lines ls fuel _ vs ks (k _) (omega (arith, length-append l (newline ∷ joined ls), f))

  -- Where the code that runs leaves the input alone, and the input is a list of lines each of
  -- which is a whole statement, the loop ends after it has run the lines in order and printed
  -- their results, with a prompt before each and at the end.
  pub do_repl-lines :
      (ls : List Text) (w : W api)
      → All (IsStatement api) ls
      → All LeavesInput ls
      → w.input ≡ joined ls
      → do_repl api w ≡ some (evaluate_all api ls w)
  unfolding do_repl
  do_repl-lines ls w v k e =
      rounds-lines ls (suc (length w.input)) w v k e (omega (arith, ap length e))
