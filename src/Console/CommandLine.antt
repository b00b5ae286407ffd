-- ===== src/Console/CommandLine.antt =====
-- The options of the console: `collectargs` and `runargs` of repl/console.cpp against a command line
-- that is written out of a list of options.
use opcuatesttool.Prelude.{
  ℕ, suc, nat_eq, ◌+◌, ◌-◌, ◌≡◌, refl, Bool, true, false, Option, List, [], ◌∷◌, ◌++◌,
  if◌then◌else◌, length, length-append, All, ap, ◌∙◌, append_assoc, arith,
}
use opcuatesttool.Std.Text.{Text, codes}
use opcuatesttool.Console.Args.{
  Flags, script, shape_of, starts_dash, go_on, take_next, step, collected, collect, collect_args,
  with_i, no_flags,
}
use opcuatesttool.Console.Api.{LuaApi}
use opcuatesttool.Console.Chunks.{W, dostring, dolibrary}
use opcuatesttool.Console.Options.{Process, runargs}
use opcuatesttool.Console.Main.{first_args}

-- An option as a user means it. A joined argument is not empty: it is given by its first character
-- and the rest.
pub data Given : Type 0 where
  ignore_environment interactive version : Given
  execute require : Text → Given
  execute_joined require_joined : ℕ → Text → Given

abbrev pub rendered : Given → List Text
rendered ignore_environment = codes "-E" ∷ []
rendered interactive = codes "-i" ∷ []
rendered version = codes "-v" ∷ []
rendered (execute text) = codes "-e" ∷ text ∷ []
rendered (require name) = codes "-l" ∷ name ∷ []
rendered (execute_joined c s) = (codes "-e" ++ c ∷ s) ∷ []
rendered (require_joined c s) = (codes "-l" ++ c ∷ s) ∷ []

abbrev pub all_rendered : List Given → List Text
all_rendered [] = []
all_rendered (o ∷ os) = rendered o ++ all_rendered os

-- The argument of an option of its own must not look like an option.
abbrev pub IsGiven : Given → Type 0
IsGiven (execute text) = starts_dash text ≡ false
IsGiven (require name) = starts_dash name ≡ false
IsGiven _ = Unit {0}

abbrev pub flagged : Given → Flags → Flags
flagged ignore_environment args = record args { has_E = true }
flagged interactive args = with_i args
flagged version args = record args { has_v = true }
flagged (execute text) args = record args { has_e = true }
flagged (require name) args = args
flagged (execute_joined c s) args = record args { has_e = true }
flagged (require_joined c s) args = args

abbrev pub all_flagged : List Given → Flags → Flags
all_flagged [] args = args
all_flagged (o ∷ os) args = all_flagged os (flagged o args)

-- What follows the options: nothing, or a script with its arguments.
abbrev pub IsScript : List Text → Type 0
IsScript [] = Unit {0}
IsScript (a ∷ rest) = shape_of a ≡ script

collect-go_on :
    (i : ℕ) (args args' : Flags) (a : Text) (rest : List Text)
    → step i args (shape_of a) ≡ go_on args'
    → collect i args (a ∷ rest) ≡ collect (i + 1) args' rest
unfolding collect
collect-go_on i args args' a [] e = rw (e, collect) refl
collect-go_on i args args' a (next ∷ rest) e = rw (e, collect) refl

collect-take_next :
    (i : ℕ) (args args' : Flags) (a next : Text) (rest : List Text)
    → step i args (shape_of a) ≡ take_next args'
    → starts_dash next ≡ false
    → collect i args (a ∷ next ∷ rest) ≡ collect (i + 2) args' rest
unfolding collect
collect-take_next i args args' a next rest e n = rw (e, collect) (rw n refl)

collect-IsScript :
    (i : ℕ) (args : Flags) (rest : List Text)
    → IsScript rest
    → collect i args rest ≡ collected args i
unfolding collect step
collect-IsScript i args [] v = refl
collect-IsScript i args (a ∷ []) v = rw (v, collect) refl
collect-IsScript i args (a ∷ next ∷ rest) v = rw (v, collect) refl

collect-rendered :
    (i : ℕ) (args : Flags) (o : Given) (rest : List Text)
    → IsGiven o
    → collect i args (rendered o ++ rest) ≡ collect (i + length (rendered o)) (flagged o args) rest
unfolding step shape_of
collect-rendered i args ignore_environment rest v = collect-go_on i args _ _ rest refl
collect-rendered i args interactive rest v = collect-go_on i args _ _ rest refl
collect-rendered i args version rest v = collect-go_on i args _ _ rest refl
collect-rendered i args (execute text) rest v = collect-take_next i args _ _ text rest refl v
collect-rendered i args (require name) rest v = collect-take_next i args _ _ name rest refl v
collect-rendered i args (execute_joined c s) rest v = collect-go_on i args _ _ rest refl
collect-rendered i args (require_joined c s) rest v = collect-go_on i args _ _ rest refl

collect-all_rendered :
    (i : ℕ) (args : Flags) (os : List Given) (rest : List Text)
    → All IsGiven os
    → IsScript rest
    → collect i args (all_rendered os ++ rest)
      ≡ collected (all_flagged os args) (i + length (all_rendered os))
collect-all_rendered i args [] rest v r =
    collect-IsScript i args rest r ∙ ap (collected args) (omega arith)
collect-all_rendered i args (o ∷ os) rest (v, vs) r =
    ap (collect i args) (append_assoc (rendered o) (all_rendered os) rest)
    ∙ collect-rendered i args o (all_rendered os ++ rest) v
    ∙ collect-all_rendered (i + length (rendered o)) (flagged o args) os rest vs r
    ∙ ap (collected (all_flagged os (flagged o args)))
        (omega (arith, length-append (rendered o) (all_rendered os)))

pred_suc : (n : ℕ) → suc n - 1 ≡ n
pred_suc n = omega arith

module _ (api : LuaApi) (process : Process) (progname : Option Text) where
  -- The code and the libraries in the order of the command line, up to the first that fails.
  abbrev pub run_given : Given → W api → Bool × W api
  run_given (execute text) w = dostring api progname text (codes "=(command line)") w
  run_given (require name) w = dolibrary api progname name w
  run_given (execute_joined c s) w = dostring api progname (c ∷ s) (codes "=(command line)") w
  run_given (require_joined c s) w = dolibrary api progname (c ∷ s) w
  run_given _ w = (true, w)

  abbrev pub run_all : List Given → W api → Bool × W api
  run_all [] w = (true, w)
  run_all (o ∷ os) w = let r = run_given o w in let more = run_all os r.1 in if r.0 then more else r

  if_done :
      (r : Bool × W api) {a b : Bool × W api}
      → a ≡ b
      → (if r.0 then a else r) ≡ (if r.0 then b else r)
  if_done r e = ap (λ more. if r.0 then more else r) e

  runargs-rendered :
      (os : List Given) (w : W api)
      → runargs api process progname false (all_rendered os) w ≡ run_all os w
  unfolding runargs
  runargs-rendered [] w = refl
  runargs-rendered (ignore_environment ∷ os) w = runargs-rendered os w
  runargs-rendered (interactive ∷ os) w = runargs-rendered os w
  runargs-rendered (version ∷ os) w = runargs-rendered os w
  runargs-rendered (execute text ∷ os) w =
      if_done (dostring api progname text (codes "=(command line)") w) (runargs-rendered os _)
  runargs-rendered (require name ∷ os) w =
      if_done (dolibrary api progname name w) (runargs-rendered os _)
  runargs-rendered (execute_joined c s ∷ os) w =
      if_done (dostring api progname (c ∷ s) (codes "=(command line)") w) (runargs-rendered os _)
  runargs-rendered (require_joined c s ∷ os) w =
      if_done (dolibrary api progname (c ∷ s) w) (runargs-rendered os _)

  first_args-append : (xs ys : List Text) → first_args (length xs) (xs ++ ys) ≡ xs
  first_args-append [] ys = refl
  first_args-append (x ∷ xs) ys = ap (◌∷◌ x) (first_args-append xs ys)

  -- If each argument of an option of its own does not begin with a dash, and what follows the
  -- options is nothing or a script, `collectargs` finds for the command line written out of a list
  -- of options just their flags and the place after them, and `runargs` runs their code and
  -- libraries in order, up to the first that fails.
  pub options_run :
      (os : List Given) (rest : List Text) (w : W api)
      → All IsGiven os
      → IsScript rest
      → let first = suc (length (all_rendered os)) in
        (collect_args (all_rendered os ++ rest) ≡ collected (all_flagged os no_flags) first)
        × (runargs api process progname false (first_args (first - 1) (all_rendered os ++ rest)) w
            ≡ run_all os w)
  unfolding collect_args
  options_run os rest w v r = (
    collect-all_rendered 1 no_flags os rest v r
        ∙ ap (collected (all_flagged os no_flags)) (omega arith),
    ap (λ n. runargs api process progname false (first_args n (all_rendered os ++ rest)) w)
          (pred_suc (length (all_rendered os)))
        ∙ ap (λ xs. runargs api process progname false xs w)
            (first_args-append (all_rendered os) rest)
        ∙ runargs-rendered os w,
  )
