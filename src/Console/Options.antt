-- ===== src/Console/Options.antt =====
-- What `main` of repl/console.cpp does with its options: `runargs`, `createargtable`, `print_usage` and
-- `print_version`.
use opcuatesttool.Prelude.{
  ℕ, suc, nat_eq, int_eq, Bool, true, false, ◌||◌, Option, List, [], ◌∷◌, ◌++◌, ◌==◌, if◌then◌else◌,
  length, ℤ, sub_ℕ,
}
use opcuatesttool.Std.Text.{Text, codes}
use opcuatesttool.Console.Api.{LuaApi, write}
use opcuatesttool.Console.Chunks.{W, dostring, dolibrary, rest_of}

-- The process: its terminal, its environment, and the texts of the version of Lua.
pub record Process : Type 0 where
  pub stdin_is_tty : Bool  -- `isatty`
  pub stdin_counts_as_tty : Bool  -- `lua_stdin_is_tty`, which is 1 on systems without `isatty`
  pub getenv : Text → Option Text
  pub version_suffix : Text
  pub copyright : Text
  pub not_a_tty : Text  -- the message of `perror`

module _ (api : LuaApi) (process : Process) where
  -- An option with its argument in the same text, or else the next one.
  abbrev argument : Text → List Text → Text
  argument [] [] = []
  argument [] (next ∷ rest) = next
  argument (c ∷ s) rest = c ∷ s

  abbrev second : Text → ℕ
  second [] = 0
  second (c ∷ []) = 0
  second (c ∷ d ∷ s) = d

  abbrev after_second : Text → Text
  after_second a = rest_of api (rest_of api a)

  -- Whether the option takes the next argument.
  abbrev takes_next : Text → Bool
  takes_next (c ∷ d ∷ []) = d == b'e' || d == b'l'
  takes_next _ = false

  abbrev run_option : Option Text → Text → List Text → W api → Bool × W api
  run_option progname a rest w =
      if second a == b'e'
      then dostring api progname (argument (after_second a) rest) (codes "=(command line)") w
      else if second a == b'l'
      then dolibrary api progname (argument (after_second a) rest) w
      else (true, w)

  -- The loop over the arguments before the script; the flag says that an argument was taken.
  unfoldable pub runargs : Option Text → Bool → List Text → W api → Bool × W api
  unfolding dostring dolibrary
  runargs progname taken [] w = (true, w)
  runargs progname true (a ∷ rest) w = runargs progname false rest w
  runargs progname false (a ∷ rest) w =
      let r = run_option progname a rest w in
      let more = runargs progname (takes_next a) rest r.1 in if r.0 then more else r

  -- `createargtable`: the place of each argument is counted from the script, or from the program.
  abbrev arg_entries : ℕ → ℕ → List Text → List (ℤ × Text)
  arg_entries origin i [] = []
  arg_entries origin i (a ∷ rest) = (sub_ℕ i origin, a) ∷ arg_entries origin (suc i) rest

  unfoldable pub createargtable : List Text → ℕ → W api → W api
  createargtable argv script w =
      let origin = if script == length argv then 0 else script in
      record w { lua = api.set_arg (arg_entries origin 0 argv) w.lua }

  -- "%s" is the name of the program.
  unfoldable pub print_usage : Text → Text → W api → W api
  print_usage progname bad w =
      let quoted = codes "'" ++ bad ++ codes "'" in
      let reason =
        if second bad == b'e' || second bad == b'l'
        then quoted ++ codes " needs argument\n"
        else codes "unrecognized option " ++ quoted ++ codes "\n" in
      record w {
        errors =
            w.errors
            ++ progname
            ++ codes ": "
            ++ reason
            ++ codes "usage: "
            ++ progname
            ++ codes " [options] [script [args]]\n"
            ++ codes "Available options are:\n"
            ++ codes "  -e stat  execute string 'stat'\n"
            ++ codes "  -i       enter interactive mode after executing 'script'\n"
            ++ codes "  -l name  require library 'name' into global 'name'\n"
            ++ codes "  -v       show version information\n"
            ++ codes "  -E       ignore environment variables\n"
            ++ codes "  --       stop handling options\n"
            ++ codes "  -        stop handling options and execute stdin\n";
      }

  unfoldable pub print_version : W api → W api
  print_version w = write (process.copyright ++ codes "\n") w
