-- ===== src/Console/Main.antt =====
-- `pmain` and `main` of repl/console.cpp.
use opcuatesttool.Prelude.{
  ℕ, zero, suc, nat_eq, ◌-◌, Bool, true, false, ◌&&◌, ◌||◌, Option, none, some, List, [], ◌∷◌, ◌++◌,
  if◌then◌else◌, length, ltb,
}
use opcuatesttool.Std.Text.{Text, codes}
use opcuatesttool.Repl.Extension
use opcuatesttool.Console.Args.{Flags, Collected, collected, has_error, collect_args}
use opcuatesttool.Console.Api.{LuaApi, write, l_message}
use opcuatesttool.Console.Chunks.{W, dofile, handle_luainit, Ended, ended, raised, handle_script}
use opcuatesttool.Console.Loop.{do_repl}
use opcuatesttool.Console.Options.{Process, runargs, createargtable, print_usage, print_version}

-- The elements up to the n-th, and the one at a place; past the end, the empty text.
abbrev pub first_args : ℕ → List Text → List Text
first_args zero argv = []
first_args (suc n) [] = []
first_args (suc n) (a ∷ rest) = a ∷ first_args n rest

abbrev arg_at : ℕ → List Text → Text
arg_at n [] = []
arg_at zero (a ∷ rest) = a
arg_at (suc n) (a ∷ rest) = arg_at n rest

abbrev rest_args : List Text → List Text
rest_args [] = []
rest_args (a ∷ rest) = rest

abbrev program_name : List Text → Text
program_name [] = codes "lua"
program_name ([] ∷ rest) = codes "lua"
program_name ((c ∷ s) ∷ rest) = c ∷ s

-- `EXIT_SUCCESS` or `EXIT_FAILURE`.
pub data Exit : Type 0 where
  success failure : Exit

module _ (api : LuaApi) (process : Process) where
  abbrev pub interactive : Option (W api) → Option (Ended api × W api)
  interactive none = none
  interactive (some w) = some (ended true, w)

  module _ (argv : List Text) where
    abbrev progname : Option Text
    progname = some (program_name argv)

    -- After the options and the script: the loop, or the standard input as a file.
    unfoldable pub enter : Flags → Bool → W api → Option (Ended api × W api)
    enter args no_script w =
        let asked = interactive (do_repl api w) in
        let w' = write (codes "before stding is tty\n") w in
        let on_tty =
          interactive
            (do_repl api (print_version api process (write (codes "stdin is tty\n") w'))) in
        let from_file = dofile api progname none (write (codes "do file\n") w') in
        if args.has_i
        then asked
        else if no_script && (if args.has_e || args.has_v then false else true)
        then (if process.stdin_counts_as_tty then on_tty else some (ended true, from_file.1))
        else some (ended true, w)

    -- An error of `pushargs` leaves `pmain`; any other ends it without a result.
    abbrev after_script : Flags → Bool → Ended api × W api → Option (Ended api × W api)
    after_script args no_script (raised text, w) = some (raised text, w)
    after_script args no_script (ended false, w) = some (ended false, w)
    after_script args no_script (ended true, w) = enter args no_script w

    abbrev run_script : Flags → ℕ → W api → Option (Ended api × W api)
    run_script args script w =
        let run =
          after_script args false
            (handle_script api progname (arg_at (script - 1) argv) (arg_at script argv) w) in
        let skipped = enter args true w in if ltb script (length argv) then run else skipped

    abbrev after_options : Flags → ℕ → Bool × W api → Option (Ended api × W api)
    after_options args script (false, w) = some (ended false, w)
    after_options args script (true, w) = run_script args script w

    -- The options before the script; the first is `argv[1]`.
    abbrev after_init : Flags → ℕ → Bool × W api → Option (Ended api × W api)
    after_init args script (false, w) = some (ended false, w)
    after_init args script (true, w) =
        after_options args script
          (runargs api process progname false (first_args (script - 1) (rest_args argv)) w)

    abbrev init : Flags → W api → Bool × W api
    init args w =
        if args.has_E
        then (true, w)
        else handle_luainit api progname process.version_suffix process.getenv w

    abbrev versioned : Flags → W api → W api
    versioned args w = if args.has_v then print_version api process w else w

    abbrev prepared : Flags → ℕ → W api → W api
    prepared args script w =
        let w' = versioned args w in
        createargtable api process argv script (record w' { lua = api.open_libs args.has_E w'.lua })

    abbrev run_collected : Collected → W api → Option (Ended api × W api)
    run_collected (has_error i) w =
        some (ended false, print_usage api process (program_name argv) (arg_at i argv) w)
    run_collected (collected args script) w =
        let w' = prepared args script w in after_init args script (init args w')

    -- `none` would be a lack of fuel in the loop.
    unfoldable pub pmain : W api → Option (Ended api × W api)
    unfolding enter
    pmain w = run_collected (collect_args (rest_args argv)) w

    abbrev pub closed : Option (Ended api × W api) → Option (Exit × W api)
    closed none = none
    closed (some (ended true, w)) = some (success, w)
    closed (some (ended false, w)) = some (failure, w)
    closed (some (raised text, w)) = some (failure, l_message progname text w)

    abbrev tty_line : W api → W api
    tty_line w =
        if process.stdin_is_tty
        then write (codes "stdin refers to a tty\n") w
        else record (write (codes "stdin doesn't refer to a tty\n") w) {
          errors = w.errors ++ process.not_a_tty;
        }

    -- `main`, where `luaL_newstate` succeeds with the state of `w`.
    unfoldable pub main : W api → Option (Exit × W api)
    unfolding pmain
    main w =
        let w' = tty_line w in closed (pmain (record w' { lua = Extension.add api.lua w'.lua }))

    -- `main`, where `luaL_newstate` fails.
    unfoldable pub main_without_state : W api → Exit × W api
    main_without_state w = (
      failure,
      l_message (some (arg_at 0 argv)) (codes "cannot create state: not enough memory")
          (tty_line w),
    )
