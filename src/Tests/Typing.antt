-- ===== src/Tests/Typing.antt =====
-- Two lines that are posted to the service and run by its interpreter, and a command line of it.
use opcuatesttool.Prelude.{
  ℕ, nat_eq, int_eq, text_eq, ◌≡◌, refl, true, false, none, some, List, [], ◌∷◌, ◌++◌, ◌==◌,
  if◌then◌else◌, arith, pos,
}
use opcuatesttool.Std.Text.{Text, codes}
use opcuatesttool.Std.Lua.{returns, Lua}
use opcuatesttool.JobScheduler.Defs.{forked}
use opcuatesttool.TestService.Defs.{Environment}
use opcuatesttool.Api.Handlers.{HttpRequest}
use opcuatesttool.Repl.Extension.{Global}
use opcuatesttool.Repl.Process.{Files, Started, close, child_files, piped_files}
use opcuatesttool.Console.Api.{Loaded, chunk, syntax_error, returned, LuaApi}
use opcuatesttool.Console.Chunks.{docall, dochunk, dostring, dolibrary}
use opcuatesttool.Console.Args.{shape_of, collected, collect_args}
use opcuatesttool.Console.Options.{Process, runargs}
use opcuatesttool.Console.Input.{W}
use opcuatesttool.Console.Loop.{do_repl}
use opcuatesttool.Console.CommandLine.{interactive, execute, require_joined, options_run}
use opcuatesttool.Console.Termination.{Consumes, do_repl-ends}
use opcuatesttool.Tests.Data.{shell}

-- Globals are not kept.
abbrev lua : Lua Global
lua = record {
  State = ℕ;
  Value = ℕ;
  of_global = λ g. 0;
  fresh = 0;
  open_libraries = λ libraries s. s;
  do_file = λ path s. (returns, s);
  script_file = λ path s. returns;
  set = λ name g s. s;
  get = λ name s. none;
}

-- Whatever begins with an r is a chunk, whose value is its text.
load_source : Text → Loaded Text
load_source [] = syntax_error (codes "near <eof>")
load_source (c ∷ s) = if c == b'r' then chunk (c ∷ s) else syntax_error (codes "wrong")

abbrev api : LuaApi
api = record {
  lua = lua;
  Value = Text;
  Chunk = Text;
  load = λ source name. load_source source;
  load_file = λ name w. (syntax_error (codes "no file"), w);
  call = λ f args w. (returned (f ∷ []), w);
  require = λ name w. (returned (name ∷ []), w);
  print = λ vs w. (none, w);
  traceback = λ text s. text;
  first_or_nil = λ vs. [];
  set_value = λ name v s. s;
  set_arg = λ entries s. s;
  arg_values = λ s. some [];
  global_text = λ name s. none;
  null_text = codes "(null)";
  open_libs = λ no_env s. s;
}

abbrev process : Process
process = record {
  stdin_is_tty = true;
  stdin_counts_as_tty = true;
  getenv = λ name. none;
  version_suffix = codes "_5_3";
  copyright = codes "Lua 5.3";
  not_a_tty = codes "not a tty";
}

abbrev waiting : Text → W api
waiting input = record { lua = 0; input = input; output = []; errors = [] }

api-Consumes : Consumes api
api-Consumes = record { call_le = λ f args w. omega arith; print_le = λ vs w. omega arith }

do_repl-ends_example : (w : W api) × (do_repl api (waiting (codes "1\n(\n")) ≡ some w)
do_repl-ends_example = do_repl-ends api api-Consumes (waiting (codes "1\n(\n"))

abbrev post : Text → HttpRequest
post body = record { param = λ name. none; match_1 = []; body = body }

abbrev posts : List HttpRequest
posts = post (codes "1") ∷ post (codes "x") ∷ []

abbrev terminal : Environment
terminal = record {
  shell = shell;
  inject = λ pending c. some (pending ++ c ∷ []);
  fork = forked (pos 7);
}

abbrev open_files : Files
open_files n = none

abbrev started : Started
started = record {
  child = record {
    pid = pos 9;
    path = codes "w/repl";
    argv = codes "./repl" ∷ [];
    files = child_files 3 4 (piped_files 3 4 open_files);
    sent = codes "test";
  };
  files = close 4 (piped_files 3 4 open_files);
}

-- `lua -i -e return -lnet job.lua 3`.
options_run_example :
    (collect_args (
        codes "-i" ∷ codes "-e" ∷ codes "return" ∷ codes "-lnet" ∷ codes "job.lua" ∷ codes "3" ∷ [])
      ≡ collected (record { has_i = true; has_v = true; has_e = true; has_E = false }) 5)
    × (runargs api process none false
          (codes "-i" ∷ codes "-e" ∷ codes "return" ∷ codes "-lnet" ∷ [])
          (waiting [])
        ≡ (true, waiting []))
unfolding dostring dolibrary dochunk docall load_source shape_of
options_run_example =
    options_run api process none
      (interactive ∷ execute (codes "return") ∷ require_joined b'n' (codes "et") ∷ [])
      (codes "job.lua" ∷ codes "3" ∷ []) (waiting []) (tt, (refl, (tt, tt))) refl
