-- ===== src/Repl/Main.antt =====
-- `main` of repl/server.cpp, up to the threads that serve.
use opcuatesttool.Prelude.{◌++◌, Option, none, some, Exception, ok, throw}
use opcuatesttool.Std.Text.{Text, codes}
use opcuatesttool.JobScheduler.Defs.{Fork}
use opcuatesttool.Repl.Process.{Files, Pipe, Started, start_repl}
use opcuatesttool.TestService.Main.{binary_path}

-- How the start ends: with an exception, with `exit(EXIT_FAILURE)`, or with the interpreter and a
-- server of the web application in a directory.
pub data ReplStart : Type 0 where
  uncaught : Exception → ReplStart
  exits : ReplStart
  serving : Started → Text → ReplStart

with_interpreter : Text → Option Started → ReplStart
with_interpreter dir none = exits
with_interpreter dir (some repl) = serving repl (dir ++ codes "/dist/testToolApp")

pub start_server : Pipe → Fork → Files → Text → ReplStart
unfolding with_interpreter
start_server pipe fork files argv_0 = elim (binary_path argv_0) [
  | throw x ↦ uncaught x
  | ok dir ↦ with_interpreter dir (start_repl (codes "./bin/repl") pipe fork files)
]
