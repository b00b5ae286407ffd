-- ===== src/Tests/Interpreter.antt =====
-- The interpreter's process, its pipe, and its server.
use opcuatesttool.Prelude.{
  nat_eq, ◌≡◌, true, none, some, List, [], ◌∷◌, if◌then◌else◌, pos, arith, ltb,
}
use opcuatesttool.Std.Text.{Text, codes}
use opcuatesttool.JobScheduler.Defs.{forked}
use opcuatesttool.Events.Dispatcher.{Dispatcher, init, send_all}
use opcuatesttool.Events.Framing.{event_message, event_callback, replace_newlines}
use opcuatesttool.Events.Wakeups.{follow}
use opcuatesttool.TestService.Repl.{Inject}
use opcuatesttool.Repl.Process.{
  pipe_read, elsewhere, Files, piped, Started, start_repl, start_repl_pipe,
}
use opcuatesttool.Repl.Listener.{bytes, closed, failed, stopped, terminated, Listener, listen}
use opcuatesttool.Repl.Relay.{messages, listen_delivers, listen_fails}

-- The terminal and a log file.
abbrev open_files : Files
open_files n = if ltb n 4 then some elsewhere else none

-- One more log file, so that the pipe gets 5 and 6: the child closes its only way to the pipe.
start_repl_pipe_example :
    (started : Started) × (start_repl (codes "w") (piped 5 6) (forked (pos 9)) open_files
      ≡ some started)
    × (started.child.files 1 ≡ some elsewhere)
    × (started.files 5 ≡ some pipe_read)
    × (started.files 6 ≡ none)
start_repl_pipe_example =
    start_repl_pipe 5 6 open_files (omega arith) (omega arith) (omega arith) (codes "w") (pos 9)
      (omega arith)

abbrev quiet : Listener Dispatcher
quiet = record { stdout = []; world = init }

abbrev chunks : List Text
chunks = codes "> " ∷ codes "1\n2\n" ∷ []

listen_delivers_example :
    (listen event_callback (bytes (codes "> ") ∷ bytes (codes "1\n2\n") ∷ closed ∷ []) quiet
      ≡ (stopped, record { stdout = codes "> 1\n2\n"; world = send_all (messages chunks) init }))
    × (follow (messages chunks) init (record { is_writable = true; written = [] })
        ≡ some (
          send_all (messages chunks) init,
          record {
            is_writable = true;
            written =
                codes "data: {\"event\": \"ReplResponseEvent\", \"data\": \"> \"}\n\n"
                ∷ codes "data: {\"event\": \"ReplResponseEvent\", \"data\": \"1\\n2\\n\"}\n\n"
                ∷ [];
          },
        ))
unfolding event_message replace_newlines
listen_delivers_example = listen_delivers chunks quiet []

listen_fails_example : listen event_callback (bytes (codes "> ") ∷ failed ∷ closed ∷ []) quiet ≡ (
  terminated,
  record { stdout = codes "> "; world = send_all (messages (codes "> " ∷ [])) init },
)
listen_fails_example = listen_fails (codes "> " ∷ []) (closed ∷ []) quiet

abbrev inject : Inject
inject terminal c = some (c ∷ terminal)
