-- ===== src/Repl/Listener.antt =====
-- The threads that read the pipe: `pipeListener` of testService/Repl.h, and that of repl/server.cpp.
use opcuatesttool.Prelude.{List, [], ◌∷◌, ◌++◌}
use opcuatesttool.Std.Text.{Text, codes}

-- What one `read` returns: the end of the pipe (0), some bytes, or an error (-1).
pub data Read : Type 0 where
  closed : Read
  bytes : Text → Read
  failed : Read

-- Where the thread is after some reads.
pub data Ending : Type 0 where
  reading : Ending
  stopped : Ending
  -- An exception leaves the thread, which ends the process.
  terminated : Ending

-- The standard output, and what the callback changes.
pub record Listener (W : Type 0) : Type 0 where
  pub stdout : Text
  pub world : W

module _ {W : Type 0} (callback : Text → Text → W → W) where
  -- The loop of testService/Repl.h. After an error the size of the string is the greatest `size_t`, and
  -- its constructor throws `std::length_error`; the kernel refuses to write as many bytes.
  unfoldable pub listen : List Read → Listener W → Ending × Listener W
  listen [] l = (reading, l)
  listen (closed ∷ reads) l = (stopped, l)
  listen (failed ∷ reads) l = (terminated, l)
  listen (bytes buf ∷ reads) l = listen reads (record {
    stdout = l.stdout ++ buf;
    world = callback (codes "ReplResponseEvent") buf l.world;
  })

-- The standard output of repl/server.cpp: what goes through the stream, and what is written directly.
pub record Printed : Type 0 where
  pub stream : Text
  pub direct : Text

-- The loop of repl/server.cpp. An error is no reason to stop.
unfoldable pub print_reads : List Read → Printed → Ending × Printed
print_reads [] p = (reading, p)
print_reads (closed ∷ reads) p =
    (stopped, record p { stream = p.stream ++ codes "child closed pipe\n" })
print_reads (failed ∷ reads) p =
    print_reads reads (record p { stream = p.stream ++ codes "print\n" })
print_reads (bytes buf ∷ reads) p =
    print_reads reads (record { stream = p.stream ++ codes "print\n"; direct = p.direct ++ buf })
