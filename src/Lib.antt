-- ===== src/Lib.antt =====
-- The OPC UA test tool: a service that takes test jobs over HTTP, stores them as files, runs
-- each in a process of its own, and answers with the results, logs and scripts.
--
-- The parts, and the files that model them:
--   testService/DataBase.h, .cpp      DataBase: `Defs` has the members and the methods, `Finished`
--                                     the pages of `getFinishedJobs`. The state is the record
--                                     `DataBase`; the files are an argument and part of the result.
--   testService/JobScheduler.h, .cpp  JobScheduler: `Defs` has `create`, `jobFinished` and
--                                     `schedule` (split at its returns and at `fork`), `Queries`
--                                     the methods that pass a call on to the data base. The state
--                                     is `Host`: the scheduler, the files, the processes that it
--                                     started and the events that it sent.
--   testService/TestService.cpp       TestService: `Defs` has the methods, `apiCallback` and
--                                     `handleSigChld`; `Signals` the thread that waits for SIGCHLD,
--                                     `Main` the constructor and the start of `main`, `History` all
--                                     sequences of requests and ended processes, `Life` the
--                                     ends of the start and those sequences after it, `Lives` any
--                                     number of starts over the same files, `Notices` what
--                                     clients are told.
--   testService/Repl.h                TestService.Repl: `newLine`; Repl: `Process` has the pipe, the
--                                     fork and the descriptors, `Listener` the thread that reads.
--   testService/Config.h, .cpp        Config: the class, its construction and `persist`.
--   repl/server.cpp                   Repl: `Server` has `apiCallback`, `Main` the start of `main`,
--                                     `Listener` the thread that reads the pipe.
--   persistence/InfluxDBImporter.cpp  Importer: `Buffer` has `curl_callback` over blocks of the heap,
--                                     `Fetch` `curl_fetch_url`, `Import` the loop of `main`,
--                                     `Progress` the jobs of one answer, `Service` an answer
--                                     of the service.
--   luaRunner/main.cpp                LuaRunner: `Script` is the fixed script, `Main` the globals and
--                                     `main`.
--   repl/console.cpp                  Console: `Args` and `Options` have the command line, `Chunks` the
--                                     running of code, `Input` and `Loop` the reading of statements
--                                     and the loop, `Main` `pmain` and `main`.
--   api/Request.h, api/Server.h       Api: the variants, the handlers of the HTTP endpoints, and in
--                                     `Routes` the expressions of their paths; `Server` puts them
--                                     behind the HTTP library.
--   api/Server.h (EventDispatcher)    Events: the dispatcher of events and the event callback.
--   testrunner                        TestRunner: `Runtime` has the bindings for Lua, `Job` the job
--                                     and its `execute`, `Main` the factory, the result file and
--                                     `main`.
--   repl/OpcUaExtension.h, .cpp       Repl: `Extension` has the globals and the functions over the
--                                     pointer to the client.
--   api/Server.h and                  Locks: what `create`, `jobFinished`, `send_event` and
--   testService/JobScheduler.cpp      `wait_event` do with the two mutexes, and the steps of the
--                                     threads that call them.
-- A handler calls `apiCallback`, which calls the service, which calls the scheduler, which calls
-- the data base; the scheduler's child is a runner, whose `main` gets the arguments of `runner`.
-- `Lifecycle` follows one job through all of them and, in `Crash`, one whose log file cannot be
-- opened; `Console.Posted` follows a line from POST /api/repl to the interpreter. `Prelude` has the
-- shared tests, integers, lists, dictionaries and results, `Std` what the code uses of the C++
-- standard library (`to_string`, `stoi`, `getline`, files) and of Lua, `Tests` concrete runs.
--
-- Numbers. An `int` is an integer whose additions wrap at 2^31; the counters of the dispatcher are
-- 32-bit patterns. `size_t` and sizes are natural numbers.
--
-- Loops. The `while` of the constructor of `DataBase` is on fuel, one round more than there are
-- paths: each round but the last finds another path. The loops of `getFinishedJobs` are on
-- fuel, one round more than the distance of the bounds of the loop, and those of the console on
-- one round more than the input has characters, since each round reads one. The other loops are
-- structural.
--
-- Parameters: Lua with its states and chunks, what `fork`, `pipe`, `read`, `realloc` and
-- `calloc` return, the shell that clones the repository, the terminal, the JSON library, the
-- parts of HTTP requests and responses that the handlers use, the parts in which libcurl hands
-- over an answer, what a post to InfluxDB returns or whether it throws, and for the runner the
-- clocks, the ends of the connection and of the scripts, and Lua's globals. Hypotheses on them
-- are those of the documents: a new process has a number that no active job has, `realloc`
-- keeps what fits, the clone leaves the requests alone, JSON refuses a comma before a bracket
-- and a bare word, reads what it has written, goes through the members of an object by name and
-- throws for `at` of a flag.
--
-- Files are a dictionary from paths to contents with a list of directories. A write to a path
-- whose directory is missing does nothing, as the code ignores it; the child of the scheduler
-- crashes then. A directory is listed in the order of the dictionary, which may be any. Links,
-- permissions, "." and ".." in paths and full disks are not modelled, nor that a directory can
-- be opened for reading.
--
-- Not modelled: what is logged, the order in which the HTTP library tries the routes, HEAD
-- requests, the timing of threads except for the two mutexes (elsewhere locked methods are
-- single steps), what the functions of the OPC UA client do and an exception of its constructor
-- in the extension, signals sent to the console, code that ends the console's process, and the
-- web application. The console is derived from the stand-alone interpreter of Lua; of its
-- macros the variants with the C library are modelled.
pub mod Prelude
pub mod Std
pub mod DataBase
pub mod JobScheduler
pub mod Events
pub mod TestService
pub mod Api
pub mod TestRunner
pub mod Repl
pub mod Console
pub mod Importer
pub mod Config
pub mod Lifecycle
pub mod Locks
pub mod LuaRunner
pub mod Tests
