-- ===== src/TestRunner/Job.antt =====
-- testrunner/Job.h, testrunner/Job.cpp, testrunner/JobFactory.cpp and `Runtime::eval` of
-- testrunner/Runtime.cpp. The OPC UA client, the Lua interpreter, the JSON library and the clocks
-- are parameters.
use opcuatesttool.Prelude.{Option, none, some, ℤ, pos}
use opcuatesttool.Std.Text.{Text}
use opcuatesttool.Std.Files.{◌/◌}
use opcuatesttool.Std.Lua.{
  Call, returns, throws_opc_exception, throws_std_exception, throws_other, Lua,
}
use opcuatesttool.TestRunner.Runtime.{Global, load}

pub data JobStatus : Type 0 where
  init pending running finished aborted : JobStatus

-- What the run of one job meets: the interpreter, how the connection with a server ends, and the
-- readings of the clocks. `Duration` is the `double` of the run time.
pub record Run : Type 1 where
  pub Duration : Type 0
  pub zero_ms : Duration
  pub lua : Lua Global
  pub connect : Text → Call
  pub start_time : ℤ
  pub stop_time : ℤ
  pub elapsed_ms : Duration

module _ (run : Run) where
  open run use {Duration, zero_ms, lua, connect, start_time, stop_time, elapsed_ms}

  pub record Job : Type 0 where
    pub name : Text
    pub server_uri : Text
    pub script_dir : Text
    pub script : Text
    pub status : JobStatus
    pub total_runtime_ms : Duration
    pub start : ℤ  -- ticks since the epoch
    pub stop : ℤ

  -- The constructor.
  unfoldable pub new_job : Text → Text → Text → Text → Job
  new_job name server_uri script_dir script = record {
    name = name;
    server_uri = server_uri;
    script_dir = script_dir;
    script = script;
    status = init;
    total_runtime_ms = zero_ms;
    start = pos 0;
    stop = pos 0;
  }

  -- `Runtime::eval` logs an exception and passes it on.
  unfoldable pub eval : Job → lua.State → Call
  eval job s = lua.script_file (job.script_dir / job.script) s

  -- The handlers of `execute`; `none` is an exception that leaves it.
  unfoldable pub after_eval : Job → Call → Option Job
  after_eval job returns =
      some (record job { stop = stop_time; total_runtime_ms = elapsed_ms; status = finished })
  after_eval job throws_opc_exception = some (record job { status = aborted })
  after_eval job throws_std_exception = some (record job { status = aborted })
  after_eval job throws_other = none

  unfoldable pub after_load : Job → Call × lua.State → Option Job
  unfolding after_eval eval
  after_load job (returns, s) =
      let started = record job { start = start_time; status = running } in
      after_eval started (eval started s)
  after_load job (throws_opc_exception, s) = some (record job { status = aborted })
  after_load job (throws_std_exception, s) = some (record job { status = aborted })
  after_load job (throws_other, s) = none

  unfoldable pub execute : Job → Option Job
  unfolding after_load
  execute job = after_load job (load lua connect job.server_uri job.script_dir)
