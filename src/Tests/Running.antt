-- ===== src/Tests/Running.antt =====
-- The runner as the child for job 3.
use opcuatesttool.Prelude.{
  ℕ, nat_eq, int_eq, text_eq, ◌≡◌, refl, some, List, [], ◌∷◌, ◌++◌, ◌==◌, if◌then◌else◌, pos, ok,
  inl, inr,
}
use opcuatesttool.Prelude.Dict.{lookup}
use opcuatesttool.Std.Text.{Text, codes}
use opcuatesttool.Std.Decimal.{to_string}
use opcuatesttool.Std.Files.{FileSystem, read, can_write}
use opcuatesttool.DataBase.Defs.{get_finished_job}
use opcuatesttool.JobScheduler.Defs.{JobScheduler, runner}
use opcuatesttool.Std.Lua.{Call, returns, throws_std_exception, throws_other}
use opcuatesttool.TestRunner.Runtime.{load, after_connect, after_file}
use opcuatesttool.TestRunner.Job.{Run, Job}
use opcuatesttool.TestRunner.Main.{RunnerJson, exit_code, status_code, main}
use opcuatesttool.TestRunner.Results.{result_text, child_finished, child_aborted}
use opcuatesttool.Tests.Loading.{lua_with}
use opcuatesttool.Tests.Data.{dirs, data_base, idle}

-- The script "bad.lua" fails, and "odd.lua" throws what nothing handles.
abbrev script_result : Text → Call
script_result path =
    if path == codes "w/repo/scripts/bad.lua"
    then throws_std_exception
    else if path == codes "w/repo/scripts/odd.lua"
    then throws_other
    else returns

abbrev run : Run
run = record {
  Duration = ℕ;
  zero_ms = 0;
  lua = lua_with script_result;
  connect = λ server. returns;
  start_time = pos 100;
  stop_time = pos 107;
  elapsed_ms = 7;
}

-- JSON as its text; the text of a request is the name of its script.
abbrev json : RunnerJson ℕ
json = record {
  Value = Text;
  parse = λ t. some t;
  dump = λ v. v;
  member = λ k v. if k == codes "script" then ok v else ok k;
  of_text = λ t. t;
  of_int = to_string;
  of_double = λ d. to_string (pos d);
  of_object = members;
}
  where
    members : List (Text × Text) → Text
    members [] = []
    members ((k, v) ∷ ms) = k ++ codes ":" ++ v ++ codes ";" ++ members ms

abbrev request : Text → FileSystem
request script = record { files = (codes "w/jobs/requests/3", script) ∷ []; dirs = dirs }

abbrev scheduler : JobScheduler
scheduler = idle.scheduler

child_finished_example :
    (fs' : FileSystem) × (main run json (runner scheduler (pos 3)).argv (request (codes "read.lua"))
      ≡ exit_code 0 fs')
    × (get_finished_job data_base (pos 3) fs'
        ≡ codes
            "result:id:3;ts_start:100;ts_stop:107;totalRuntime_ms:7;statusCode:Ok;;request:read.lua;")
unfolding read lookup to_string can_write load after_connect after_file
child_finished_example =
    child_finished run json scheduler (pos 3) (request (codes "read.lua")) (codes "read.lua")
      (codes "read.lua") (codes "name") (codes "serverUri") (codes "read.lua") refl refl refl refl
      refl refl refl refl refl

child_aborted_example :
    (fs' : FileSystem) × (job : Job run) × (main run json
        (runner scheduler (pos 3)).argv
        (request (codes "bad.lua"))
      ≡ exit_code 0 fs')
    × (get_finished_job data_base (pos 3) fs' ≡ result_text run json (pos 3) (codes "bad.lua") job)
    × (status_code job.status ≡ codes "Error")
unfolding read lookup to_string can_write load after_connect after_file
child_aborted_example =
    child_aborted run json scheduler (pos 3) (request (codes "bad.lua")) (codes "bad.lua")
      (codes "bad.lua") (codes "name") (codes "serverUri") (codes "bad.lua") refl refl refl refl
      refl refl refl (inl (refl, inr refl))
