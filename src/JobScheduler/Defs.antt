-- ===== src/JobScheduler/Defs.antt =====
-- testService/JobScheduler.h and testService/JobScheduler.cpp: jobs wait in a queue, and at most
-- four run at a time, each in a process of its own. A method that takes the lock is one step. What
-- is logged is left out, as is the vector `finishedPids`, which no code uses.
use opcuatesttool.Prelude.{
  ℕ, nat_eq, int_eq, Bool, true, Option, none, some, List, [], ◌∷◌, ◌++◌, leb, if◌then◌else◌, ℤ,
  length,
}
use opcuatesttool.Prelude.Dict.{Dict, lookup, insert, erase}
use opcuatesttool.Std.Text.{Text, codes}
use opcuatesttool.Std.Decimal.{to_string}
use opcuatesttool.Std.Files.{FileSystem, can_write, write}
use opcuatesttool.DataBase.Defs
use opcuatesttool.DataBase.Defs.{DataBase, Shell}

pub record JobScheduler : Type 0 where
  pub working_dir : Text
  pub active_jobs : Dict ℤ ℤ  -- job number by process
  pub wait_queue : List ℤ  -- front first
  pub db : DataBase
  pub job_finished_callback : Bool  -- `m_fJobFinished` is set

abbrev pub max_concurrent_jobs : ℕ
max_concurrent_jobs = 4

-- What the child of `fork` hands to `execv`, and the file that is its standard output then.
pub record Image : Type 0 where
  pub path : Text
  pub argv : List Text
  pub output : Text

-- A process for a job. Without an image it ends before `execv`.
pub record Process : Type 0 where
  pub pid : ℤ
  pub job_id : ℤ
  pub image : Option Image

-- The scheduler with what it acts on: the files, the processes that it started, oldest first, and
-- the calls of the event callback, oldest first.
pub record Host : Type 0 where
  pub scheduler : JobScheduler
  pub open scheduler use *
  pub files : FileSystem
  pub started : List Process
  pub events : List (Text × Text)

-- The constructor, and `setJobFinishedCallback` as the service calls it. `none` is a lack of fuel.
unfoldable pub open_scheduler : Shell → Text → Text → FileSystem → Option Host
open_scheduler shell working_dir repo fs = elim (Defs.construct shell working_dir repo fs) [
  | none ↦ none
  | some (db, fs') ↦ some (record {
    scheduler = record {
      working_dir = working_dir;
      active_jobs = [];
      wait_queue = [];
      db = db;
      job_finished_callback = true;
    };
    files = fs';
    started = [];
    events = [];
  })
]

-- What `fork` returns to the parent.
pub data Fork : Type 0 where
  fork_failed : Fork
  forked : ℤ → Fork

abbrev pub log_path : JobScheduler → ℤ → Text
log_path s job_id = s.working_dir ++ codes "/logs/" ++ to_string job_id ++ codes ".log"

-- The test runner, which writes to the log file.
unfoldable pub runner : JobScheduler → ℤ → Image
runner s job_id = record {
  path = s.working_dir ++ codes "/testRunner";
  argv =
      codes "./testRunner"
      ∷ s.working_dir
      ∷ s.db.jobs_finished_dir
      ∷ s.db.jobs_requests_dir
      ∷ to_string job_id
      ∷ s.db.script_dir
      ∷ [];
  output = log_path s job_id;
}

-- The branch of the child. It opens the log file and replaces itself by the test runner. If the
-- file cannot be opened, `fileno` and `fclose` get the null pointer, and the child crashes. That
-- it closes the descriptors of its parent is left out.
unfoldable pub child : JobScheduler → FileSystem → ℤ → ℤ → Process
unfolding runner
child s fs pid job_id = record {
  pid = pid;
  job_id = job_id;
  image = if can_write fs (log_path s job_id) then some (runner s job_id) else none;
}

-- `fopen(…, "w")` of the child makes the log file empty, if it can be opened.
unfoldable pub open_log : JobScheduler → ℤ → FileSystem → FileSystem
open_log s job_id fs = write fs (log_path s job_id) []

-- The branches after `fork`; `none` is `exit(EXIT_FAILURE)`.
unfoldable pub launch : Fork → ℤ → Host → Option Host
unfolding child open_log
launch fork_failed job_id h = none
launch (forked pid) job_id h = some (record h {
  scheduler = record (h.scheduler) { active_jobs = insert pid job_id h.active_jobs };
  files = open_log h.scheduler job_id h.files;
  started = h.started ++ child h.scheduler h.files pid job_id ∷ [];
})

unfoldable pub schedule_front : Fork → List ℤ → Host → Option Host
schedule_front fork [] h = some h
schedule_front fork (job_id ∷ rest) h =
    if leb max_concurrent_jobs (length h.active_jobs)
    then some h
    else launch fork job_id (record h { scheduler = record (h.scheduler) { wait_queue = rest } })

unfoldable pub schedule : Fork → Host → Option Host
unfolding schedule_front
schedule fork h = schedule_front fork h.wait_queue h

-- The request is stored and its number is queued.
unfoldable pub enqueue : Text → Host → ℤ × Host
enqueue request h =
    let (id, db, files) = Defs.new_job h.db request h.files in
    (
      id,
      record h {
        scheduler = record (h.scheduler) { db = db; wait_queue = h.wait_queue ++ id ∷ [] };
        files = files;
      },
    )

unfoldable pub create : Fork → Text → Host → Option (ℤ × Host)
create fork request h =
    let (id, h') = enqueue request h in
    elim (schedule fork h') [ none ↦ none | some h'' ↦ some (id, h'') ]

-- The entry of the process is erased, after the callback.
abbrev pub retire_found : ℤ → ℤ → Host → Host
retire_found pid job_id h = record h {
  scheduler = record (h.scheduler) { active_jobs = erase pid h.active_jobs };
  events =
      if h.job_finished_callback
      then h.events ++ (codes "JobFinishedEvent", to_string job_id) ∷ []
      else h.events;
}

unfoldable pub retire : ℤ → Host → Host
retire pid h = elim (lookup pid h.active_jobs) [
  | none ↦ h
  | some job_id ↦ retire_found pid job_id h
]

unfoldable pub job_finished : Fork → ℤ → Host → Option Host
job_finished fork pid h = schedule fork (retire pid h)
