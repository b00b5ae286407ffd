-- ===== src/JobScheduler/Restart.antt =====
-- The scheduler after a restart of the service over the requests of earlier runs.
use opcuatesttool.Prelude.{◌≡◌, refl, true, some, List, [], ◌++◌, length, ◌<◌, int_half}
use opcuatesttool.Std.Text.{Text, codes}
use opcuatesttool.Std.Files.{FileSystem, exists}
use opcuatesttool.DataBase.Defs.{Shell, members, clone_script_repo}
use opcuatesttool.DataBase.Requests.{Holds}
use opcuatesttool.DataBase.Startup.{Spares, restarted, construct-Holds, restarted-Represents}
use opcuatesttool.JobScheduler.Defs.{Host, open_scheduler}
use opcuatesttool.JobScheduler.Progress.{IsIdle}
use opcuatesttool.JobScheduler.Storage.{Stores}

-- If the directory of the jobs is there, its request directory holds the requests 0, 1, … with no
-- gap, fewer than 2^31 of them, and the script that clones the repository leaves the request
-- directory alone, then the constructor of the scheduler ends: no job is active, queued or
-- started, and the scheduler keeps those requests, so that the next job gets the number after the
-- last.
pub open_scheduler-Stores :
    (shell : Shell) (root repo : Text) (fs : FileSystem) (requests : List Text)
    → Spares shell (root ++ codes "/jobs/requests")
    → exists fs (root ++ codes "/jobs") ≡ true
    → Holds (root ++ codes "/jobs/requests") fs requests
    → length requests < int_half
    → (h : Host) × (open_scheduler shell root repo fs ≡ some h) × IsIdle h × Stores h requests
unfolding open_scheduler restarted members
open_scheduler-Stores shell root repo fs requests spares old v fits = (
  h,
  rw (construct-Holds shell root repo fs requests old v fits, open_scheduler),
  record { no_jobs = refl; no_queue = refl; no_processes = refl },
  (refl, restarted-Represents shell root repo fs requests spares v),
)
  where
    h : Host
    h = record {
      scheduler = record {
        working_dir = root;
        active_jobs = [];
        wait_queue = [];
        db = restarted root repo requests;
        job_finished_callback = true;
      };
      files = clone_script_repo shell (restarted root repo requests) fs;
      started = [];
      events = [];
    }
