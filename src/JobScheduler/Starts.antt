-- ===== src/JobScheduler/Starts.antt =====
-- A job that is created while there is room is started at once, and leaves when its process ends.
use opcuatesttool.Prelude.{nat_eq, int_eq, ◌<◌, ◌≡◌, some, [], ◌∷◌, ◌++◌, ℤ, lt→leb, length}
use opcuatesttool.Prelude.Dict.{lookup, insert}
use opcuatesttool.Std.Text.{Text}
use opcuatesttool.DataBase.Defs.{new_job}
use opcuatesttool.JobScheduler.Defs.{
  JobScheduler, Host, Fork, forked, max_concurrent_jobs, child, open_log, launch, retire_found,
  schedule_front, schedule, enqueue, create, retire, job_finished,
}

-- The scheduler with the job stored, just before `fork`.
abbrev pub queued : Text → Host → JobScheduler
queued request h =
    let (id, db, files) = new_job h.db request h.files in
    record (h.scheduler) { db = db; wait_queue = [] }

-- The host with the job started as the process `pid`.
abbrev pub with_job : ℤ → Text → Host → Host
with_job pid request h =
    let (id, db, files) = new_job h.db request h.files in
    record h {
      scheduler = record (queued request h) { active_jobs = insert pid id h.active_jobs };
      files = open_log (queued request h) id files;
      started = h.started ++ child (queued request h) files pid id ∷ [];
    }

pub create-with_job :
    (pid : ℤ) (request : Text) (h : Host)
    → h.wait_queue ≡ []
    → length h.active_jobs < max_concurrent_jobs
    → create (forked pid) request h
      ≡ some ((new_job h.db request h.files).0, with_job pid request h)
unfolding create enqueue schedule schedule_front launch
create-with_job pid request h q room = rw (q, schedule_front) (rw (lt→leb _ _ room, create))

-- The process of the job `id` ends while no job waits.
pub job_finished-retire_found :
    (fork : Fork) (pid id : ℤ) (h : Host)
    → lookup pid h.active_jobs ≡ some id
    → h.wait_queue ≡ []
    → job_finished fork pid h ≡ some (retire_found pid id h)
unfolding job_finished schedule schedule_front retire
job_finished-retire_found fork pid id h l q = rw (l, retire) (rw (q, schedule_front))
