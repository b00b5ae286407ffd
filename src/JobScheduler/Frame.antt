-- ===== src/JobScheduler/Frame.antt =====
-- What the scheduler never changes: its directories, and which directories there are.
use opcuatesttool.Prelude.{
  nat_eq, int_eq, ◌≡◌, refl, some, List, [], ◌∷◌, ◌++◌, ℤ, length, leb, Option-cases, Bool-cases,
  inl, inr, some_elim, ap, ◌∙◌,
}
use opcuatesttool.Prelude.Dict.{lookup}
use opcuatesttool.Std.Text.{Text, codes}
use opcuatesttool.Std.Decimal.{to_string}
use opcuatesttool.Std.Files.Laws.{dirs-write}
use opcuatesttool.DataBase.Defs.{new_job}
use opcuatesttool.JobScheduler.Defs.{
  Host, Fork, fork_failed, forked, max_concurrent_jobs, open_log, launch, schedule_front, schedule,
  enqueue, create, retire, job_finished,
}

abbrev pub frame : Host → Text × Text × Text × List Text
frame h = (h.working_dir, h.db.jobs_requests_dir, h.db.script_dir, h.files.dirs)

frame-launch :
    (fork : Fork) (job_id : ℤ) (h h' : Host) → launch fork job_id h ≡ some h' → frame h' ≡ frame h
unfolding launch open_log
frame-launch fork_failed job_id h h' e = cc
frame-launch (forked pid) job_id h h' e =
    some_elim (λ g. frame g ≡ frame h) e
      (ap (λ dirs. (h.working_dir, h.db.jobs_requests_dir, h.db.script_dir, dirs))
        (dirs-write h.files (h.working_dir ++ codes "/logs/" ++ to_string job_id ++ codes ".log")
          []))

frame-schedule_front :
    (fork : Fork) (queue : List ℤ) (h h' : Host)
    → schedule_front fork queue h ≡ some h'
    → frame h' ≡ frame h
unfolding schedule_front
frame-schedule_front fork [] h h' e = some_elim (λ g. frame g ≡ frame h) e refl
frame-schedule_front fork (job_id ∷ rest) h h' e =
    elim (Bool-cases (leb max_concurrent_jobs (length h.active_jobs))) [
      | inl full ↦ some_elim (λ g. frame g ≡ frame h) (rw full at e) refl
      | inr room ↦
          frame-launch fork job_id
            (record h { scheduler = record (h.scheduler) { wait_queue = rest } }) h' (rw room at e)
    ]

frame-enqueue : (request : Text) (h : Host) → frame (enqueue request h).1 ≡ frame h
unfolding enqueue new_job
frame-enqueue request h =
    ap (λ dirs. (h.working_dir, h.db.jobs_requests_dir, h.db.script_dir, dirs))
      (dirs-write h.files _ request)

pub frame-create :
    (fork : Fork) (request : Text) (h h' : Host) (id : ℤ)
    → create fork request h ≡ some (id, h')
    → frame h' ≡ frame h
unfolding create schedule
frame-create fork request h h' id e = elim (Option-cases (schedule fork (enqueue request h).1)) [
  | inl stopped ↦ cc (stopped, e)
  | inr (h'', s) ↦
      some_elim (λ r. frame r.1 ≡ frame h) (rw (s, create) at e)
        (frame-schedule_front fork _ (enqueue request h).1 h'' s ∙ frame-enqueue request h)
]

frame-retire : (pid : ℤ) (h : Host) → frame (retire pid h) ≡ frame h
unfolding retire
frame-retire pid h = elim (Option-cases (lookup pid h.active_jobs)) [
  | inl missing ↦ rw (missing, retire) refl
  | inr (job_id, found) ↦ rw (found, retire) refl
]

pub frame-job_finished :
    (fork : Fork) (pid : ℤ) (h h' : Host) → job_finished fork pid h ≡ some h' → frame h' ≡ frame h
unfolding job_finished schedule
frame-job_finished fork pid h h' e =
    frame-schedule_front fork _ (retire pid h) h' e ∙ frame-retire pid h
