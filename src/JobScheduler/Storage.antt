-- ===== src/JobScheduler/Storage.antt =====
-- The scheduler over its data base: what `create` stores, and the numbers that it gives out.
use opcuatesttool.Prelude.{
  ℕ, zero, suc, nat_eq, int_eq, text_eq, ◌+◌, ◌<◌, ◌≡◌, ◌≢◌, refl, some, List, [], ◌∷◌, ◌++◌,
  append_assoc, leb, Bool-cases, Option-cases, inl, inr, ℤ, pos, length, length-append, arith, ◌∙◌,
  sym, ap, subst, append-nil, some_elim, int_half,
}
use opcuatesttool.Prelude.Dict.{lookup}
use opcuatesttool.Std.Text.{Text, codes, append_cancel}
use opcuatesttool.Std.Decimal.{to_string}
use opcuatesttool.Std.Files.{FileSystem, ◌/◌}
use opcuatesttool.DataBase.Defs.{new_job}
use opcuatesttool.DataBase.Requests.{Holds, Represents, Holds-write_other, new_job-Represents}
use opcuatesttool.JobScheduler.Defs.{
  JobScheduler, Host, Fork, fork_failed, forked, max_concurrent_jobs, open_log, launch,
  schedule_front, schedule, enqueue, create, retire, job_finished,
}
use opcuatesttool.JobScheduler.Progress.{Reach, here, created, finished}

-- The directories as the constructor of `DataBase` names them.
abbrev pub IsPlaced : Host → Type 0
IsPlaced h = h.db.jobs_requests_dir ≡ h.working_dir ++ codes "/jobs/requests"

-- No log file lies in the request directory.
log_ne :
    (dir a b name : Text) → dir ++ codes "/logs/" ++ a ++ b ≢ (dir ++ codes "/jobs/requests") / name
log_ne dir a b name e = different (
    append_cancel dir (codes "/logs/" ++ a ++ b) (codes "/jobs/requests" / name)
      (simp append_assoc at e))
  where
    different : codes "/logs/" ++ a ++ b ≢ codes "/jobs/requests" / name
    different p = ground arith

-- Writing a log file leaves the requests alone.
Holds-open_log :
    (s : JobScheduler) (job_id : ℤ) (dir : Text) (fs : FileSystem) (requests : List Text)
    → dir ≡ s.working_dir ++ codes "/jobs/requests"
    → Holds dir fs requests
    → Holds dir (open_log s job_id fs) requests
unfolding open_log
Holds-open_log s job_id dir fs requests p v =
    Holds-write_other dir fs requests _ []
      (λ name e.
        log_ne s.working_dir (to_string job_id) (codes ".log") name (e ∙ ap (λ d. d / name) p))
      v

-- What the scheduler and the data base keep of the requests.
abbrev pub Stores : Host → List Text → Type 0
Stores h requests = IsPlaced h × Represents h.db h.files requests

launch-Stores :
    (fork : Fork) (job_id : ℤ) (h h' : Host) (requests : List Text)
    → Stores h requests
    → launch fork job_id h ≡ some h'
    → Stores h' requests
unfolding launch
launch-Stores fork_failed job_id h h' requests v e = cc
launch-Stores (forked pid) job_id h h' requests v e =
    some_elim (λ g. Stores g requests) e
      (
        v.0,
        record {
          next_id = v.1.next_id;
          holds =
              Holds-open_log h.scheduler job_id h.db.jobs_requests_dir h.files requests v.0
                v.1.holds;
        },
      )

schedule_front-Stores :
    (fork : Fork) (queue : List ℤ) (h h' : Host) (requests : List Text)
    → Stores h requests
    → schedule_front fork queue h ≡ some h'
    → Stores h' requests
unfolding schedule_front
schedule_front-Stores fork [] h h' requests v e = some_elim (λ g. Stores g requests) e v
schedule_front-Stores fork (job_id ∷ rest) h h' requests v e =
    elim (Bool-cases (leb max_concurrent_jobs (length h.active_jobs))) [
      | inl full ↦ some_elim (λ g. Stores g requests) (rw full at e) v
      | inr room ↦
          launch-Stores fork job_id
            (record h { scheduler = record (h.scheduler) { wait_queue = rest } }) h' requests
            (v.0, record { next_id = v.1.next_id; holds = v.1.holds }) (rw room at e)
    ]

enqueue-Stores :
    (request : Text) (h : Host) (requests : List Text)
    → Stores h requests
    → suc (length requests) < int_half
    → ((enqueue request h).0 ≡ pos (length requests))
      × Stores (enqueue request h).1 (requests ++ request ∷ [])
unfolding enqueue new_job
enqueue-Stores request h requests v fits =
    let (number, stored) = new_job-Represents h.db h.files requests request v.1 fits in
    (number, (v.0, stored))

-- If the request directory holds the list `requests` under the numbers 0, 1, … and the next number
-- still fits in an `int`, a `create` that returns has returned the length of the list, and the
-- directory holds the list with the new request at its end. Neither the log file of a started job
-- nor the queue disturbs it.
pub create-Stores :
    (fork : Fork) (request : Text) (h h' : Host) (id : ℤ) (requests : List Text)
    → Stores h requests
    → suc (length requests) < int_half
    → create fork request h ≡ some (id, h')
    → (id ≡ pos (length requests)) × Stores h' (requests ++ request ∷ [])
unfolding create schedule
create-Stores fork request h h' id requests v fits e =
    let (number, stored) = enqueue-Stores request h requests v fits in
    elim (Option-cases (schedule fork (enqueue request h).1)) [
      | inl stopped ↦ cc (stopped, e)
      | inr (h'', s) ↦
          some_elim (λ r. (r.0 ≡ pos (length requests)) × Stores r.1 (requests ++ request ∷ []))
            (rw (s, create) at e)
            (
              number,
              schedule_front-Stores fork _ (enqueue request h).1 h'' (requests ++ request ∷ [])
                  stored s,
            )
    ]

retire-Stores :
    (pid : ℤ) (h : Host) (requests : List Text) → Stores h requests → Stores (retire pid h) requests
unfolding retire
retire-Stores pid h requests v = elim (Option-cases (lookup pid h.active_jobs)) [
  | inl missing ↦ rw (missing, retire) v
  | inr (job_id, found) ↦ rw (found, retire) v
]

-- The numbers `n`, `n + 1`, …, `k` of them.
abbrev pub numbers : ℕ → ℕ → List ℤ
numbers n zero = []
numbers n (suc k) = pos n ∷ numbers (suc n) k

pub numbers_last : (n k : ℕ) → numbers n (suc k) ≡ numbers n k ++ pos (n + k) ∷ []
numbers_last n zero = ap (λ m. pos m ∷ []) (omega arith)
numbers_last n (suc k) =
    ap (◌∷◌ (pos n))
      (numbers_last (suc n) k ∙ ap (λ m. numbers (suc n) k ++ pos m ∷ []) (omega arith))

-- `ids` were given out since the data base held `requests`.
pub record Numbered (requests : List Text) (ids : List ℤ) (h : Host) : Type 0 where
  -- They are the numbers that follow, with no gap and no repetition.
  pub consecutive : ids ≡ numbers (length requests) (length ids)
  -- The request directory holds one more request for each.
  pub added : List Text
  pub as_many : length added ≡ length ids
  pub stored : Stores h (requests ++ added)

Numbered-create :
    (fork : Fork) (request : Text) (h h' : Host) (id : ℤ) (requests : List Text) (ids : List ℤ)
    → Numbered requests ids h
    → length requests + length (ids ++ id ∷ []) < int_half
    → create fork request h ≡ some (id, h')
    → Numbered requests (ids ++ id ∷ []) h'
Numbered-create fork request h h' id requests ids v fits e = record {
  consecutive =
      ap (λ js. js ++ id ∷ []) v.consecutive
      ∙ ap (λ i. numbers (length requests) (length ids) ++ i ∷ [])
          (step.0 ∙ ap pos (omega (arith, length-append requests v.added, v.as_many)))
      ∙ sym (numbers_last (length requests) (length ids))
      ∙ ap (numbers (length requests)) {x = suc (length ids)}
          (omega (arith, length-append ids (id ∷ [])));
  added = v.added ++ request ∷ [];
  as_many =
      omega (arith, v.as_many, length-append v.added (request ∷ []), length-append ids (id ∷ []));
  stored = subst (Stores h') (append_assoc requests v.added (request ∷ [])) step.1;
}
  where
    step :
        (id ≡ pos (length (requests ++ v.added)))
        × Stores h' ((requests ++ v.added) ++ request ∷ [])
    step =
        create-Stores fork request h h' id (requests ++ v.added) v.stored
          (omega (arith, length-append requests v.added, v.as_many, length-append ids (id ∷ []))) e

pub Stores-job_finished :
    (fork : Fork) (pid : ℤ) (h h' : Host) (requests : List Text)
    → Stores h requests
    → job_finished fork pid h ≡ some h'
    → Stores h' requests
unfolding job_finished schedule
Stores-job_finished fork pid h h' requests v e =
    schedule_front-Stores fork _ (retire pid h) h' requests (retire-Stores pid h requests v) e

-- After any history of calls that starts over a directory that holds `requests`, while the numbers
-- fit in an `int`, the created jobs have the numbers that follow those of `requests`, with no gap
-- and no repetition, and the directory holds `requests` followed by one request for each created
-- job.
pub Reach-Numbered :
    {start h : Host} {ids : List ℤ} (requests : List Text)
    → Stores start requests
    → Reach start ids h
    → length requests + length ids < int_half
    → Numbered requests ids h
Reach-Numbered {start} requests v here fits = record {
  consecutive = refl;
  added = [];
  as_many = refl;
  stored = subst (Stores start) (sym (append-nil requests)) v;
}
Reach-Numbered requests v (created {ids = ids} {id = id} fork request r f e) fits =
    Numbered-create fork request _ _ id requests ids
      (Reach-Numbered requests v r (omega (arith, length-append ids (id ∷ [])))) fits e
Reach-Numbered requests v (finished fork pid r f e) fits =
    let w = Reach-Numbered requests v r fits in
    record {
      consecutive = w.consecutive;
      added = w.added;
      as_many = w.as_many;
      stored = Stores-job_finished fork pid _ _ _ w.stored e;
    }
