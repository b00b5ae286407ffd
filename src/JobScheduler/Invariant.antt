-- ===== src/JobScheduler/Invariant.antt =====
-- What holds of the scheduler between two calls, whatever the calls and the processes do.
use opcuatesttool.Prelude.{
  nat_eq, int_eq, ◌≤◌, ◌<◌, ◌≡◌, refl, ◌⊎◌, inl, inr, none, some, List, [], ◌∷◌, ◌++◌, map,
  append_assoc, leb, Bool-cases, Option-cases, leb→le, ℤ, length, arith, ◌∙◌, sym, ap, tail_of,
  some_elim,
}
use mathlib.Core.List.{map-append}
use opcuatesttool.Prelude.Dict.{lookup, length-insert_new, length-erase}
use opcuatesttool.Std.Text.{Text}
use opcuatesttool.DataBase.Defs.{new_job}
use opcuatesttool.JobScheduler.Defs.{
  Host, Process, Fork, fork_failed, forked, max_concurrent_jobs, launch, schedule_front, schedule,
  enqueue, create, retire, job_finished,
}

-- The kernel gives a new process a number that no entry of `activeJobs` has.
abbrev pub Fresh : Fork → Host → Type 0
Fresh fork_failed h = Unit
Fresh (forked pid) h = lookup pid h.active_jobs ≡ none

abbrev pub jobs : List Process → List ℤ
jobs = map (λ p. p.job_id)

-- `created` are the numbers that `create` returned, oldest first.
pub record Inv (created : List ℤ) (h : Host) : Type 0 where
  -- At most four jobs run.
  pub bounded : length h.active_jobs ≤ max_concurrent_jobs
  -- A job waits only while four run.
  pub busy : (h.wait_queue ≡ []) ⊎ (max_concurrent_jobs ≤ length h.active_jobs)
  -- The jobs are started in the order of their creation, each once, and none is lost.
  pub in_order : jobs h.started ++ h.wait_queue ≡ created

-- What holds just before `schedule`.
record Pending (created : List ℤ) (h : Host) : Type 0 where
  bounded : length h.active_jobs ≤ max_concurrent_jobs
  almost : (tail_of h.wait_queue ≡ []) ⊎ (3 ≤ length h.active_jobs)
  in_order : jobs h.started ++ h.wait_queue ≡ created

launch-Inv :
    (fork : Fork) (job_id : ℤ) (rest created : List ℤ) (h h' : Host)
    → h.wait_queue ≡ job_id ∷ rest
    → Pending created h
    → length h.active_jobs < max_concurrent_jobs
    → Fresh fork h
    → launch fork job_id (record h { scheduler = record (h.scheduler) { wait_queue = rest } })
      ≡ some h'
    → Inv created h'
unfolding launch
launch-Inv fork_failed job_id rest created h h' q p room f e = cc
launch-Inv (forked pid) job_id rest created h h' q p room f e = some_elim (Inv created) e (record {
  bounded = omega (arith, length-insert_new pid job_id h.active_jobs f);
  busy = elim p.almost [
    | inl last ↦ inl (sym (ap tail_of q) ∙ last)
    | inr three ↦ inr (omega (arith, length-insert_new pid job_id h.active_jobs f))
  ];
  in_order =
      ap (λ js. js ++ rest) (map-append (λ p. p.job_id) h.started _)
      ∙ append_assoc (jobs h.started) (job_id ∷ []) rest
      ∙ ap (◌++◌ (jobs h.started)) (sym q)
      ∙ p.in_order;
})

schedule-Inv :
    (fork : Fork) (queue created : List ℤ) (h h' : Host)
    → h.wait_queue ≡ queue
    → Pending created h
    → Fresh fork h
    → schedule_front fork queue h ≡ some h'
    → Inv created h'
unfolding schedule_front
schedule-Inv fork [] created h h' q p f e =
    some_elim (Inv created) e (record { bounded = p.bounded; busy = inl q; in_order = p.in_order })
schedule-Inv fork (job_id ∷ rest) created h h' q p f e =
    elim (Bool-cases (leb max_concurrent_jobs (length h.active_jobs))) [
      | inl full ↦
          some_elim (Inv created) (rw full at e)
            (record { bounded = p.bounded; busy = inr (leb→le _ _ full); in_order = p.in_order })
      | inr room ↦ launch-Inv fork job_id rest created h h' q p (ground arith) f (rw room at e)
    ]

enqueue-Pending :
    (request : Text) (created : List ℤ) (h : Host)
    → Inv created h
    → Pending (created ++ (enqueue request h).0 ∷ []) (enqueue request h).1
unfolding enqueue new_job
enqueue-Pending request created h v = record {
  bounded = v.bounded;
  almost = elim v.busy [
    | inl e ↦ inl (ap (λ q. tail_of (q ++ h.db.job_id ∷ [])) e)
    | inr full ↦ inr (omega arith)
  ];
  in_order =
      sym (append_assoc (jobs h.started) h.wait_queue _)
      ∙ ap (λ js. js ++ h.db.job_id ∷ []) v.in_order;
}

retire-Pending :
    (pid : ℤ) (created : List ℤ) (h : Host) → Inv created h → Pending created (retire pid h)
unfolding retire
retire-Pending pid created h v = elim (Option-cases (lookup pid h.active_jobs)) [
  | inl missing ↦
      rw (missing, retire)
        (record {
          bounded = v.bounded;
          almost = elim v.busy [ inl e ↦ inl (ap tail_of e) | inr full ↦ inr (omega arith) ];
          in_order = v.in_order;
        })
  | inr (job_id, found) ↦
      rw (found, retire)
        (record {
          bounded = omega (arith, length-erase pid job_id h.active_jobs found);
          almost = elim v.busy [
            | inl e ↦ inl (ap tail_of e)
            | inr full ↦ inr (omega (arith, length-erase pid job_id h.active_jobs found))
          ];
          in_order = v.in_order;
        })
]

-- `create` keeps the invariant, and its result is the youngest job.
pub create-Inv :
    (fork : Fork) (request : Text) (created : List ℤ) (h h' : Host) (id : ℤ)
    → Inv created h
    → Fresh fork h
    → create fork request h ≡ some (id, h')
    → Inv (created ++ id ∷ []) h'
unfolding create schedule
create-Inv fork request created h h' id v f e =
    elim (Option-cases (schedule fork (enqueue request h).1)) [
      | inl stopped ↦ cc (stopped, e)
      | inr (h'', s) ↦
          some_elim (λ r. Inv (created ++ r.0 ∷ []) r.1) (rw (s, create) at e)
            (schedule-Inv fork _ _ (enqueue request h).1 h'' refl
              (enqueue-Pending request created h v) (fresh fork f) s)
    ]
  where
    fresh : (fork : Fork) → Fresh fork h → Fresh fork (enqueue request h).1
    fresh fork_failed f = f
    fresh (forked pid) f = unfold enqueue in f

-- `jobFinished` keeps the invariant, for a process that runs a job and for any other number.
pub job_finished-Inv :
    (fork : Fork) (pid : ℤ) (created : List ℤ) (h h' : Host)
    → Inv created h
    → Fresh fork (retire pid h)
    → job_finished fork pid h ≡ some h'
    → Inv created h'
unfolding job_finished schedule
job_finished-Inv fork pid created h h' v f e =
    schedule-Inv fork _ created (retire pid h) h' refl (retire-Pending pid created h v) f e
