-- ===== src/JobScheduler/Progress.antt =====
-- All histories of the scheduler, and that a waiting job gets its turn.
use opcuatesttool.Prelude.{
  ℕ, zero, suc, nat_eq, int_eq, ◌+◌, ◌≤◌, ◌<◌, ◌≡◌, refl, inl, some, List, [], ◌∷◌, ◌++◌,
  append-nil, lt→leb, ℤ, length, arith, ◌∙◌, sym, ap, some_elim, beq_self, length-zero,
}
use opcuatesttool.Prelude.Dict.{lookup, insert, erase, length-erase, lookup-insert}
use mathlib.Core.List.{map-append}
use opcuatesttool.Std.Text.{Text}
use opcuatesttool.JobScheduler.Defs.{
  Host, Fork, forked, max_concurrent_jobs, child, open_log, launch, retire_found, schedule_front,
  schedule, create, retire, job_finished,
}
use opcuatesttool.JobScheduler.Invariant.{Fresh, jobs, Inv, create-Inv, job_finished-Inv}

-- A history of calls, with the numbers that `create` returned, oldest first. The calls come in any
-- order; a process number that `jobFinished` receives may be any.
pub data Reach (start : Host) : List ℤ → Host → Type 0 where
  here : Reach start [] start
  created :
      {ids : List ℤ} {h h' : Host} {id : ℤ} (fork : Fork) (request : Text)
      → Reach start ids h
      → Fresh fork h
      → create fork request h ≡ some (id, h')
      → Reach start (ids ++ id ∷ []) h'
  finished :
      {ids : List ℤ} {h h' : Host} (fork : Fork) (pid : ℤ)
      → Reach start ids h
      → Fresh fork (retire pid h)
      → job_finished fork pid h ≡ some h'
      → Reach start ids h'

-- As the constructor leaves the scheduler.
pub record IsIdle (h : Host) : Type 0 where
  pub no_jobs : h.active_jobs ≡ []
  pub no_queue : h.wait_queue ≡ []
  pub no_processes : h.started ≡ []

pub IsIdle-Inv : (h : Host) → IsIdle h → Inv [] h
IsIdle-Inv h idle = record {
  bounded = rw idle.no_jobs (omega arith);
  busy = inl idle.no_queue;
  in_order = rw idle.no_processes idle.no_queue;
}

-- After any history of calls that starts with no job at all, where each new process has a number
-- that no active job has: at most four jobs are active, a job waits only while four are active,
-- and the started jobs, in the order of their start, followed by the waiting ones are the jobs
-- that `create` returned, in the order of creation. So none is lost, started twice or overtaken.
pub Reach-Inv : {start h : Host} {ids : List ℤ} → IsIdle start → Reach start ids h → Inv ids h
Reach-Inv {start} idle here = IsIdle-Inv start idle
Reach-Inv idle (created fork request r f e) = create-Inv fork request _ _ _ _ (Reach-Inv idle r) f e
Reach-Inv idle (finished fork pid r f e) = job_finished-Inv fork pid _ _ _ (Reach-Inv idle r) f e

-- `k` running jobs end one after the other, and each time a process can be made.
pub data Finishes (start : Host) : ℕ → Host → Type 0 where
  none_yet : Finishes start zero start
  next :
      {k : ℕ} {h h' : Host} (pid job_id new : ℤ)
      → Finishes start k h
      → lookup pid h.active_jobs ≡ some job_id
      → Fresh (forked new) (retire pid h)
      → job_finished (forked new) pid h ≡ some h'
      → Finishes start (suc k) h'

Finishes-Inv :
    {start h : Host} {k : ℕ} (ids : List ℤ) → Inv ids start → Finishes start k h → Inv ids h
Finishes-Inv ids v none_yet = v
Finishes-Inv ids v (next pid job_id new r l f e) =
    job_finished-Inv (forked new) pid ids _ _ (Finishes-Inv ids v r) f e

-- If the invariant holds, `pid` runs a job and a job waits, then `jobFinished(pid)` with a `fork`
-- that succeeds returns: the front of the queue leaves it, is started as the latest process, and
-- is the active job of the new process.
starts_next :
    (pid job_id new front : ℤ) (rest ids : List ℤ) (h : Host)
    → Inv ids h
    → lookup pid h.active_jobs ≡ some job_id
    → h.wait_queue ≡ front ∷ rest
    → (h' : Host) × (job_finished (forked new) pid h ≡ some h')
      × (h'.wait_queue ≡ rest)
      × (jobs h'.started ≡ jobs h.started ++ front ∷ [])
      × (lookup new h'.active_jobs ≡ some front)
unfolding job_finished schedule schedule_front launch retire
starts_next pid job_id new front rest ids h v l q = (
  h',
  rw (l, retire) (rw (q, schedule_front) (rw (lt→leb _ _ room))),
  refl,
  map-append (λ p. p.job_id) h.started _,
  lookup-insert new new front (erase pid h.active_jobs) ∙ rw (beq_self new),
)
  where
    room : length (erase pid h.active_jobs) < max_concurrent_jobs
    room = omega (arith, v.bounded, length-erase pid job_id h.active_jobs l)

    g : Host
    g = record (retire_found pid job_id h) {
      scheduler = record (h.scheduler) { active_jobs = erase pid h.active_jobs; wait_queue = rest };
    }

    h' : Host
    h' = record g {
      scheduler = record (g.scheduler) { active_jobs = insert new front g.active_jobs };
      files = open_log g.scheduler front g.files;
      started = g.started ++ child g.scheduler g.files new front ∷ [];
    }

queue-job_finished :
    (pid job_id new : ℤ) (queue ids : List ℤ) (h h' : Host)
    → Inv ids h
    → lookup pid h.active_jobs ≡ some job_id
    → h.wait_queue ≡ queue
    → job_finished (forked new) pid h ≡ some h'
    → 0 < length queue
    → suc (length h'.wait_queue) ≡ length queue
queue-job_finished pid job_id new [] ids h h' v l q e some_wait = elim some_wait [ ]
queue-job_finished pid job_id new (front ∷ rest) ids h h' v l q e some_wait =
    let (h'', s, w, _, _) = starts_next pid job_id new front rest ids h v l q in
    some_elim (λ g. suc (length g.wait_queue) ≡ suc (length rest)) (sym s ∙ e)
      (ap (λ q. suc (length q)) w)

queue-Finishes :
    {start h : Host} {k : ℕ} (ids : List ℤ)
    → Inv ids start
    → Finishes start k h
    → k ≤ length start.wait_queue
    → length h.wait_queue + k ≡ length start.wait_queue
queue-Finishes ids v none_yet enough = omega arith
queue-Finishes ids v (next {h = h} {h' = h'} pid job_id new r l f e) enough =
    let ih = queue-Finishes ids v r (omega arith) in
    omega (
      arith,
      ih,
      queue-job_finished pid job_id new h.wait_queue ids h h' (Finishes-Inv ids v r) l refl e
          (omega (arith, ih)),
    )

-- If the invariant holds and as many running jobs have ended one after the other as jobs were
-- waiting, each time with a `fork` that succeeds, then the jobs that were started are all the jobs
-- created before, in the order of creation.
pub all_started :
    {start h : Host} (ids : List ℤ)
    → Inv ids start
    → Finishes start (length start.wait_queue) h
    → jobs h.started ≡ ids
all_started {start} {h} ids v r =
    sym (append-nil (jobs h.started))
    ∙ ap (◌++◌ (jobs h.started))
        (sym (length-zero h.wait_queue (omega (arith, queue-Finishes ids v r (omega arith)))))
    ∙ (Finishes-Inv ids v r).in_order
