-- ===== src/JobScheduler/Accounts.antt =====
-- The events of ended jobs against the jobs that were started.
use opcuatesttool.Prelude.{
  nat_eq, int_eq, ◌≡◌, refl, true, none, some, Option, List, [], ◌∷◌, ◌++◌, map, append_assoc,
  append-nil, ◌==◌, leb, Bool-cases, Option-cases, inl, inr, ℤ, length, arith, ◌∙◌, sym, ap, subst,
  some_elim,
}
use mathlib.Core.List.Perm
use mathlib.Core.List.{map-append, Perm}
use opcuatesttool.Prelude.Dict.{Dict, lookup, insert, erase}
use opcuatesttool.Std.Text.{Text, codes}
use opcuatesttool.Std.Decimal.{to_string}
use opcuatesttool.DataBase.Defs.{new_job}
use opcuatesttool.JobScheduler.Defs.{
  Host, Fork, fork_failed, forked, max_concurrent_jobs, child, launch, schedule_front, schedule,
  enqueue, create, retire, job_finished,
}
use opcuatesttool.JobScheduler.Invariant.{Fresh, jobs}

abbrev pub job_event : ℤ → Text × Text
job_event job_id = (codes "JobFinishedEvent", to_string job_id)

abbrev pub active : Dict ℤ ℤ → List ℤ
active = map (λ entry. entry.1)

-- `finished` are the jobs whose process has ended, in the order of their ends.
pub record Accounts (finished : List ℤ) (h : Host) : Type 0 where
  pub callback : h.job_finished_callback ≡ true
  pub sent : h.events ≡ map job_event finished
  -- Each started job is active or finished, once.
  pub accounted : Perm (finished ++ active h.active_jobs) (jobs h.started)

active-insert :
    (pid job_id : ℤ) (m : Dict ℤ ℤ)
    → lookup pid m ≡ none
    → active (insert pid job_id m) ≡ active m ++ job_id ∷ []
unfolding lookup insert
active-insert pid job_id [] e = refl
active-insert pid job_id ((k, v) ∷ m) e = ground (arith, active-insert pid job_id m)

active-erase :
    (pid job_id : ℤ) (m : Dict ℤ ℤ)
    → lookup pid m ≡ some job_id
    → Perm (job_id ∷ active (erase pid m)) (active m)
unfolding lookup erase
active-erase pid job_id [] e = cc
active-erase pid job_id ((k, v) ∷ m) e = elim (Bool-cases (k == pid)) [
  | inl same ↦
      rw same (some_elim (λ j. Perm (j ∷ active m) (v ∷ active m)) (rw same at e) (Perm.refl _))
  | inr other ↦
      rw other (
        Perm.trans (Perm.swap v job_id _) (Perm.cons v (active-erase pid job_id m (rw other at e))))
]

Fresh-same :
    (fork : Fork) (h h' : Host) → h'.active_jobs ≡ h.active_jobs → Fresh fork h → Fresh fork h'
Fresh-same fork_failed h h' e f = f
Fresh-same (forked pid) h h' e f = ap (lookup pid) e ∙ f

launch-Accounts :
    (fork : Fork) (job_id : ℤ) (finished : List ℤ) (h h' : Host)
    → Accounts finished h
    → Fresh fork h
    → launch fork job_id h ≡ some h'
    → Accounts finished h'
unfolding launch child
launch-Accounts fork_failed job_id finished h h' v f e = cc
launch-Accounts (forked pid) job_id finished h h' v f e = some_elim (Accounts finished) e (record {
  callback = v.callback;
  sent = v.sent;
  accounted =
      subst (λ js. Perm (finished ++ active (insert pid job_id h.active_jobs)) js)
        (sym (map-append (λ p. p.job_id) h.started (child h.scheduler h.files pid job_id ∷ [])))
        (subst (λ js. Perm js (jobs h.started ++ job_id ∷ []))
          (append_assoc finished (active h.active_jobs) (job_id ∷ [])
            ∙ ap (◌++◌ finished) (sym (active-insert pid job_id h.active_jobs f)))
          (Perm.append_right (job_id ∷ []) v.accounted));
})

schedule_front-Accounts :
    (fork : Fork) (queue finished : List ℤ) (h h' : Host)
    → Accounts finished h
    → Fresh fork h
    → schedule_front fork queue h ≡ some h'
    → Accounts finished h'
unfolding schedule_front
schedule_front-Accounts fork [] finished h h' v f e = some_elim (Accounts finished) e v
schedule_front-Accounts fork (job_id ∷ rest) finished h h' v f e =
    elim (Bool-cases (leb max_concurrent_jobs (length h.active_jobs))) [
      | inl full ↦ some_elim (Accounts finished) (rw full at e) v
      | inr room ↦
          launch-Accounts fork job_id finished
            (record h { scheduler = record (h.scheduler) { wait_queue = rest } }) h'
            (record { callback = v.callback; sent = v.sent; accounted = v.accounted })
            (Fresh-same fork h _ refl f) (rw room at e)
    ]

pub create-Accounts :
    (fork : Fork) (request : Text) (finished : List ℤ) (h h' : Host) (id : ℤ)
    → Accounts finished h
    → Fresh fork h
    → create fork request h ≡ some (id, h')
    → Accounts finished h'
unfolding create schedule enqueue new_job
create-Accounts fork request finished h h' id v f e =
    elim (Option-cases (schedule fork (enqueue request h).1)) [
      | inl stopped ↦ cc (stopped, e)
      | inr (h'', s) ↦
          some_elim (λ r. Accounts finished r.1) (rw (s, create) at e)
            (schedule_front-Accounts fork _ finished (enqueue request h).1 h''
              (record { callback = v.callback; sent = v.sent; accounted = v.accounted })
              (Fresh-same fork h (enqueue request h).1 refl f) s)
    ]

-- The job whose process `pid` is, if any.
abbrev pub of_process : Option ℤ → List ℤ
of_process none = []
of_process (some job_id) = job_id ∷ []

retire-Accounts :
    (pid : ℤ) (finished : List ℤ) (h : Host)
    → Accounts finished h
    → Accounts (finished ++ of_process (lookup pid h.active_jobs)) (retire pid h)
unfolding retire
retire-Accounts pid finished h v = elim (Option-cases (lookup pid h.active_jobs)) [
  | inl missing ↦ rw (missing, retire) (rw append-nil v)
  | inr (job_id, found) ↦
      rw (found, retire)
        (record {
          callback = v.callback;
          sent = rw v.callback (
              ap (λ events. events ++ job_event job_id ∷ []) v.sent
              ∙ sym (map-append job_event finished (job_id ∷ [])));
          accounted =
              Perm.trans
                (subst (λ js. Perm js (finished ++ job_id ∷ active (erase pid h.active_jobs)))
                  (sym (append_assoc finished (job_id ∷ []) (active (erase pid h.active_jobs))))
                  (Perm.refl _))
                (Perm.trans
                  (Perm.append_left finished (active-erase pid job_id h.active_jobs found))
                  v.accounted);
        })
]

pub job_finished-Accounts :
    (fork : Fork) (pid : ℤ) (finished : List ℤ) (h h' : Host)
    → Accounts finished h
    → Fresh fork (retire pid h)
    → job_finished fork pid h ≡ some h'
    → Accounts (finished ++ of_process (lookup pid h.active_jobs)) h'
unfolding job_finished schedule
job_finished-Accounts fork pid finished h h' v f e =
    schedule_front-Accounts fork _ _ (retire pid h) h' (retire-Accounts pid finished h v) f e
