-- ===== src/Tests/Scheduling.antt =====
-- Six jobs, of which the first ends, and then the second.
use opcuatesttool.Prelude.{nat_eq, int_eq, add_int, ◌≡◌, refl, List, [], ◌∷◌, ℤ, pos}
use opcuatesttool.Prelude.Dict.{lookup, insert, erase}
use opcuatesttool.Std.Text.{codes}
use opcuatesttool.DataBase.Defs.{new_job}
use opcuatesttool.JobScheduler.Defs.{
  Host, forked, create, enqueue, schedule, schedule_front, launch, job_finished, retire,
}
use opcuatesttool.JobScheduler.Invariant.{Inv, jobs}
use opcuatesttool.JobScheduler.Progress.{
  Reach, here, created, finished, IsIdle, Reach-Inv, none_yet, next, all_started,
}
use opcuatesttool.Tests.Data.{idle, after, resumed}

abbrev create_at : ℤ → Host → Host
create_at pid h = after h (create (forked pid) (codes "{}") h)

abbrev four : Host
four = create_at (pos 13) (create_at (pos 12) (create_at (pos 11) (create_at (pos 10) idle)))

-- A process number for a call that starts no process is not used.
abbrev six : Host
six = create_at (pos 14) (create_at (pos 14) four)

abbrev end_at : ℤ → ℤ → Host → Host
end_at pid new h = resumed h (job_finished (forked new) pid h)

abbrev ids : List ℤ
ids = pos 0 ∷ pos 1 ∷ pos 2 ∷ pos 3 ∷ pos 4 ∷ pos 5 ∷ []

idle-IsIdle : IsIdle idle
idle-IsIdle = record { no_jobs = refl; no_queue = refl; no_processes = refl }

reach_six : Reach idle ids six
unfolding create enqueue new_job add_int schedule schedule_front launch lookup insert
reach_six =
    created (forked (pos 14)) (codes "{}")
      (created (forked (pos 14)) (codes "{}")
        (created (forked (pos 13)) (codes "{}")
          (created (forked (pos 12)) (codes "{}")
            (created (forked (pos 11)) (codes "{}")
              (created (forked (pos 10)) (codes "{}") here refl refl) refl refl)
            refl refl)
          refl refl)
        refl refl)
      refl refl

six-Inv : Inv ids six
six-Inv = Reach-Inv idle-IsIdle reach_six

-- The job of process 11 ends, and job 4 gets its place.
Reach-Inv_example : Inv ids (end_at (pos 11) (pos 15) six)
unfolding create enqueue new_job add_int schedule schedule_front launch lookup insert erase
    job_finished retire
Reach-Inv_example = Reach-Inv idle-IsIdle (finished (forked (pos 15)) (pos 11) reach_six refl refl)

all_started_example : jobs (end_at (pos 11) (pos 16) (end_at (pos 10) (pos 15) six)).started ≡ ids
unfolding create enqueue new_job add_int schedule schedule_front launch lookup insert erase
    job_finished retire
all_started_example = all_started ids six-Inv (
    next (pos 11) (pos 1) (pos 16) (next (pos 10) (pos 0) (pos 15) none_yet refl refl refl) refl
      refl refl)
