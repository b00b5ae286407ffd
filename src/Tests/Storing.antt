-- ===== src/Tests/Storing.antt =====
-- Requests that are stored.
use opcuatesttool.Prelude.{nat_eq, int_eq, text_eq, add_int, refl, [], ◌∷◌, pos, arith}
use opcuatesttool.Prelude.Dict.{lookup, insert, erase}
use opcuatesttool.Std.Text.{Text, codes}
use opcuatesttool.Std.Files.{read}
use opcuatesttool.DataBase.Defs.{new_job}
use opcuatesttool.DataBase.Requests.{Holds, Represents}
use opcuatesttool.JobScheduler.Defs.{
  Host, forked, create, enqueue, schedule, schedule_front, launch, job_finished, retire,
}
use opcuatesttool.JobScheduler.Progress.{here, created, finished}
use opcuatesttool.JobScheduler.Storage.{Stores, Numbered, create-Stores, Reach-Numbered}
use opcuatesttool.Tests.Data.{no_files, data_base, idle, after, resumed}

abbrev dir : Text
dir = codes "w/jobs/requests"

empty-Holds : Holds dir no_files []
unfolding read lookup
empty-Holds = record {
  ready = record { there = refl; numbers_free = λ i. refl };
  file = λ i h. refl;
}

empty-Represents : Represents data_base no_files []
empty-Represents = record { next_id = refl; holds = empty-Holds }

-- The first job is created.
abbrev host_1 : Host
host_1 = after idle (create (forked (pos 10)) (codes "first") idle)

idle-Stores : Stores idle []
idle-Stores = (refl, empty-Represents)

host_1-Stores : Stores host_1 (codes "first" ∷ [])
unfolding create enqueue new_job add_int schedule schedule_front launch lookup insert
host_1-Stores =
    (create-Stores (forked (pos 10)) (codes "first") idle host_1 (pos 0) [] idle-Stores
      (omega arith) refl).1

-- A job is created after the first one, and the first one ends.
abbrev host_2 : Host
host_2 = after host_1 (create (forked (pos 11)) (codes "second") host_1)

Reach-Numbered_example :
    Numbered
      (codes "first" ∷ [])
      (pos 1 ∷ [])
      (resumed host_2 (job_finished (forked (pos 12)) (pos 10) host_2))
unfolding create enqueue new_job add_int schedule schedule_front launch lookup insert erase
    job_finished retire
Reach-Numbered_example =
    Reach-Numbered {start = host_1} (codes "first" ∷ []) host_1-Stores
      (finished {h = host_2} (forked (pos 12)) (pos 10)
        (created (forked (pos 11)) (codes "second") here refl refl) refl refl)
      (omega arith)
