-- ===== src/Tests/Locking.antt =====
-- Threads of the service that begin operations.
use opcuatesttool.Prelude.{◌⊎◌, true, List, [], ◌∷◌, All}
use opcuatesttool.Locks.Defs.{
  Thread, job_finished, program, finishing, begins, stay, then_step, idle_threads,
}
use opcuatesttool.Locks.Progress.{IsResting, CanMove, progress}

abbrev resting : Thread
resting = record { held = []; todo = [] }

-- One thread of two has begun to handle the end of a process.
abbrev two_threads : List Thread
two_threads = resting ∷ record { held = []; todo = finishing true } ∷ []

progress_example : All IsResting two_threads ⊎ CanMove two_threads
unfolding idle_threads program
progress_example =
    progress 2 two_threads (then_step stay (begins (resting ∷ []) [] (job_finished true)))
