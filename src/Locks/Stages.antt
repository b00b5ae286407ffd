-- ===== src/Locks/Stages.antt =====
-- The points at which a thread of the service may be.
use opcuatesttool.Prelude.{ℕ, zero, suc, true, false, List, [], ◌∷◌, ◌++◌, All}
use opcuatesttool.Locks.Defs
use opcuatesttool.Locks.Defs.{
  Mutex, scheduler, dispatcher, Action, lock, unlock, wait, sleep, write, creating, sending,
  finishing, waiting, Operation, program, Thread, holds, Free, Move, locks, unlocks, falls_asleep,
  wakes, writes, Step, moves, begins, Steps, stay, then_step, idle_threads,
}

-- The points at which a thread may be.
pub data Stage : List Mutex → List Action → Type 0 where
  idle : Stage [] []
  wants_scheduler :
      {todo : List Action} → Stage (scheduler ∷ []) todo → Stage [] (lock scheduler ∷ todo)
  nested : Stage (scheduler ∷ []) (lock dispatcher ∷ unlock dispatcher ∷ unlock scheduler ∷ [])
  tells : Stage (dispatcher ∷ scheduler ∷ []) (unlock dispatcher ∷ unlock scheduler ∷ [])
  leaves_scheduler : Stage (scheduler ∷ []) (unlock scheduler ∷ [])
  wants_dispatcher :
      {todo : List Action} → Stage (dispatcher ∷ []) todo → Stage [] (lock dispatcher ∷ todo)
  waits :
      {todo : List Action} → Stage (dispatcher ∷ []) todo → Stage (dispatcher ∷ []) (wait ∷ todo)
  asleep : {todo : List Action} → Stage (dispatcher ∷ []) todo → Stage [] (sleep ∷ todo)
  delivers : Stage (dispatcher ∷ []) (write ∷ unlock dispatcher ∷ [])
  leaves_dispatcher : Stage (dispatcher ∷ []) (unlock dispatcher ∷ [])

abbrev pub AtStage : Thread → Type 0
AtStage t = Stage t.held t.todo

program-Stage : (operation : Operation) → Stage [] (program operation)
unfolding program creating finishing sending waiting
program-Stage Defs.create = wants_scheduler leaves_scheduler
program-Stage (Defs.job_finished true) = wants_scheduler nested
program-Stage (Defs.job_finished false) = wants_scheduler leaves_scheduler
program-Stage Defs.send_event = wants_dispatcher leaves_dispatcher
program-Stage (Defs.wait_event true) = wants_dispatcher (waits delivers)
program-Stage (Defs.wait_event false) = wants_dispatcher (waits leaves_dispatcher)

Move-Stage :
    {others : List Thread} {held held' : List Mutex} {todo todo' : List Action}
    → Stage held todo
    → Move others (record { held = held; todo = todo }) (record { held = held'; todo = todo' })
    → Stage held' todo'
Move-Stage idle m = elim m [ ]
Move-Stage (wants_scheduler st) (locks scheduler own free) = st
Move-Stage nested (locks dispatcher own free) = tells
Move-Stage (wants_dispatcher st) (locks dispatcher own free) = st
Move-Stage tells (unlocks dispatcher) = leaves_scheduler
Move-Stage leaves_scheduler (unlocks scheduler) = idle
Move-Stage leaves_dispatcher (unlocks dispatcher) = idle
Move-Stage (waits st) falls_asleep = asleep st
Move-Stage (asleep st) (wakes own free) = st
Move-Stage delivers writes = leaves_dispatcher

All-replace :
    (before after : List Thread) (t t' : Thread)
    → (AtStage t → AtStage t')
    → All AtStage (before ++ t ∷ after)
    → All AtStage (before ++ t' ∷ after)
All-replace [] after t t' f (v, vs) = (f v, vs)
All-replace (x ∷ before) after t t' f (v, vs) = (v, All-replace before after t t' f vs)

Step-Stage : {ts ts' : List Thread} → All AtStage ts → Step ts ts' → All AtStage ts'
Step-Stage v (moves {t = t} {t' = t'} before after m) =
    All-replace before after t t' (λ st. Move-Stage st m) v
Step-Stage v (begins before after operation) =
    All-replace before after _ _ (λ st. program-Stage operation) v

idle_threads-Stage : (n : ℕ) → All AtStage (idle_threads n)
unfolding idle_threads
idle_threads-Stage zero = tt
idle_threads-Stage (suc n) = (idle, idle_threads-Stage n)

pub Steps-Stage : (n : ℕ) {ts : List Thread} → Steps (idle_threads n) ts → All AtStage ts
Steps-Stage n stay = idle_threads-Stage n
Steps-Stage n (then_step r s) = Step-Stage (Steps-Stage n r) s
