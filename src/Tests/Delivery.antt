-- ===== src/Tests/Delivery.antt =====
-- Events and signals.
use opcuatesttool.Prelude.{
  ◌+◌, nat_eq, int_eq, add_int, ◌≡◌, ◌≤◌, refl, true, false, [], ◌∷◌, ℤ, pos, arith, length,
}
use opcuatesttool.Prelude.Dict.{lookup, insert, erase}
use opcuatesttool.Std.Text.{codes, lines}
use opcuatesttool.DataBase.Defs.{new_job}
use opcuatesttool.JobScheduler.Defs.{
  Host, forked, create, enqueue, schedule, schedule_front, launch, job_finished, retire,
}
use opcuatesttool.Events.Dispatcher.{Sink, init, wait_begin, is_ready, send_all}
use opcuatesttool.Events.Wakeups.{IsConsistent, is_ready-send_all}
use opcuatesttool.Events.Framing.{
  replace_newlines, event_message, event_callback, event_callback_framing,
}
use opcuatesttool.TestService.Defs.{handle_sig_chld}
use opcuatesttool.TestService.Signals.{
  System, accepts, handles, Steps, stay, then_step, announced, missed_signal,
}
use opcuatesttool.Tests.Data.{idle, after, resumed}

init-IsConsistent : IsConsistent init
unfolding init
init-IsConsistent = record { in_word = omega arith; previous = refl }

client : Sink
client = record { is_writable = true; written = [] }

is_ready-send_all_example :
    is_ready (send_all (codes "a" ∷ codes "b" ∷ []) init) (wait_begin init) ≡ false
is_ready-send_all_example = is_ready-send_all (codes "a" ∷ codes "b" ∷ []) init init-IsConsistent

event_callback_framing_example :
    lines (event_callback (codes "Event") (codes "a\n\nb") init).message
    ≡ codes "data: {\"event\": \"Event\", \"data\": \"a\\nb\"}" ∷ [] ∷ []
unfolding event_message replace_newlines
event_callback_framing_example =
    event_callback_framing (codes "Event") (codes "a\n\nb") init (omega arith)

abbrev create_at : ℤ → Host → Host
create_at pid h = after h (create (forked pid) (codes "{}") h)

-- Two jobs run, and both processes have ended.
abbrev two : Host
two = create_at (pos 11) (create_at (pos 10) idle)

abbrev both_ended : System
both_ended = record {
  service = record { host = two; terminal = [] };
  ended = pos 11 ∷ pos 10 ∷ [];
  pending = true;
  waiting = false;
}

abbrev handled : System
handled = record {
  service = record {
    host = resumed two (job_finished (forked (pos 12)) (pos 11) two);
    terminal = [];
  };
  ended = pos 10 ∷ [];
  pending = false;
  waiting = false;
}

one_handled : Steps both_ended 0 handled
unfolding create enqueue new_job add_int schedule schedule_front launch lookup insert erase
    job_finished retire handle_sig_chld
one_handled =
    then_step (then_step stay (accepts refl refl))
      (handles (forked (pos 12)) [] (pos 10 ∷ []) (pos 11) handled.service refl refl refl)

missed_signal_example : 1 + announced handled ≤ length handled.ended + 0
missed_signal_example =
    missed_signal 1 {s = both_ended} {extra = 0} {t = handled} (omega arith) one_handled
