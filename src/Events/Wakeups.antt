-- ===== src/Events/Wakeups.antt =====
-- Which threads that wait for an event are woken by it.
use opcuatesttool.Prelude.{
  ℕ, nat_eq, ◌+◌, ◌%◌, ◌≤◌, ◌<◌, ◌≡◌, refl, true, false, Option, none, some, List, [], ◌∷◌, ◌++◌,
  ◌==◌, if◌then◌else◌, length, arith, beq_self, map, append-nil, append_assoc, ◌∙◌,
}
use opcuatesttool.Std.Text.{Text, codes}
use opcuatesttool.Events.Dispatcher.{
  word, Dispatcher, Sink, init, send_event, wait_begin, is_ready, wake, provide, send_all,
}

-- `cid` is the number before `id`.
pub record IsConsistent (d : Dispatcher) : Type 0 where
  pub in_word : d.id < word
  pub previous : d.cid ≡ (d.id + 4294967295) % word

init-IsConsistent : IsConsistent init
unfolding init
init-IsConsistent = record { in_word = omega arith; previous = refl }

send_event-IsConsistent :
    (message : Text) (d : Dispatcher) → IsConsistent d → IsConsistent (send_event message d)
unfolding send_event
send_event-IsConsistent message d v = record {
  in_word = omega arith;
  previous = omega (arith, v.in_word);
}

record After (n : ℕ) (d e : Dispatcher) : Type 0 where
  consistent : IsConsistent e
  id_after : e.id ≡ (d.id + n) % word

send_all-After :
    (messages : List Text) (d : Dispatcher)
    → IsConsistent d
    → After (length messages) d (send_all messages d)
unfolding send_all send_event
send_all-After [] d v = record { consistent = v; id_after = omega (arith, v.in_word) }
send_all-After (m ∷ messages) d v =
    let r = send_all-After messages (send_event m d) (send_event-IsConsistent m d v) in
    record { consistent = r.consistent; id_after = omega (arith, r.id_after) }

-- If `cid` is the number before `id`, a thread that began to wait and can test its condition only
-- after a list of events was sent is woken if and only if the length of the list is 1 modulo 2^32:
-- the condition compares for equality.
pub is_ready-send_all :
    (messages : List Text) (d : Dispatcher)
    → IsConsistent d
    → is_ready (send_all messages d) (wait_begin d) ≡ (length messages % word == 1)
unfolding is_ready wait_begin
is_ready-send_all messages d v =
    let r = send_all-After messages d v in
    ground (arith, r.id_after, r.consistent.previous, v.in_word)

-- If `cid` is the number before `id`, and at least two and at most 2^32 events are sent after a
-- thread began to wait and before it can test its condition, it goes on waiting.
wake-missed :
    (messages : List Text) (d : Dispatcher) (sink : Sink)
    → IsConsistent d
    → 1 < length messages
    → length messages ≤ word
    → wake (send_all messages d) (wait_begin d) sink ≡ none
unfolding wake
wake-missed messages d sink v more fits = rw (is_ready-send_all messages d v) (ground arith)

-- A thread that tests its condition after exactly one event has been sent since it began to wait
-- is woken: it writes that event, as one message, if its client can be written to, and else
-- nothing.
pub wake-send_event :
    (message : Text) (d : Dispatcher) (sink : Sink)
    → wake (send_event message d) (wait_begin d) sink
      ≡ some (
          if sink.is_writable
          then record sink {
            written = sink.written ++ (codes "data: " ++ message ++ codes "\n\n") ∷ [];
          }
          else sink)
unfolding wake send_event wait_begin
wake-send_event message d sink = rw (beq_self d.id)

-- The thread of one client that runs between any two events: it waits, an event comes, it writes. The
-- HTTP library calls the content provider again as long as more will follow.
unfoldable pub follow : List Text → Dispatcher → Sink → Option (Dispatcher × Sink)
unfolding provide
follow [] d sink = some (d, sink)
follow (message ∷ messages) d sink =
    let d' = send_event message d in
    let rest = λ (s : Sink). follow messages d' s in
    elim (provide d' (wait_begin d) sink) [
      | none ↦ none
      | some (more, sink') ↦ elim more [ true ↦ rest sink' | false ↦ some (d', sink') ]
    ]

-- A client that can be written to, and whose thread runs between any two events, receives every
-- event, each once and in the order of sending.
pub follow_delivers :
    (messages : List Text) (d : Dispatcher) (received : List Text)
    → follow messages d (record { is_writable = true; written = received })
      ≡ some (
        send_all messages d,
        record {
          is_writable = true;
          written = received ++ map (λ m. codes "data: " ++ m ++ codes "\n\n") messages;
        },
      )
unfolding follow send_all
follow_delivers [] d received = rw append-nil
follow_delivers (m ∷ messages) d received =
    rw (wake-send_event m d (record { is_writable = true; written = received }), follow)
      (follow_delivers messages (send_event m d) _ ∙ rw append_assoc)
