-- ===== src/Repl/Relay.antt =====
-- What the interpreter prints, as the clients of GET /api/events receive it: the thread of
-- testService/Repl.h with the event callback of api/Server.h.
use opcuatesttool.Prelude.{
  nat_eq, ◌≡◌, true, List, [], ◌∷◌, ◌++◌, map, append_assoc, append-nil, some, ◌∙◌, ap, sym,
}
use opcuatesttool.Std.Text.{Text, codes}
use opcuatesttool.Events.Dispatcher.{Dispatcher, send_all}
use opcuatesttool.Events.Framing.{event_message, event_callback}
use opcuatesttool.Events.Wakeups.{follow, follow_delivers}
use opcuatesttool.Repl.Listener.{Read, closed, bytes, failed, stopped, terminated, Listener, listen}

abbrev pub concat : List Text → Text
concat [] = []
concat (t ∷ ts) = t ++ concat ts

-- The messages for what was read.
abbrev pub messages : List Text → List Text
messages = map (event_message (codes "ReplResponseEvent"))

-- The thread after it has read `chunks`.
abbrev pub relayed : List Text → Listener Dispatcher → Listener Dispatcher
relayed chunks l = record {
  stdout = l.stdout ++ concat chunks;
  world = send_all (messages chunks) l.world;
}

-- Whatever follows, each chunk is passed on before the next is read.
listen-relayed :
    (chunks : List Text) (reads : List Read) (l : Listener Dispatcher)
    → listen event_callback (map bytes chunks ++ reads) l
      ≡ listen event_callback reads (relayed chunks l)
unfolding listen event_callback send_all
listen-relayed [] reads l =
    ap (λ out. listen event_callback reads (record l { stdout = out })) (sym (append-nil l.stdout))
listen-relayed (c ∷ chunks) reads l =
    listen-relayed chunks reads _
    ∙ ap
        (λ out.
          listen event_callback reads
            (record { stdout = out; world = send_all (messages (c ∷ chunks)) l.world }))
        (append_assoc l.stdout c (concat chunks))

-- If the reads of the pipe are chunks and then its end, the thread stops, all bytes are on the
-- standard output in order, and one event was sent for each chunk; and a client that can be
-- written to, whose thread runs between any two events, has received one message for each chunk,
-- in order.
pub listen_delivers :
    (chunks : List Text) (l : Listener Dispatcher) (received : List Text)
    → (listen event_callback (map bytes chunks ++ closed ∷ []) l ≡ (
      stopped,
      record { stdout = l.stdout ++ concat chunks; world = send_all (messages chunks) l.world },
    ))
      × (follow (messages chunks) l.world (record { is_writable = true; written = received })
          ≡ some (
            send_all (messages chunks) l.world,
            record {
              is_writable = true;
              written =
                  received ++ map (λ m. codes "data: " ++ m ++ codes "\n\n") (messages chunks);
            },
          ))
unfolding listen
listen_delivers chunks l received =
    (listen-relayed chunks (closed ∷ []) l, follow_delivers (messages chunks) l.world received)

-- If a read of the pipe fails, whatever would follow, an exception leaves the thread, after the
-- chunks before it were written and sent.
pub listen_fails :
    (chunks : List Text) (reads : List Read) (l : Listener Dispatcher)
    → listen event_callback (map bytes chunks ++ failed ∷ reads) l ≡ (
      terminated,
      record { stdout = l.stdout ++ concat chunks; world = send_all (messages chunks) l.world },
    )
unfolding listen
listen_fails chunks reads l = listen-relayed chunks (failed ∷ reads) l
