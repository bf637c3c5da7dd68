-- ===== src/Tests/Mailboxes.antt =====
-- One mailbox under some schedules (impl/actual_mailbox.cpp).
use tinch_pp.Prelude.{◌≡◌, refl, false, List, [], ◌∷◌, ◌+◌, none, count, bytes_eq, replicate, ◌++◌}
use tinch_pp.Types.{EPid, MsgSeq}
use tinch_pp.Mailbox.{
  Mailbox, new_mailbox, message, link_broken, Event, incoming, broken, timer, receives, receive,
  run,
}
use tinch_pp.Mailbox.Conservation.{run-count, count_message, count_incoming}
use tinch_pp.Mailbox.Waiting.{second_broken_link_waits, received_in_reverse, drained, deliver_all}

abbrev peer : EPid
peer = record { node_name = b'a' ∷ []; id = 1; serial = 0; creation = 1 }

abbrev hello : MsgSeq
hello = b'h' ∷ b'i' ∷ []

abbrev schedule : List Event
schedule = incoming hello ∷ broken [] peer ∷ incoming hello ∷ receives ∷ receives ∷ timer false ∷ []

run-count_example :
    count_message hello (run new_mailbox schedule).1
      + count hello (run new_mailbox schedule).0.received_msgs
    ≡ count_incoming hello schedule + count hello []
run-count_example = run-count hello new_mailbox schedule

second_broken_link_waits_example :
    (m' : Mailbox) × (run new_mailbox (broken [] peer ∷ broken hello peer ∷ receives ∷ [])
      ≡ (m', link_broken [] peer ∷ []))
    × (m'.broken_links ≡ (hello, peer) ∷ [])
    × (receive m' ≡ none)
second_broken_link_waits_example = second_broken_link_waits new_mailbox [] hello peer peer refl refl

received_in_reverse_example :
    (run (drained false) (deliver_all ((b'a' ∷ []) ∷ (b'b' ∷ []) ∷ []) ++ replicate 2 receives)).1
    ≡ message (b'b' ∷ []) ∷ message (b'a' ∷ []) ∷ []
received_in_reverse_example = received_in_reverse false ((b'a' ∷ []) ∷ (b'b' ∷ []) ∷ [])
