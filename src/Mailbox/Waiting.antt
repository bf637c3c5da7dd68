-- ===== src/Mailbox/Waiting.antt =====
-- When `receive` of impl/actual_mailbox.cpp waits, and in which order it hands things over.
use tinch_pp.Prelude.{
  ◌≡◌, ◌↔◌, ◌⊎◌, refl, ap, Bool, true, false, List, [], ◌∷◌, ◌++◌, arith, map, append_assoc, length,
  replicate, some, none, ◌+◌, subst,
}
use mathlib.Core.List.{reverse, reverse_aux}
use tinch_pp.Types.{EPid, MsgSeq}
use tinch_pp.Mailbox.{
  Mailbox, message, link_broken, mailbox_receive_tmo, on_incoming, receive, Event, incoming, broken,
  receives, step, run,
}

-- `receive` blocks exactly while no message is pending and nothing has been signalled since the
-- last receive, whatever broken links are pending.
pub receive-eq-none :
    (m : Mailbox) → (receive m ≡ none) ↔ ((m.received_msgs ≡ []) × (m.message_ready ≡ false))
unfolding receive
receive-eq-none m = ground arith

-- A timeout is reported only if no message and no broken link is pending, and the wait was ended by a
-- signal.
pub receive-tmo :
    (m m' : Mailbox)
    → receive m ≡ some (m', mailbox_receive_tmo)
    → (m.received_msgs ≡ []) × (m.broken_links ≡ []) × (m.message_ready ≡ true)
unfolding receive
receive-tmo m m' h = ground arith

-- The first of the links that broke is reported before any message, and the messages stay.
pub receive-link_broken :
    (m : Mailbox) (reason : MsgSeq) (pid : EPid) (rest : List (MsgSeq × EPid))
    → m.broken_links ≡ (reason, pid) ∷ rest
    → (receive m ≡ none)
      ⊎ (receive m
          ≡ some (record m { message_ready = false; broken_links = rest }, link_broken reason pid))
unfolding receive
receive-link_broken m reason pid rest h = ground arith

-- Two links break while no message is pending: the first receive reports the first of them, and
-- leaves a mailbox in which the next receive blocks, although the second is still to be reported.
pub second_broken_link_waits :
    (m : Mailbox) (r1 r2 : MsgSeq) (p1 p2 : EPid)
    → m.received_msgs ≡ []
    → m.broken_links ≡ []
    → (m' : Mailbox) × ((run m (broken r1 p1 ∷ broken r2 p2 ∷ receives ∷ []))
        ≡ (m', link_broken r1 p1 ∷ []))
      × (m'.broken_links ≡ (r2, p2) ∷ [])
      × (receive m' ≡ none)
unfolding run step
second_broken_link_waits m r1 r2 p1 p2 hm hl = (
  record { received_msgs = []; message_ready = false; broken_links = (r2, p2) ∷ [] },
  ground arith,
  refl,
  refl,
)

abbrev pub deliver_all : List MsgSeq → List Event
deliver_all = map incoming

run-append :
    (m : Mailbox) (xs ys : List Event)
    → run m (xs ++ ys) ≡ ((run (run m xs).0 ys).0, (run m xs).1 ++ (run (run m xs).0 ys).1)
unfolding run
run-append m [] ys = refl
run-append m (x ∷ xs) ys = rw (run-append (step m x).0 xs ys, append_assoc)

run-deliver_all :
    (m : Mailbox) (msg : MsgSeq) (msgs : List MsgSeq)
    → run m (deliver_all (msg ∷ msgs)) ≡ (
      record m { received_msgs = reverse_aux (msg ∷ msgs) m.received_msgs; message_ready = true },
      [],
    )
unfolding run step
run-deliver_all m msg [] = refl
run-deliver_all m msg (x ∷ msgs) = rw (run-deliver_all (on_incoming m msg) x msgs)

run-receives :
    (xs : List MsgSeq) (ready : Bool)
    → (run
        (record { received_msgs = xs; message_ready = ready; broken_links = [] })
        (replicate (length xs) receives)).1
      ≡ map message xs
unfolding run step
run-receives [] ready = refl
run-receives (x ∷ xs) ready = ap (λ r. message x ∷ r) (run-receives xs false)

length-reverse_aux : (xs ys : List MsgSeq) → length (reverse_aux xs ys) ≡ length xs + length ys
length-reverse_aux [] ys = omega arith
length-reverse_aux (x ∷ xs) ys = omega (arith, length-reverse_aux xs (x ∷ ys))

-- A mailbox with nothing pending, signalled or not.
abbrev pub drained : Bool → Mailbox
drained ready = record { received_msgs = []; message_ready = ready; broken_links = [] }

-- Messages that arrive while nothing is pending are received in the reverse of the order in which
-- they arrived.
pub received_in_reverse :
    (ready : Bool) (msgs : List MsgSeq)
    → (run (drained ready) (deliver_all msgs ++ replicate (length msgs) receives)).1
      ≡ map message (reverse msgs)
received_in_reverse ready [] = unfold run in refl
received_in_reverse ready (x ∷ msgs) =
    rw (run-append, run-deliver_all (drained ready) x msgs)
      (subst
        (λ k.
          (run
            (record { received_msgs = reverse (x ∷ msgs); message_ready = true; broken_links = [] })
            (replicate k receives)).1
          ≡ map message (reverse (x ∷ msgs)))
        {y = length (x ∷ msgs)} (omega (arith, length-reverse_aux msgs (x ∷ [])))
        (run-receives (reverse (x ∷ msgs)) true))
