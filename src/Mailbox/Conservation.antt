-- ===== src/Mailbox/Conservation.antt =====
-- What a mailbox of impl/actual_mailbox.cpp does with its messages and its broken links, whatever
-- the order of deliveries, timeouts and receives.
use tinch_pp.Prelude.{
  ℕ, ◌+◌, ◌≡◌, refl, Bool, true, false, List, [], ◌∷◌, ◌++◌, arith, if◌then◌else◌, bytes_eq, nat_eq,
  ◌==◌, count,
}
use tinch_pp.Types.{EPid, MsgSeq}
use tinch_pp.Mailbox.{
  Mailbox, Received, message, link_broken, mailbox_receive_tmo, receive, Event, incoming, broken,
  timer, receives, step, run, after_receive,
}

-- How often a message stands in a list of results.
abbrev pub one_of_message : MsgSeq → Received → ℕ
one_of_message msg (message x) = if x == msg then 1 else 0
one_of_message msg (link_broken r p) = 0
one_of_message msg mailbox_receive_tmo = 0

unfoldable pub count_message : MsgSeq → List Received → ℕ
count_message msg [] = 0
count_message msg (r ∷ rs) = one_of_message msg r + count_message msg rs

abbrev pub one_of_incoming : MsgSeq → Event → ℕ
one_of_incoming msg (incoming x) = if x == msg then 1 else 0
one_of_incoming msg (broken r p) = 0
one_of_incoming msg (timer b) = 0
one_of_incoming msg receives = 0

unfoldable pub count_incoming : MsgSeq → List Event → ℕ
count_incoming msg [] = 0
count_incoming msg (e ∷ es) = one_of_incoming msg e + count_incoming msg es

count_message-append :
    (msg : MsgSeq) (xs ys : List Received)
    → count_message msg (xs ++ ys) ≡ count_message msg xs + count_message msg ys
unfolding count_message
count_message-append msg [] ys = omega arith
count_message-append msg (x ∷ xs) ys = omega (arith, count_message-append msg xs ys)

receive-count :
    (msg : MsgSeq) (msgs : List MsgSeq) (links : List (MsgSeq × EPid)) (ready : Bool)
    → let m : Mailbox = record {
      received_msgs = msgs;
      message_ready = ready;
      broken_links = links;
    } in
      count_message msg (after_receive m (receive m)).1
        + count msg (after_receive m (receive m)).0.received_msgs
      ≡ count msg msgs
unfolding receive count count_message
receive-count msg [] [] true = refl
receive-count msg [] [] false = refl
receive-count msg (x ∷ xs) [] ready = omega arith
receive-count msg [] ((r, p) ∷ links) true = refl
receive-count msg [] ((r, p) ∷ links) false = refl
receive-count msg (x ∷ xs) ((r, p) ∷ links) ready = omega arith

step-count :
    (msg : MsgSeq) (m : Mailbox) (e : Event)
    → let (m', out) = step m e in
      count_message msg out + count msg m'.received_msgs
      ≡ one_of_incoming msg e + count msg m.received_msgs
unfolding step count count_message
step-count msg m (incoming x) = ground arith
step-count msg m (broken r p) = ground arith
step-count msg m (timer b) = ground arith
step-count msg m receives =
    omega (arith, receive-count msg m.received_msgs m.broken_links m.message_ready)

-- Over any sequence of deliveries, broken links, timeouts and receives, a message has been handed to
-- a receiver or is still pending, altogether as often as it was pending at first or arrived.
pub run-count :
    (msg : MsgSeq) (m : Mailbox) (es : List Event)
    → let (m', out) = run m es in
      count_message msg out + count msg m'.received_msgs
      ≡ count_incoming msg es + count msg m.received_msgs
unfolding run count_message count_incoming
run-count msg m [] = omega arith
run-count msg m (e ∷ es) = omega (
  arith,
  step-count msg m e,
  run-count msg (step m e).0 es,
  count_message-append msg (step m e).1 (run (step m e).0 es).1,
)
