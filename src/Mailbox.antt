-- ===== src/Mailbox.antt =====
-- impl/actual_mailbox.h and impl/actual_mailbox.cpp: the state of one mailbox and its operations.
-- `received_msgs_mutex` makes each operation one step; a thread that would wait in `receive` leaves
-- the mailbox as it is, and tries again once another step has set `message_ready`. An exception is
-- a result. The calls that a mailbox only passes on to its node are left out.
pub mod Conservation
pub mod Waiting
use tinch_pp.Prelude.{
  Bool, true, false, not, ◌&&◌, ◌||◌, List, [], ◌∷◌, ◌++◌, Option, none, some, if◌then◌else◌,
}
use tinch_pp.Types.{EPid, MsgSeq}

pub record Mailbox : Type 0 where
  pub received_msgs : List MsgSeq
  pub message_ready : Bool
  pub broken_links : List (MsgSeq × EPid)

abbrev pub new_mailbox : Mailbox
new_mailbox = record { received_msgs = []; message_ready = false; broken_links = [] }

-- What `receive` hands to its caller: a message, or one of the two exceptions.
pub data Received : Type 0 where
  message : MsgSeq → Received
  link_broken : MsgSeq → EPid → Received
  mailbox_receive_tmo : Received

abbrev pub is_empty {ℓ} : {A : Type ℓ} → List A → Bool
is_empty [] = true
is_empty (x ∷ xs) = false

-- The lock is taken, the action runs, and the waiting thread is woken.
abbrev pub notify_receive : (Mailbox → Mailbox) → Mailbox → Mailbox
notify_receive receive_action m = record (receive_action m) { message_ready = true }

unfoldable pub on_incoming : Mailbox → MsgSeq → Mailbox
on_incoming m msg = notify_receive (λ b. record b { received_msgs = msg ∷ b.received_msgs }) m

unfoldable pub on_link_broken : Mailbox → MsgSeq → EPid → Mailbox
on_link_broken m reason pid =
    notify_receive (λ b. record b { broken_links = b.broken_links ++ ((reason, pid) ∷ []) }) m

-- The timer's handler; the flag says that its error code is `operation_aborted`.
unfoldable pub receive_tmo : Mailbox → Bool → Mailbox
receive_tmo m is_old_notification = if is_old_notification then m else notify_receive (λ b. b) m

-- `received_msgs` has a front element, or the timeout is reported.
abbrev pub front_msg : Mailbox → List MsgSeq → Mailbox × Received
front_msg m [] = (m, mailbox_receive_tmo)
front_msg m (msg ∷ rest) = (record m { received_msgs = rest }, message msg)

-- `report_broken_link`, where there is one, throws before a message is picked.
abbrev pub front_link : Mailbox → List (MsgSeq × EPid) → Mailbox × Received
front_link m [] = front_msg m m.received_msgs
front_link m ((reason, pid) ∷ rest) = (record m { broken_links = rest }, link_broken reason pid)

unfoldable pub pick_first_msg : Mailbox → Mailbox × Received
pick_first_msg m = front_link (record m { message_ready = false }) m.broken_links

-- `wait_for_at_least_one_message` returns: it does not wait, or its loop ends.
abbrev pub wait_is_over : Mailbox → Bool
wait_is_over m = not (is_empty m.received_msgs) || m.message_ready

-- `none`: the thread stays blocked.
unfoldable pub receive : Mailbox → Option (Mailbox × Received)
unfolding pick_first_msg
receive m = if wait_is_over m then some (pick_first_msg m) else none

-- What can happen to a mailbox, in the order in which the lock is taken.
pub data Event : Type 0 where
  incoming : MsgSeq → Event
  broken : MsgSeq → EPid → Event
  timer : Bool → Event
  receives : Event

abbrev pub after_receive : Mailbox → Option (Mailbox × Received) → Mailbox × List Received
after_receive m none = (m, [])
after_receive m (some (m', r)) = (m', r ∷ [])

unfoldable pub step : Mailbox → Event → Mailbox × List Received
unfolding on_incoming on_link_broken receive_tmo receive
step m (incoming msg) = (on_incoming m msg, [])
step m (broken reason pid) = (on_link_broken m reason pid, [])
step m (timer is_old_notification) = (receive_tmo m is_old_notification, [])
step m receives = after_receive m (receive m)

unfoldable pub run : Mailbox → List Event → Mailbox × List Received
run m [] = (m, [])
run m (e ∷ es) = let (m', out) = step m e in let (m'', outs) = run m' es in (m'', out ++ outs)
