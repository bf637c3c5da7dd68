-- ===== src/Node/Invariant.antt =====
-- impl/actual_node.cpp, impl/actual_mailbox.cpp: what holds of a node after any operations.
use tinch_pp.Prelude.{List, [], ◌∷◌, none, some, arith}
use tinch_pp.Types.{MsgSeq}
use tinch_pp.Maps.{find, pid_key, name_key}
use tinch_pp.Mailbox.{receive}
use tinch_pp.Control.{control_msg_send, control_msg_reg_send}
use tinch_pp.Connector.{Attempt}
use tinch_pp.Node.{Node, new_node}
use tinch_pp.Node.Policies.{
  dispatcher_for, deliver, deliver_name, deliver_name_on, notify_all, call,
}
use tinch_pp.Node.Policies
use tinch_pp.Node.Mailboxes.{
  close_mailbox, normal, close, destroy, run_posted, link_to, unlink_from, send, send_name,
  send_name_on, ping_peer, recover, publish_port,
}
use tinch_pp.Node.Operations.{
  Op, creates, runs_posted, creates_registered, recovers, pings, closes, receives, lets_go, links,
  unlinks, sends, sends_name, sends_name_on, is_called, publishes, after_receive, step, run,
}
use tinch_pp.Node.Numbering.{Sound, Tame-Sound}
use tinch_pp.Node.Tameness.{
  on_mailbox-Tame, call-Tame, request-Tame, dispatcher_for-Tame, receive_incoming_name-Tame,
}
use tinch_pp.Node.Lifetimes.{
  create_mailbox-Sound, create_registered-Sound, close_mailbox-Tame, with_object-Tame,
  run_first-Tame, destroy-Tame,
}

step-Sound : (attempt : MsgSeq → Attempt) (op : Op) (n : Node) → Sound n → Sound (step attempt op n)
unfolding step run_posted recover ping_peer publish_port deliver deliver_name deliver_name_on
step-Sound attempt creates n h = create_mailbox-Sound n h
step-Sound attempt (creates_registered name) n h = create_registered-Sound name n h
step-Sound attempt runs_posted n h =
    Tame-Sound n (run_posted attempt n) (run_first-Tame attempt n.posted n) h
step-Sound attempt (recovers node) n h = h
step-Sound attempt (pings peer) n h = h
step-Sound attempt (closes i) n h =
    Tame-Sound n (close attempt i n).0
      (with_object-Tame attempt (λ o n. close_mailbox attempt o.own_pid o.own_name normal n) i n
        (λ o. close_mailbox-Tame attempt o.own_pid o.own_name normal n))
      h
step-Sound attempt (receives i) n h =
    Tame-Sound n (step attempt (receives i) n)
      (on_mailbox-Tame i (λ b. after_receive b (receive b)) n) h
step-Sound attempt (lets_go uncaught i) n h =
    Tame-Sound n (destroy attempt uncaught i n) (destroy-Tame attempt uncaught i n) h
step-Sound attempt (links i pid) n h =
    Tame-Sound n (link_to attempt pid i n).0
      (with_object-Tame attempt (λ o n. dispatcher_for attempt (Policies.links o.own_pid pid) n) i n
        (λ o. dispatcher_for-Tame attempt (Policies.links o.own_pid pid) n))
      h
step-Sound attempt (unlinks i pid) n h =
    Tame-Sound n (unlink_from attempt pid i n).0
      (with_object-Tame attempt (λ o n. dispatcher_for attempt (Policies.unlinks o.own_pid pid) n) i
        n (λ o. dispatcher_for-Tame attempt (Policies.unlinks o.own_pid pid) n))
      h
step-Sound attempt (sends i msg pid) n h =
    Tame-Sound n (send attempt pid msg i n).0
      (with_object-Tame attempt (λ o n. deliver attempt msg pid n) i n
        (λ o. request-Tame attempt (control_msg_send msg pid) pid.node_name n))
      h
step-Sound attempt (sends_name i msg name) n h =
    Tame-Sound n (send_name attempt name msg i n).0
      (with_object-Tame attempt (λ o n. deliver_name msg name n) i n
        (λ o. receive_incoming_name-Tame msg name n))
      h
step-Sound attempt (sends_name_on i msg name node) n h =
    Tame-Sound n (send_name_on attempt name node msg i n).0
      (with_object-Tame attempt (λ o n. deliver_name_on attempt msg name node o.own_pid n) i n
        (λ o. request-Tame attempt (control_msg_reg_send msg name o.own_pid) node n))
      h
step-Sound attempt (publishes none) n h = h
step-Sound attempt (publishes (some c)) n h = h
step-Sound attempt (is_called c) n h = Tame-Sound n (call c n).0 (call-Tame c n) h

pub run-Sound : (ops : List ((MsgSeq → Attempt) × Op)) (n : Node) → Sound n → Sound (run ops n)
unfolding run
run-Sound [] n h = h
run-Sound ((attempt, op) ∷ ops) n h = run-Sound ops (step attempt op n) (step-Sound attempt op n h)

pub new_node-Sound : (name : MsgSeq) → Sound (new_node name)
unfolding find
new_node-Sound name = (
  (λ p i e. absurd (ground arith), λ p i e. absurd (ground arith)),
  (λ i p e. absurd (ground arith), (omega arith, omega arith)),
)
