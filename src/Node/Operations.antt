-- ===== src/Node/Operations.antt =====
-- impl/actual_node.cpp: what can happen to a node, from its clients, its connections and its thread.
-- Each operation comes with what the network answers while it runs.
use tinch_pp.Prelude.{ℕ, Bool, List, [], ◌∷◌, Option, none, some}
use tinch_pp.Types.{MsgSeq, EPid}
use tinch_pp.Mailbox.{Mailbox, Received, receive}
use tinch_pp.Control.Dispatcher.{NodeCall}
use tinch_pp.Connector.{Attempt}
use tinch_pp.Node.{Node, on_mailbox}
use tinch_pp.Node.Policies.{call}
use tinch_pp.Node.Mailboxes.{
  create_mailbox, create_registered, close, destroy, run_posted, link_to, unlink_from, send,
  send_name, send_name_on, ping_peer, recover, publish_port,
}

pub data Op : Type 0 where
  creates runs_posted : Op
  creates_registered recovers pings : MsgSeq → Op
  closes receives : ℕ → Op
  lets_go : Bool → ℕ → Op
  links unlinks : ℕ → EPid → Op
  sends : ℕ → MsgSeq → EPid → Op
  sends_name : ℕ → MsgSeq → MsgSeq → Op
  sends_name_on : ℕ → MsgSeq → MsgSeq → MsgSeq → Op
  is_called : NodeCall → Op
  publishes : Option ℕ → Op

abbrev pub after_receive : Mailbox → Option (Mailbox × Received) → Mailbox
after_receive b none = b
after_receive b (some (b', r)) = b'

unfoldable pub step : (MsgSeq → Attempt) → Op → Node → Node
unfolding create_mailbox create_registered destroy run_posted publish_port ping_peer recover call
    receive
step attempt creates n = create_mailbox n
step attempt runs_posted n = run_posted attempt n
step attempt (creates_registered name) n = create_registered name n
step attempt (recovers node) n = recover node n
step attempt (pings peer) n = (ping_peer attempt peer n).0
step attempt (closes i) n = (close attempt i n).0
step attempt (receives i) n = on_mailbox i (λ b. after_receive b (receive b)) n
step attempt (lets_go uncaught i) n = destroy attempt uncaught i n
step attempt (links i pid) n = (link_to attempt pid i n).0
step attempt (unlinks i pid) n = (unlink_from attempt pid i n).0
step attempt (sends i msg pid) n = (send attempt pid msg i n).0
step attempt (sends_name i msg name) n = (send_name attempt name msg i n).0
step attempt (sends_name_on i msg name node) n = (send_name_on attempt name node msg i n).0
step attempt (is_called c) n = (call c n).0
step attempt (publishes creation) n = (publish_port creation n).0

unfoldable pub run : List ((MsgSeq → Attempt) × Op) → Node → Node
run [] n = n
run ((attempt, op) ∷ ops) n = run ops (step attempt op n)
