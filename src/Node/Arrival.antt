-- ===== src/Node/Arrival.antt =====
-- A message from a mailbox of one node to a mailbox of another, through the bytes of the protocol
-- (impl/actual_node.cpp, impl/ext_message_builder.cpp, impl/ctrl_msg_dispatcher.cpp).
use tinch_pp.Prelude.{
  ℕ, ◌<◌, ◌^◌, ◌-◌, ◌≡◌, false, [], ◌∷◌, ◌++◌, Option, none, some, length, inl, inr, Option-cases,
  ap, ◌∙◌,
}
use tinch_pp.Types.{MsgSeq}
use tinch_pp.Spirit.{Spirit}
use tinch_pp.Terms.RoundTrip.{FitsPid}
use tinch_pp.Mailbox.{new_mailbox, on_incoming}
use tinch_pp.Control.{ControlMsg, control_msg_send}
use tinch_pp.Control.Builder.{execute}
use tinch_pp.Control.Dispatcher.{NodeCall, Outcome, returns, throws, reads_past_end, dispatch}
use tinch_pp.Control.RoundTrip.{FitsControl, received_as, dispatch-execute}
use tinch_pp.Connector.{Attempt, connect_to}
use tinch_pp.Node
use tinch_pp.Node.{Node, Ending, done, get_elem?, request}
use tinch_pp.Node.Policies.{deliver, call}
use tinch_pp.Node.Mailboxes.{create_mailbox, mailbox_object}
use tinch_pp.Node.Delivery.{Ops, node_after, next_pid, created_receives}

-- A node acts on what a message was dispatched as.
abbrev pub acts_on : Outcome NodeCall → Node → Node × Ending
acts_on (returns c) n = call c n
acts_on throws n = (n, Node.throws)
acts_on reads_past_end n = (n, Node.throws)

pub request-looks_up :
    (attempt : MsgSeq → Attempt) (op : ControlMsg) (to : MsgSeq) (n : Node) (o : Option ℕ)
    → (connect_to (attempt to) to n.connector).1 ≡ o
    → request attempt op to n ≡ elim o [
      | none ↦ (record n { connector = (connect_to (attempt to) to n.connector).0 }, Node.throws)
      | some c ↦ (
        record n {
          connector = (connect_to (attempt to) to n.connector).0;
          requested = n.requested ++ ((c, op) ∷ []);
        },
        done,
      )
    ]
unfolding request
request-looks_up attempt op to n o e =
    ap
      (λ d. elim d as (λ _. Node × Ending) [
        | none ↦ (record n { connector = (connect_to (attempt to) to n.connector).0 }, Node.throws)
        | some c ↦ (
          record n {
            connector = (connect_to (attempt to) to n.connector).0;
            requested = n.requested ++ ((c, op) ∷ []);
          },
          done,
        )
      ])
      e

pub request-done :
    (attempt : MsgSeq → Attempt) (op : ControlMsg) (to : MsgSeq) (n : Node)
    → (request attempt op to n).1 ≡ done
    → (c : ℕ) × ((request attempt op to n).0.requested ≡ n.requested ++ ((c, op) ∷ []))
request-done attempt op to n h = elim (Option-cases (connect_to (attempt to) to n.connector).1) [
  | inl e ↦ absurd (cc (h, request-looks_up attempt op to n none e))
  | inr (c, e) ↦ (c, ap (λ r. r.0.requested) (request-looks_up attempt op to n (some c) e))
]

module _ (sp : Spirit) where
  -- A message is delivered from one node to a mailbox that was just created on another, where `char`
  -- is unsigned, and fewer than 2 ^ 15 - 1 mailboxes were created there before, so that all pids have one serial
  -- number and `operator <` orders them. If the delivery is done,
  -- exactly one operation is handed to a connection. From its bytes the other node takes a call that
  -- is done, and the mailbox then holds exactly that message.
  pub sent_arrives :
      (attempt : MsgSeq → Attempt) (sender : Node) (name : MsgSeq) (ops : Ops) (msg : MsgSeq)
      → length (node_after name ops).objects < 2 ^ 15 - 1
      → FitsPid (next_pid (node_after name ops))
      → (deliver attempt msg (next_pid (node_after name ops)) sender).1 ≡ done
      → let n = node_after name ops in
        (c : ℕ) × ((op : ControlMsg) × (((deliver attempt msg (next_pid n) sender).0.requested
              ≡ sender.requested ++ ((c, op) ∷ []))
            × (((acts_on (dispatch sp false (execute sp op)) (create_mailbox n)).1 ≡ done)
                × (get_elem?
                      (acts_on (dispatch sp false (execute sp op)) (create_mailbox n)).0.objects
                      (length n.objects)
                    ≡ some (record (mailbox_object (next_pid n) []) {
                      content = on_incoming new_mailbox msg;
                    })))))
  unfolding deliver FitsControl received_as call
  sent_arrives attempt sender name ops msg l f h =
      let n = node_after name ops in
      let op : ControlMsg = control_msg_send msg (next_pid n) in
      let (c, e) = request-done attempt op (next_pid n).node_name sender h in
      let (d, g) = created_receives name ops msg l in
      let r = ap (λ o. acts_on o (create_mailbox n)) (dispatch-execute sp op f) in
      (
        c,
        (op, (e, (ap (λ x. x.1) r ∙ d, ap (λ x. get_elem? x.0.objects (length n.objects)) r ∙ g))),
      )
