-- ===== src/Tests/Nodes.antt =====
-- A node with a few mailboxes (impl/actual_node.cpp).
use tinch_pp.Prelude.{not, ◌*◌, ◌%◌, ◌+◌}
use tinch_pp.Node.{incoming_link}
use tinch_pp.Prelude.{
  ℕ, ◌<◌, ◌^◌, ◌≡◌, ◌⊎◌, refl, true, false, [], ◌∷◌, some, arith, list_beq, bytes_eq,
}
use tinch_pp.Types.{MsgSeq, EPid, pid_lt}
use tinch_pp.Maps.{find, name_key, pid_key}
use tinch_pp.Spirit.Reference.{reference}
use tinch_pp.Terms.RoundTrip.{FitsPid}
use tinch_pp.Mailbox.{new_mailbox, on_incoming}
use tinch_pp.Pids.{make_pid}
use tinch_pp.Control.{ControlMsg}
use tinch_pp.Control.Builder.{execute}
use tinch_pp.Control.Dispatcher.{dispatch}
use tinch_pp.Connector.{Attempt, shakes, unreachable, handshake_success}
use tinch_pp.Node.{
  new_node, done, throws, get_elem?, locks, on_mailbox, receive_incoming, receive_incoming_name,
}
use tinch_pp.Node.Policies.{deliver}
use tinch_pp.Node.Mailboxes.{create_mailbox, create_registered, mailbox_object}
use tinch_pp.Node.Operations.{creates, creates_registered, links, run, step}
use tinch_pp.Node.Consistency.{has_pid, has_name}
use tinch_pp.Node.Delivery.{
  Ops, node_after, next_pid, messages_reach, pids_bounded, created_receives,
}
use tinch_pp.Node.Ordering.{pids_ordered}
use tinch_pp.Node.Arrival.{acts_on, sent_arrives}

abbrev pub this_node : MsgSeq
this_node = b'a' ∷ []

abbrev pub offline : MsgSeq → Attempt
offline peer = unreachable

abbrev pub online : MsgSeq → Attempt
online peer = shakes true

abbrev pub pid_of : ℕ → EPid
pid_of n = record { node_name = this_node; id = n; serial = 0; creation = 0 }

-- Two mailboxes, one of them with a name, and a link between them.
abbrev pub two_mailboxes : Ops
two_mailboxes =
    (offline, creates)
    ∷ (offline, creates_registered (b'x' ∷ []))
    ∷ (offline, links 0 (pid_of 2))
    ∷ []

messages_reach_example :
    let n = node_after this_node two_mailboxes in
    let (n', ending) = receive_incoming (7 ∷ []) (pid_of 2) n in
    let (n'', ending') = receive_incoming_name (7 ∷ []) (b'x' ∷ []) n in
    (((ending ≡ throws) × (n'.objects ≡ n.objects))
      ⊎ ((i : ℕ) × ((ending ≡ done)
            × ((has_pid n.objects i (pid_of 2) ≡ true)
                × ((locks n.objects i ≡ true)
                    × (n' ≡ on_mailbox i (λ b. on_incoming b (7 ∷ [])) n))))))
    × (((ending' ≡ throws) × (n''.objects ≡ n.objects))
        ⊎ ((i : ℕ) × ((ending' ≡ done)
              × ((has_name n.objects i (b'x' ∷ []) ≡ true)
                  × ((locks n.objects i ≡ true)
                      × (n'' ≡ on_mailbox i (λ b. on_incoming b (7 ∷ [])) n))))))
messages_reach_example = messages_reach this_node two_mailboxes (7 ∷ []) (pid_of 2) (b'x' ∷ [])

pids_bounded_example :
    ((pid_of 2).id < 2 ^ 15)
    × (((pid_of 2).serial < 2 ^ 13)
        × ((pid_of 2).serial * 2 ^ 15 + (pid_of 2).id ≡ (1 + 1) % 2 ^ 28))
unfolding find run step list_beq incoming_link pid_lt
pids_bounded_example = pids_bounded this_node two_mailboxes (pid_of 2) 1 refl

pids_ordered_example : pid_lt (pid_of 1) (pid_of 2) ≡ not (pid_lt (pid_of 2) (pid_of 1))
unfolding run step create_mailbox create_registered list_beq incoming_link find pid_lt
pids_ordered_example =
    pids_ordered this_node two_mailboxes (pid_of 1) (pid_of 2) 0 1 (omega arith) refl refl refl

created_receives_example :
    let n = node_after this_node two_mailboxes in
    let (n', ending) = receive_incoming (7 ∷ []) (next_pid n) (create_mailbox n) in
    (ending ≡ done)
    × (get_elem? n'.objects 2
        ≡ some (record (mailbox_object (next_pid n) []) {
          content = on_incoming new_mailbox (7 ∷ []);
        }))
unfolding run step create_mailbox create_registered list_beq incoming_link
created_receives_example = created_receives this_node two_mailboxes (7 ∷ []) (omega arith)

next-FitsPid : FitsPid (next_pid (node_after this_node []))
unfolding run make_pid
next-FitsPid = record {
  name_fits = omega arith;
  id_fits = omega arith;
  serial_fits = omega arith;
  creation_fits = omega arith;
}

sent_arrives_example :
    let n = node_after this_node [] in
    (c : ℕ) × ((op : ControlMsg) × (((deliver online
            (7 ∷ [])
            (next_pid n)
            (new_node (b'b' ∷ []))).0.requested
          ≡ (c, op) ∷ [])
        × (((acts_on (dispatch reference false (execute reference op)) (create_mailbox n)).1 ≡ done)
            × (get_elem?
                  (acts_on
                    (dispatch reference false (execute reference op))
                    (create_mailbox n)).0.objects
                  0
                ≡ some (record (mailbox_object (next_pid n) []) {
                  content = on_incoming new_mailbox (7 ∷ []);
                })))))
unfolding run deliver find handshake_success
sent_arrives_example =
    sent_arrives reference online (new_node (b'b' ∷ [])) this_node [] (7 ∷ []) (omega arith)
      next-FitsPid refl
