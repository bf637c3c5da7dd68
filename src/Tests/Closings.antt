-- ===== src/Tests/Closings.antt =====
-- Mailboxes of linked nodes that are closed (impl/actual_node.cpp, impl/link_policies.cpp).
use tinch_pp.Prelude.{pair_beq}
use tinch_pp.Node.{incoming_exit2}
use tinch_pp.Node.{incoming_link}
use tinch_pp.Prelude.{
  ℕ, ◌≡◌, refl, true, false, [], ◌∷◌, some, none, arith, list_beq, bytes_eq, count,
}
use tinch_pp.Types.{EPid, pid_lt, pid_beq}
use tinch_pp.Maps.{find, bytes_lt, name_key, pid_key}
use tinch_pp.Spirit.Reference.{reference}
use tinch_pp.Terms.RoundTrip.{FitsPid}
use tinch_pp.Linker.{link_count}
use tinch_pp.Control.{ControlMsg}
use tinch_pp.Control.Builder.{execute}
use tinch_pp.Control.Dispatcher.{dispatch}
use tinch_pp.Connector.{handshake_success}
use tinch_pp.Node.{Node, done, throws, locks, receive_incoming_name}
use tinch_pp.Node.Mailboxes.{mailbox_object, close_mailbox, destroy, normal}
use tinch_pp.Node.Operations.{creates, creates_registered, run, step}
use tinch_pp.Node.Delivery.{node_after}
use tinch_pp.Node.Arrival.{acts_on}
use tinch_pp.Node.Notices.{reports}
use tinch_pp.Node.Closing.{close_mailbox-reports, close_mailbox-forgets}
use tinch_pp.Node.Failing.{close_mailbox-throws}
use tinch_pp.Node.Requests.{Asked}
use tinch_pp.Node.Exits.{remote_exit_arrives}
use tinch_pp.Node.Renaming.{name_lost}
use tinch_pp.Tests.Nodes.{this_node, offline, online, pid_of, two_mailboxes}

abbrev linked : Node
linked = record (node_after this_node two_mailboxes) {
  mailbox_linker = record { established_links = (pid_of 1, pid_of 2) ∷ [] };
}

close_mailbox-reports_example :
    (i : ℕ) × ((find (pid_of 2) linked.mailboxes ≡ some i)
      × (reports (close_mailbox offline (pid_of 1) [] normal linked).0.objects i normal (pid_of 1)
          ≡ true))
unfolding run close_mailbox pid_beq list_beq step incoming_link incoming_exit2 pid_lt link_count
    count pair_beq
close_mailbox-reports_example =
    close_mailbox-reports offline (pid_of 1) [] normal linked (pid_of 2) refl refl (omega arith)

close_mailbox-forgets_example :
    let n = (close_mailbox offline (pid_of 1) [] normal linked).0 in
    (find (pid_of 1) n.mailboxes ≡ none) × (find (b'x' ∷ []) n.registered_mailboxes ≡ some 1)
unfolding run close_mailbox pid_beq list_beq step incoming_link incoming_exit2 pid_lt bytes_lt
close_mailbox-forgets_example =
    close_mailbox-forgets offline (pid_of 1) [] normal linked (pid_of 1) (b'x' ∷ [])
      (refl, (refl, tt)) refl refl

-- The second of two peers has no mailbox.
abbrev dangling : Node
dangling = record (node_after this_node two_mailboxes) {
  mailbox_linker = record { established_links = (pid_of 1, pid_of 2) ∷ (pid_of 1, pid_of 9) ∷ [] };
}

close_mailbox-throws_example :
    let (n, ending) = close_mailbox offline (pid_of 1) [] normal dangling in
    (ending ≡ throws)
    × ((find (pid_of 1) n.mailboxes ≡ some 0)
        × (n.registered_mailboxes ≡ dangling.registered_mailboxes))
unfolding run list_beq step incoming_link pid_lt find link_count count pair_beq pid_beq
close_mailbox-throws_example =
    close_mailbox-throws offline (pid_of 1) (pid_of 9) [] normal dangling 0 (omega arith) refl refl
      refl refl

-- Two mailboxes were created with one name.
abbrev same_names : Node
same_names =
    node_after this_node
      ((offline, creates_registered (b'x' ∷ [])) ∷ (offline, creates_registered (b'x' ∷ [])) ∷ [])

name_lost_example :
    let n = destroy offline false 1 same_names in
    ((receive_incoming_name (7 ∷ []) (b'x' ∷ []) n).1 ≡ throws) × (locks n.objects 0 ≡ true)
unfolding run step bytes_lt
name_lost_example =
    name_lost offline 1 0 (mailbox_object (pid_of 2) (b'x' ∷ [])) same_names (7 ∷ []) refl refl refl
      refl (omega arith)

-- A node that another one is linked to.
abbrev far_pid : EPid
far_pid = record { node_name = b'b' ∷ []; id = 1; serial = 0; creation = 0 }

abbrev far_linked : Node
far_linked = record (node_after this_node two_mailboxes) {
  mailbox_linker = record { established_links = (pid_of 1, far_pid) ∷ [] };
}

abbrev far_node : Node
far_node = node_after (b'b' ∷ []) ((offline, creates) ∷ [])

first-FitsPid : FitsPid (pid_of 1)
first-FitsPid = record {
  name_fits = omega arith;
  id_fits = omega arith;
  serial_fits = omega arith;
  creation_fits = omega arith;
}

far-FitsPid : FitsPid far_pid
far-FitsPid = record {
  name_fits = omega arith;
  id_fits = omega arith;
  serial_fits = omega arith;
  creation_fits = omega arith;
}

remote_exit_arrives_example :
    (op : ControlMsg) × (Asked (close_mailbox online (pid_of 1) [] normal far_linked).0 op
      × (((acts_on (dispatch reference false (execute reference op)) far_node).1 ≡ done)
          × ((reports
                  (acts_on (dispatch reference false (execute reference op)) far_node).0.objects
                  0
                  normal
                  (pid_of 1)
                ≡ true)
              × (link_count
                    (acts_on
                      (dispatch reference false (execute reference op))
                      far_node).0.mailbox_linker
                    (pid_of 1)
                    far_pid
                  ≡ 0))))
unfolding run close_mailbox pid_beq list_beq step incoming_link handshake_success link_count count
    pair_beq pid_lt
remote_exit_arrives_example =
    remote_exit_arrives reference online (pid_of 1) far_pid [] normal far_linked far_node 0 refl
      refl (omega arith) first-FitsPid far-FitsPid (omega arith) refl refl
