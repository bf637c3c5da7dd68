-- ===== src/Node/Exits.antt =====
-- The exit of a process on one node, as a mailbox on another node sees it (impl/actual_node.cpp,
-- impl/linker.cpp, impl/ext_message_builder.cpp, impl/ctrl_msg_dispatcher.cpp).
use tinch_pp.Prelude.{
  ℕ, ◌<◌, ◌≡◌, ◌∙◌, true, false, List, some, arith, ap, subst, sym, beq_refl, ◌==◌, bytes_eq,
}
use tinch_pp.Types.{MsgSeq, EPid, pid_eq}
use tinch_pp.Maps.{find, pid_key}
use tinch_pp.Spirit.{Spirit}
use tinch_pp.Terms.RoundTrip.{FitsPid, FitsAtom}
use tinch_pp.Linker.{link_count, close_links_for_local, on_broken_links, remove_links_from}
use tinch_pp.Linker.Counts.{count-remove_links_from, link_count-unlink}
use tinch_pp.Control.{ControlMsg, control_msg_exit2}
use tinch_pp.Control.Builder.{execute}
use tinch_pp.Control.Dispatcher.{dispatch}
use tinch_pp.Control.RoundTrip.{FitsControl, received_as, dispatch-execute}
use tinch_pp.Connector.{Attempt}
use tinch_pp.Node.{Node, MailboxObject, done, locks, fetch_mailbox, incoming_exit, incoming_exit2}
use tinch_pp.Node.Policies.{notify_all, call}
use tinch_pp.Node.Mailboxes.{close_mailbox, remove}
use tinch_pp.Node.Arrival.{acts_on}
use tinch_pp.Node.Notices.{reports, incoming_exit-looks_up, broken-reports}
use tinch_pp.Node.Closing.{andthen-done, notices}
use tinch_pp.Node.Requests.{Asked, notify_all-requests}

fetch_mailbox-found :
    (pid : EPid) (m : List (EPid × ℕ)) (objects : List MailboxObject) (i : ℕ)
    → find pid m ≡ some i
    → locks objects i ≡ true
    → (fetch_mailbox pid m objects).1 ≡ some i
unfolding fetch_mailbox
fetch_mailbox-found pid m objects i e l = ground arith

-- The notice arrives at an open mailbox.
incoming_exit-reports :
    (from to : EPid) (reason : MsgSeq) (n : Node) (i : ℕ)
    → find to n.mailboxes ≡ some i
    → locks n.objects i ≡ true
    → ((incoming_exit from to reason n).1 ≡ done)
      × ((reports (incoming_exit from to reason n).0.objects i reason from ≡ true)
          × (link_count (incoming_exit from to reason n).0.mailbox_linker from to ≡ 0))
incoming_exit-reports from to reason n i e l =
    let r =
      incoming_exit-looks_up from to reason n (some i)
        (fetch_mailbox-found to n.mailboxes n.objects i e l) in
    (
      ap (λ z. z.1) r,
      (
        ap (λ z. reports z.0.objects i reason from) r ∙ broken-reports n.objects i reason from l,
        ap (λ z. link_count z.0.mailbox_linker from to) r
            ∙ ground (
              arith,
              link_count-unlink n.mailbox_linker from to from to,
              beq_refl pid_eq from,
              beq_refl pid_eq to,
            ),
      ),
    )

close_mailbox-asks :
    (attempt : MsgSeq → Attempt) (id peer : EPid) (name reason : MsgSeq) (n : Node)
    → (close_mailbox attempt id name reason n).1 ≡ done
    → (peer.node_name == n.node_name) ≡ false
    → 0 < link_count n.mailbox_linker id peer
    → Asked (close_mailbox attempt id name reason n).0 (control_msg_exit2 id peer reason)
unfolding close_mailbox close_links_for_local on_broken_links remove
close_mailbox-asks attempt id peer name reason n h q c =
    let peers = (remove_links_from n.mailbox_linker id).1 in
    let n1 : Node = record n { mailbox_linker = (remove_links_from n.mailbox_linker id).0 } in
    let (d, (e, d')) =
      andthen-done (notify_all attempt (notices id reason peers) n1) (remove id name) h in
    subst (λ z. Asked z.0 (control_msg_exit2 id peer reason)) (sym e)
      ((notify_all-requests attempt id reason peers n1 d).1 peer q
        (omega (arith, count-remove_links_from id n.mailbox_linker peer, c)))

module _ (sp : Spirit) where
  -- A mailbox of one node is closed, where it is linked to a process of another node, and the pids
  -- and the reason fit their fields. If the closing is done, it has handed an exit to a connection.
  -- Where `char` is unsigned, the other node takes from its bytes a call that is done if it has an
  -- open mailbox for the process. That mailbox then has the broken link to report, with the closed
  -- process and the reason, and the two are not linked there any more.
  pub remote_exit_arrives :
      (attempt : MsgSeq → Attempt) (id peer : EPid) (name reason : MsgSeq) (closing other : Node)
      (i : ℕ)
      → (close_mailbox attempt id name reason closing).1 ≡ done
      → (peer.node_name == closing.node_name) ≡ false
      → 0 < link_count closing.mailbox_linker id peer
      → FitsPid id
      → FitsPid peer
      → FitsAtom reason
      → find peer other.mailboxes ≡ some i
      → locks other.objects i ≡ true
      → (op : ControlMsg) × (Asked (close_mailbox attempt id name reason closing).0 op
          × (((acts_on (dispatch sp false (execute sp op)) other).1 ≡ done)
              × ((reports (acts_on (dispatch sp false (execute sp op)) other).0.objects i reason id
                    ≡ true)
                  × (link_count
                        (acts_on (dispatch sp false (execute sp op)) other).0.mailbox_linker
                        id
                        peer
                      ≡ 0))))
  unfolding FitsControl received_as call incoming_exit2
  remote_exit_arrives attempt id peer name reason closing other i h q c f g a e l =
      let op : ControlMsg = control_msg_exit2 id peer reason in
      let (d, (r, u)) = incoming_exit-reports id peer reason other i e l in
      let s = ap (λ o. acts_on o other) (dispatch-execute sp op (f, g, a)) in
      (
        op,
        (
          close_mailbox-asks attempt id peer name reason closing h q c,
          (
            ap (λ z. z.1) s ∙ d,
            (
              ap (λ z. reports z.0.objects i reason id) s ∙ r,
              ap (λ z. link_count z.0.mailbox_linker id peer) s ∙ u,
            ),
          ),
        ),
      )
