-- ===== src/Node/Tameness.antt =====
-- impl/actual_node.cpp: which operations leave the pids and the names of the mailboxes as they are.
use tinch_pp.Prelude.{
  ℕ, ◌≡◌, refl, true, false, not, List, [], ◌∷◌, ◌++◌, Option, none, some, arith, if◌then◌else◌,
  ◌==◌, bytes_eq,
}
use tinch_pp.Types.{MsgSeq, EPid}
use tinch_pp.Maps.{Key, find, pid_key, name_key, find-erase}
use tinch_pp.Mailbox.{Mailbox, on_incoming, on_link_broken}
use tinch_pp.Linker.{Request, unlink}
use tinch_pp.Control.{
  ControlMsg, control_msg_link, control_msg_unlink, control_msg_exit, control_msg_exit2,
}
use tinch_pp.Control.Dispatcher.{NodeCall}
use tinch_pp.Connector.{Attempt, connect_to}
use tinch_pp.Node.{
  Node, MailboxObject, Ending, done, throws, ◌andthen◌, modify, fetch_mailbox, on_mailbox,
  receive_incoming, receive_incoming_name, incoming_link, incoming_unlink, incoming_exit,
  incoming_exit2, request,
}
use tinch_pp.Node.Policies.{
  LinkOperation, links, unlinks, exits, exits2, on_same_node, on_remote_node, dispatcher_for,
  notify_all, operation_of, call, target,
}
use tinch_pp.Node.Consistency.{
  Tame, refl-Tame, trans-Tame, has_pid-modify, has_name-modify, length-modify,
}

fetch_mailbox-submap :
    {K : Type 0} ⦃key : Key K⦄ (k : K) (m : List (K × ℕ)) (objects : List MailboxObject) (j : K)
    (i : ℕ)
    → find j (fetch_mailbox k m objects).0 ≡ some i
    → find j m ≡ some i
unfolding fetch_mailbox
fetch_mailbox-submap k m objects j i e = ground (arith, find-erase j k m)

pub modify-Tame :
    (f : MailboxObject → MailboxObject) (i : ℕ) (n : Node)
    → ((o : MailboxObject) → (f o).own_pid ≡ o.own_pid)
    → ((o : MailboxObject) → (f o).own_name ≡ o.own_name)
    → Tame n (record n { objects = modify i f n.objects })
modify-Tame f i n h g = (
  (refl, length-modify f i n.objects),
  (
    λ j p. has_pid-modify f n.objects j i p h,
    (λ j p. has_name-modify f n.objects j i p g, (λ p i e. e, λ p i e. e)),
  ),
)

pub on_mailbox-Tame : (i : ℕ) (f : Mailbox → Mailbox) (n : Node) → Tame n (on_mailbox i f n)
on_mailbox-Tame i f n =
    modify-Tame (λ o. record o { content = f o.content }) i n (λ o. refl) (λ o. refl)

pub andthen-Tame :
    (n : Node) (r : Node × Ending) (k : Node → Node × Ending)
    → Tame n r.0
    → ((m : Node) → Tame m (k m).0)
    → Tame n (r andthen k).0
andthen-Tame n (m, done) k h g = trans-Tame n m (k m).0 h (g m)
andthen-Tame n (m, throws) k h g = h

-- Where a call looks a mailbox up, it ends in one of two nodes.
by_lookup-Tame :
    (n thrown : Node) (found : ℕ → Node) (o : Option ℕ)
    → Tame n thrown
    → ((i : ℕ) → Tame n (found i))
    → Tame n
        (elim o as (λ _. Node × Ending) [ none ↦ (thrown, throws) | some i ↦ (found i, done) ]).0
by_lookup-Tame n thrown found none h g = h
by_lookup-Tame n thrown found (some i) h g = g i

fetched_pid-Tame :
    (to : EPid) (n : Node)
    → Tame n (record n { mailboxes = (fetch_mailbox to n.mailboxes n.objects).0 })
fetched_pid-Tame to n = (
  (refl, refl),
  (
    λ i p. refl,
    (λ i p. refl, (λ p i e. fetch_mailbox-submap to n.mailboxes n.objects p i e, λ p i e. e)),
  ),
)

pub receive_incoming-Tame :
    (msg : MsgSeq) (to : EPid) (n : Node) → Tame n (receive_incoming msg to n).0
unfolding receive_incoming
receive_incoming-Tame msg to n =
    by_lookup-Tame n (record n { mailboxes = (fetch_mailbox to n.mailboxes n.objects).0 })
      (λ i. on_mailbox i (λ b. on_incoming b msg) n) (fetch_mailbox to n.mailboxes n.objects).1
      (fetched_pid-Tame to n) (λ i. on_mailbox-Tame i (λ b. on_incoming b msg) n)

pub receive_incoming_name-Tame :
    (msg : MsgSeq) (to : MsgSeq) (n : Node) → Tame n (receive_incoming_name msg to n).0
unfolding receive_incoming_name
receive_incoming_name-Tame msg to n =
    by_lookup-Tame n
      (record n { registered_mailboxes = (fetch_mailbox to n.registered_mailboxes n.objects).0 })
      (λ i. on_mailbox i (λ b. on_incoming b msg) n)
      (fetch_mailbox to n.registered_mailboxes n.objects).1
      (
        (refl, refl),
        (
          λ i p. refl,
          (
            λ i p. refl,
            (λ p i e. e, λ p i e. fetch_mailbox-submap to n.registered_mailboxes n.objects p i e),
          ),
        ),
      )
      (λ i. on_mailbox-Tame i (λ b. on_incoming b msg) n)

incoming_exit-Tame :
    (from to : EPid) (reason : MsgSeq) (n : Node) → Tame n (incoming_exit from to reason n).0
unfolding incoming_exit
incoming_exit-Tame from to reason n =
    by_lookup-Tame n (record n { mailboxes = (fetch_mailbox to n.mailboxes n.objects).0 })
      (λ i. record (on_mailbox i (λ b. on_link_broken b reason from) n) {
        mailbox_linker = unlink n.mailbox_linker from to;
      })
      (fetch_mailbox to n.mailboxes n.objects).1 (fetched_pid-Tame to n)
      (λ i. on_mailbox-Tame i (λ b. on_link_broken b reason from) n)

pub call-Tame : (c : NodeCall) (n : Node) → Tame n (call c n).0
unfolding call incoming_link incoming_unlink incoming_exit2
call-Tame (NodeCall.receive_incoming msg to) n = receive_incoming-Tame msg to n
call-Tame (NodeCall.receive_incoming_name msg to) n = receive_incoming_name-Tame msg to n
call-Tame (NodeCall.incoming_link from to) n = refl-Tame n
call-Tame (NodeCall.incoming_unlink from to) n = refl-Tame n
call-Tame (NodeCall.incoming_exit from to reason) n = incoming_exit-Tame from to reason n
call-Tame (NodeCall.incoming_exit2 from to reason) n = incoming_exit-Tame from to reason n

pub on_same_node-Tame : (op : LinkOperation) (n : Node) → Tame n (on_same_node op n).0
unfolding incoming_link incoming_unlink incoming_exit2
on_same_node-Tame (links from to) n = refl-Tame n
on_same_node-Tame (unlinks from to) n = refl-Tame n
on_same_node-Tame (exits from to reason) n = incoming_exit-Tame from to reason n
on_same_node-Tame (exits2 from to reason) n = incoming_exit-Tame from to reason n

module _ (attempt : MsgSeq → Attempt) where
  pub request-Tame :
      (op : ControlMsg) (destination : MsgSeq) (n : Node)
      → Tame n (request attempt op destination n).0
  unfolding request
  request-Tame op destination n =
      by_lookup-Tame n
        (record n { connector = (connect_to (attempt destination) destination n.connector).0 })
        (λ c. record n {
          connector = (connect_to (attempt destination) destination n.connector).0;
          requested = n.requested ++ ((c, op) ∷ []);
        })
        (connect_to (attempt destination) destination n.connector).1 (refl-Tame n)
        (λ c. refl-Tame n)

  pub on_remote_node-Tame : (op : LinkOperation) (n : Node) → Tame n (on_remote_node attempt op n).0
  unfolding on_remote_node incoming_link incoming_unlink
  on_remote_node-Tame (links from to) n =
      andthen-Tame n (request attempt (control_msg_link from to) to.node_name n)
        (incoming_link from to) (request-Tame (control_msg_link from to) to.node_name n)
        (λ m. refl-Tame m)
  on_remote_node-Tame (unlinks from to) n =
      andthen-Tame n (incoming_unlink from to n)
        (request attempt (control_msg_unlink from to) to.node_name) (refl-Tame n)
        (λ m. request-Tame (control_msg_unlink from to) to.node_name m)
  on_remote_node-Tame (exits from to reason) n =
      request-Tame (control_msg_exit from to reason) to.node_name n
  on_remote_node-Tame (exits2 from to reason) n =
      request-Tame (control_msg_exit2 from to reason) to.node_name n

  pub dispatcher_for-Tame : (op : LinkOperation) (n : Node) → Tame n (dispatcher_for attempt op n).0
  unfolding dispatcher_for
  dispatcher_for-Tame op n =
      elim (not ((target op).node_name == n.node_name))
        as (λ b. Tame n (if b then on_remote_node attempt op n else on_same_node op n).0) [
          | true ↦ on_remote_node-Tame op n
          | false ↦ on_same_node-Tame op n
        ]

  pub notify_all-Tame : (rs : List Request) (n : Node) → Tame n (notify_all attempt rs n).0
  unfolding notify_all
  notify_all-Tame [] n = refl-Tame n
  notify_all-Tame (r ∷ rs) n =
      andthen-Tame n (dispatcher_for attempt (operation_of r) n) (notify_all attempt rs)
        (dispatcher_for-Tame (operation_of r) n) (notify_all-Tame rs)
