-- ===== src/Node.antt =====
-- impl/actual_node.h, impl/actual_node.cpp, impl/link_policies.cpp: a node with its mailboxes, its links
-- and its connections. The maps of mailboxes hold weak pointers: a mailbox is a number, the position
-- of its object in the order of creation, and an object whose owner has let it go is expired.
-- The operations come one after the other. The code does not make each of them one step: `create_mailbox`
-- makes the pid before it takes `mailboxes_lock`, and `close_mailbox` takes the lock of the links, then
-- `mailboxes_lock` for each notice and again for the removal; what other threads do in between is not
-- modelled. What a connection is asked to send is recorded.
pub mod Policies
pub mod Mailboxes
pub mod Operations
pub mod Consistency
pub mod Tameness
pub mod Numbering
pub mod Ordering
pub mod Lifetimes
pub mod Invariant
pub mod Lookups
pub mod Delivery
pub mod Arrival
pub mod Notices
pub mod Closing
pub mod Failing
pub mod Renaming
pub mod Requests
pub mod Exits
use tinch_pp.Prelude.{
  ℕ, suc, zero, ◌+◌, Bool, true, false, List, [], ◌∷◌, ◌++◌, Option, none, some, length,
  if◌then◌else◌,
}
use tinch_pp.Types.{MsgSeq, EPid}
use tinch_pp.Maps.{Key, find, erase, pid_key, name_key}
use tinch_pp.Mailbox.{Mailbox, on_incoming, on_link_broken}
use tinch_pp.Linker.{Linker, new_linker, link, unlink}
use tinch_pp.Pids.{PidFields, initial_fields}
use tinch_pp.Control.{ControlMsg}
use tinch_pp.Connector.{Connector, new_connector, Attempt, connect_to}

-- An `actual_mailbox`, and whether a client still owns it.
pub record MailboxObject : Type 0 where
  pub own_pid : EPid
  pub own_name : MsgSeq
  pub content : Mailbox
  pub is_owned : Bool

pub record Node : Type 0 where
  pub node_name : MsgSeq
  pub pid_fields : PidFields
  pub mailboxes : List (EPid × ℕ)
  pub registered_mailboxes : List (MsgSeq × ℕ)
  pub mailbox_linker : Linker
  pub connector : Connector
  -- All mailboxes that were created, the operations that connections were asked to send, in order,
  -- and the calls of `close_mailbox` that wait in the `io_service`.
  pub objects : List MailboxObject
  pub requested : List (ℕ × ControlMsg)
  pub posted : List (EPid × (MsgSeq × MsgSeq))

abbrev pub new_node : MsgSeq → Node
new_node a_node_name = record {
  node_name = a_node_name;
  pid_fields = initial_fields;
  mailboxes = [];
  registered_mailboxes = [];
  mailbox_linker = new_linker;
  connector = new_connector;
  objects = [];
  requested = [];
  posted = [];
}

-- How an operation ends; the state that it has reached stays when it throws.
pub data Ending : Type 0 where
  done throws : Ending

infixl 30 ◌andthen◌
abbrev pub ◌andthen◌ : Node × Ending → (Node → Node × Ending) → Node × Ending
(n, done) andthen k = k n
(n, throws) andthen k = (n, throws)

abbrev pub get_elem? {ℓ} : {A : Type ℓ} → List A → ℕ → Option A
get_elem? [] i = none
get_elem? (x ∷ xs) zero = some x
get_elem? (x ∷ xs) (suc i) = get_elem? xs i

abbrev pub modify {ℓ} : {A : Type ℓ} → ℕ → (A → A) → List A → List A
modify i f [] = []
modify zero f (x ∷ xs) = f x ∷ xs
modify (suc i) f (x ∷ xs) = x ∷ modify i f xs

-- `weak_ptr::lock` yields the object.
abbrev pub locks : List MailboxObject → ℕ → Bool
locks objects i = elim (get_elem? objects i) [ none ↦ false | some o ↦ o.is_owned ]

-- The map that is left, and the mailbox; without one, the exception is thrown.
unfoldable pub fetch_mailbox :
    {K : Type 0} ⦃key : Key K⦄ → K → List (K × ℕ) → List MailboxObject → List (K × ℕ) × Option ℕ
unfolding find erase
fetch_mailbox name registered_mboxes objects = elim (find name registered_mboxes) [
  | none ↦ (registered_mboxes, none)
  | some i ↦
      if locks objects i then (registered_mboxes, some i) else (erase name registered_mboxes, none)
]

-- A call on one mailbox.
abbrev pub on_mailbox : ℕ → (Mailbox → Mailbox) → Node → Node
on_mailbox i f n = record n {
  objects = modify i (λ o. record o { content = f o.content }) n.objects;
}

unfoldable pub receive_incoming : MsgSeq → EPid → Node → Node × Ending
unfolding fetch_mailbox
receive_incoming msg to n =
    let (mailboxes, destination) = fetch_mailbox to n.mailboxes n.objects in
    elim destination [
      | none ↦ (record n { mailboxes = mailboxes }, throws)
      | some i ↦ (on_mailbox i (λ b. on_incoming b msg) n, done)
    ]

unfoldable pub receive_incoming_name : MsgSeq → MsgSeq → Node → Node × Ending
unfolding fetch_mailbox
receive_incoming_name msg to n =
    let (registered_mailboxes, destination) = fetch_mailbox to n.registered_mailboxes n.objects in
    elim destination [
      | none ↦ (record n { registered_mailboxes = registered_mailboxes }, throws)
      | some i ↦ (on_mailbox i (λ b. on_incoming b msg) n, done)
    ]

unfoldable pub incoming_link : EPid → EPid → Node → Node × Ending
incoming_link from to n = (record n { mailbox_linker = link n.mailbox_linker from to }, done)

unfoldable pub incoming_unlink : EPid → EPid → Node → Node × Ending
incoming_unlink from to n = (record n { mailbox_linker = unlink n.mailbox_linker from to }, done)

unfoldable pub incoming_exit : EPid → EPid → MsgSeq → Node → Node × Ending
unfolding fetch_mailbox
incoming_exit from to reason n =
    let (mailboxes, linked_mailbox) = fetch_mailbox to n.mailboxes n.objects in
    elim linked_mailbox [
      | none ↦ (record n { mailboxes = mailboxes }, throws)
      | some i ↦ (
        record (on_mailbox i (λ b. on_link_broken b reason from) n) {
          mailbox_linker = unlink n.mailbox_linker from to;
        },
        done,
      )
    ]

unfoldable pub incoming_exit2 : EPid → EPid → MsgSeq → Node → Node × Ending
unfolding incoming_exit
incoming_exit2 from to reason n = incoming_exit from to reason n

-- What the network answers when the node connects to a peer is an argument.
module _ (attempt : MsgSeq → Attempt) where
  -- `actual_node::request`, and the common end of the deliveries.
  unfoldable pub request : ControlMsg → MsgSeq → Node → Node × Ending
  unfolding connect_to
  request distributed_operation destination n =
      let (connector, connection) = connect_to (attempt destination) destination n.connector in
      elim connection [
        | none ↦ (record n { connector = connector }, throws)
        | some c ↦ (
          record n {
            connector = connector;
            requested = n.requested ++ ((c, distributed_operation) ∷ []);
          },
          done,
        )
      ]
