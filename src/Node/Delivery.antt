-- ===== src/Node/Delivery.antt =====
-- impl/actual_node.cpp: where a message to a pid or to a name goes.
use tinch_pp.Prelude.{
  ap, ◌*◌, ◌%◌, ℕ, ◌+◌, ◌<◌, ◌^◌, ◌-◌, ◌≡◌, ◌⊎◌, true, List, [], none, some, arith, length, inl,
  inr, Option-cases, ◌∙◌,
}
use tinch_pp.Types.{MsgSeq, EPid}
use tinch_pp.Maps.{find, pid_key, name_key, find-insert}
use tinch_pp.Mailbox.{new_mailbox, on_incoming}
use tinch_pp.Pids.{make_pid}
use tinch_pp.Connector.{Attempt}
use tinch_pp.Node.{
  Node, new_node, done, throws, get_elem?, locks, fetch_mailbox, on_mailbox, receive_incoming,
  receive_incoming_name,
}
use tinch_pp.Node.Mailboxes.{create_mailbox, mailbox_object}
use tinch_pp.Node.Operations.{Op, run}
use tinch_pp.Node.Consistency.{has_pid, has_name, get_elem?-append}
use tinch_pp.Node.Numbering.{Sound, make_pid-At, not_taken}
use tinch_pp.Node.Invariant.{run-Sound, new_node-Sound}
use tinch_pp.Node.Lookups.{
  fetch_mailbox-cases, receive_incoming-looks_up, receive_incoming_name-looks_up, modify-append,
}

abbrev pub Ops : Type 0
Ops = List ((MsgSeq → Attempt) × Op)

-- A node after some operations.
abbrev pub node_after : MsgSeq → Ops → Node
node_after name ops = run ops (new_node name)

pub node_after-Sound : (name : MsgSeq) (ops : Ops) → Sound (node_after name ops)
node_after-Sound name ops = run-Sound ops (new_node name) (new_node-Sound name)

-- The outcome of a message to a pid.
receive_incoming-reaches :
    (name : MsgSeq) (ops : Ops) (msg : MsgSeq) (to : EPid)
    → let n = node_after name ops in
      let (n', ending) = receive_incoming msg to n in
      ((ending ≡ throws) × (n'.objects ≡ n.objects))
      ⊎ ((i : ℕ) × ((ending ≡ done)
            × ((has_pid n.objects i to ≡ true)
                × ((locks n.objects i ≡ true) × (n' ≡ on_mailbox i (λ b. on_incoming b msg) n)))))
receive_incoming-reaches name ops msg to =
    let n = node_after name ops in
    elim (fetch_mailbox-cases to n.mailboxes n.objects) [
      | inl e ↦
          let r = receive_incoming-looks_up msg to n none e in
          inl (ap (λ x. x.1) r, ap (λ x. x.0.objects) r)
      | inr (i, (e, (f, l))) ↦
          let r = receive_incoming-looks_up msg to n (some i) e in
          inr (i, (ap (λ x. x.1) r, ((node_after-Sound name ops).0.0 to i f, (l, ap (λ x. x.0) r))))
    ]

-- The outcome of a message to a registered name.
receive_incoming_name-reaches :
    (name : MsgSeq) (ops : Ops) (msg to : MsgSeq)
    → let n = node_after name ops in
      let (n', ending) = receive_incoming_name msg to n in
      ((ending ≡ throws) × (n'.objects ≡ n.objects))
      ⊎ ((i : ℕ) × ((ending ≡ done)
            × ((has_name n.objects i to ≡ true)
                × ((locks n.objects i ≡ true) × (n' ≡ on_mailbox i (λ b. on_incoming b msg) n)))))
receive_incoming_name-reaches name ops msg to =
    let n = node_after name ops in
    elim (fetch_mailbox-cases to n.registered_mailboxes n.objects) [
      | inl e ↦
          let r = receive_incoming_name-looks_up msg to n none e in
          inl (ap (λ x. x.1) r, ap (λ x. x.0.objects) r)
      | inr (i, (e, (f, l))) ↦
          let r = receive_incoming_name-looks_up msg to n (some i) e in
          inr (i, (ap (λ x. x.1) r, ((node_after-Sound name ops).0.1 to i f, (l, ap (λ x. x.0) r))))
    ]

-- After any operations of a node, a message to a pid, or to a registered name, either reaches exactly
-- one mailbox, which a client owns, and leaves the rest of the node as it is, or the call throws and
-- no mailbox is changed. The mailbox that is reached has a pid with the identifier and the serial
-- number of the given one, or has the given name.
pub messages_reach :
    (name : MsgSeq) (ops : Ops) (msg : MsgSeq) (to : EPid) (to_name : MsgSeq)
    → let n = node_after name ops in
      let (n', ending) = receive_incoming msg to n in
      let (n'', ending') = receive_incoming_name msg to_name n in
      (((ending ≡ throws) × (n'.objects ≡ n.objects))
        ⊎ ((i : ℕ) × ((ending ≡ done)
              × ((has_pid n.objects i to ≡ true)
                  × ((locks n.objects i ≡ true)
                      × (n' ≡ on_mailbox i (λ b. on_incoming b msg) n))))))
      × (((ending' ≡ throws) × (n''.objects ≡ n.objects))
          ⊎ ((i : ℕ) × ((ending' ≡ done)
                × ((has_name n.objects i to_name ≡ true)
                    × ((locks n.objects i ≡ true)
                        × (n'' ≡ on_mailbox i (λ b. on_incoming b msg) n))))))
messages_reach name ops msg to to_name =
    (receive_incoming-reaches name ops msg to, receive_incoming_name-reaches name ops msg to_name)

-- After any operations of a node, a pid under which a mailbox is entered has an identifier of 15 bits
-- and a serial number of 13 bits, and these are the digits of the number of the mailbox.
pub pids_bounded :
    (name : MsgSeq) (ops : Ops) (pid : EPid) (i : ℕ)
    → find pid (node_after name ops).mailboxes ≡ some i
    → (pid.id < 2 ^ 15)
      × ((pid.serial < 2 ^ 13) × (pid.serial * 2 ^ 15 + pid.id ≡ (1 + i) % 2 ^ 28))
pids_bounded name ops pid i e =
    let (c, (m, k)) = node_after-Sound name ops in
    let a = m i pid (c.0 pid i e) in
    (omega (arith, a.0), (omega (arith, a.1), omega (arith, a.0, a.1)))

-- The pid of the next mailbox.
abbrev pub next_pid : Node → EPid
next_pid n = (make_pid n.node_name n.pid_fields).0

find-next_pid :
    (n : Node) → Sound n → length n.objects < 2 ^ 28 → find (next_pid n) n.mailboxes ≡ none
unfolding make_pid
find-next_pid n ((h, g), (m, k)) l = elim (Option-cases (find (next_pid n) n.mailboxes)) [
  | inl e ↦ e
  | inr (i, e) ↦ absurd (
      ground (
        arith,
        pid_key.same_refl (next_pid n),
        h (next_pid n) i e,
        not_taken n.objects i (next_pid n) m
            (make_pid-At n.node_name n.pid_fields (length n.objects) k) l,
      ))
]

fetch_created :
    (n : Node)
    → Sound n
    → length n.objects < 2 ^ 28
    → (fetch_mailbox (next_pid n) (create_mailbox n).mailboxes (create_mailbox n).objects).1
      ≡ some (length n.objects)
unfolding create_mailbox fetch_mailbox
fetch_created n h l = ground (
  arith,
  pid_key.same_refl (next_pid n),
  find-insert (next_pid n) (next_pid n) (length n.objects) n.mailboxes,
  find-next_pid n h l,
  get_elem?-append n.objects (mailbox_object (next_pid n) []) (length n.objects),
)

-- After any operations of a node, by which fewer than 2 ^ 15 - 1 mailboxes were created, so that all
-- pids have one serial number and `operator <` orders them, a mailbox that is created receives a
-- message to its pid: the call is done, and the message is the only one in the mailbox, which is
-- ready.
pub created_receives :
    (name : MsgSeq) (ops : Ops) (msg : MsgSeq)
    → length (node_after name ops).objects < 2 ^ 15 - 1
    → let n = node_after name ops in
      let (n', ending) = receive_incoming msg (next_pid n) (create_mailbox n) in
      (ending ≡ done)
      × (get_elem? n'.objects (length n.objects)
          ≡ some
              (record (mailbox_object (next_pid n) []) { content = on_incoming new_mailbox msg }))
unfolding create_mailbox
created_receives name ops msg l =
    let n = node_after name ops in
    let r =
      receive_incoming-looks_up msg (next_pid n) (create_mailbox n) (some (length n.objects))
        (fetch_created n (node_after-Sound name ops) (omega (arith, l))) in
    (
      ap (λ x. x.1) r,
      ap (λ x. get_elem? x.0.objects (length n.objects)) r
          ∙ modify-append (λ o. record o { content = on_incoming o.content msg }) n.objects
              (mailbox_object (next_pid n) []),
    )
