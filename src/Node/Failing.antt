-- ===== src/Node/Failing.antt =====
-- impl/actual_node.cpp, impl/linker.cpp: a mailbox whose closing throws on the way.
use tinch_pp.Prelude.{
  ℕ, zero, suc, ◌<◌, ◌≡◌, refl, true, false, List, [], ◌∷◌, none, some, arith, if◌then◌else◌, inl,
  inr, ap, ◌∙◌, ◌==◌, ◌⊎◌, bytes_eq, subst, sym, not, Option-cases,
}
use tinch_pp.Types.{MsgSeq, EPid}
use tinch_pp.Maps.{find, pid_key, find-erase, find-same}
use tinch_pp.Mailbox.{on_link_broken}
use tinch_pp.Linker.{close_links_for_local, on_broken_links, remove_links_from, link_count}
use tinch_pp.Linker.Counts.{count-remove_links_from}
use tinch_pp.Connector.{Attempt, connect_to}
use tinch_pp.Control.{ControlMsg, control_msg_exit2}
use tinch_pp.Node.{
  Node, MailboxObject, Ending, done, throws, ◌andthen◌, locks, modify, fetch_mailbox, incoming_exit,
  incoming_exit2, request,
}
use tinch_pp.Node.Policies.{exits2, dispatcher_for, notify_all, on_remote_node}
use tinch_pp.Node.Mailboxes.{remove, close_mailbox}
use tinch_pp.Node.Notices.{incoming_exit-looks_up}
use tinch_pp.Node.Arrival.{request-looks_up}
use tinch_pp.Node.Closing.{notices, notify_all-done}

locks-modify :
    (f : MailboxObject → MailboxObject) (objects : List MailboxObject) (i j : ℕ)
    → ((o : MailboxObject) → (f o).is_owned ≡ o.is_owned)
    → locks (modify i f objects) j ≡ locks objects j
locks-modify f [] i j h = refl
locks-modify f (x ∷ xs) zero zero h = h x
locks-modify f (x ∷ xs) zero (suc j) h = refl
locks-modify f (x ∷ xs) (suc i) zero h = refl
locks-modify f (x ∷ xs) (suc i) (suc j) h = locks-modify f xs i j h

fetch_mailbox-keeps :
    (k q : EPid) (m : List (EPid × ℕ)) (objects : List MailboxObject) (i : ℕ)
    → find q m ≡ some i
    → locks objects i ≡ true
    → find q (fetch_mailbox k m objects).0 ≡ some i
unfolding fetch_mailbox
fetch_mailbox-keeps k q m objects i e l = elim (Option-cases (find k m)) [
  | inl none_there ↦ ground (arith, none_there)
  | inr (j, there) ↦ ground (arith, there, find-erase q k m, find-same k q m)
]

-- What is left of the maps, however the calls end: the names, and the pids of mailboxes that a client
-- owns.
abbrev Keeps : Node → Node → Type 0
Keeps n n' =
    ((n'.registered_mailboxes ≡ n.registered_mailboxes) × (n'.node_name ≡ n.node_name))
    × ((q : EPid) (i : ℕ)
        → find q n.mailboxes ≡ some i
        → locks n.objects i ≡ true
        → (find q n'.mailboxes ≡ some i) × (locks n'.objects i ≡ true))

refl-Keeps : (n : Node) → Keeps n n
refl-Keeps n = ((refl, refl), λ q i e l. (e, l))

trans-Keeps : (n m l : Node) → Keeps n m → Keeps m l → Keeps n l
trans-Keeps n m l ((a, b), h) ((a', b'), h') =
    ((a' ∙ a, b' ∙ b), λ q i e g. h' q i (h q i e g).0 (h q i e g).1)

incoming_exit-Keeps :
    (from to : EPid) (reason : MsgSeq) (n : Node) → Keeps n (incoming_exit from to reason n).0
incoming_exit-Keeps from to reason n =
    elim (Option-cases (fetch_mailbox to n.mailboxes n.objects).1) [
      | inl e ↦
          subst (λ r. Keeps n r.0) (sym (incoming_exit-looks_up from to reason n none e))
            ((refl, refl), λ q i f l. (fetch_mailbox-keeps to q n.mailboxes n.objects i f l, l))
      | inr (j, e) ↦
          subst (λ r. Keeps n r.0) (sym (incoming_exit-looks_up from to reason n (some j) e))
            (
              (refl, refl),
              λ q i f l. (
                f,
                locks-modify (λ o. record o { content = on_link_broken o.content reason from })
                      n.objects j i (λ o. refl)
                    ∙ l,
              ),
            )
    ]

ends : (e : Ending) → (e ≡ done) ⊎ (e ≡ throws)
ends done = inl refl
ends throws = inr refl

andthen-throws : (r : Node × Ending) (k : Node → Node × Ending) → r.1 ≡ throws → (r andthen k) ≡ r
andthen-throws (n, done) k h = absurd (cc h)
andthen-throws (n, throws) k h = refl

andthen-Keeps :
    (n : Node) (r : Node × Ending) (k : Node → Node × Ending)
    → Keeps n r.0
    → ((m : Node) → Keeps m (k m).0)
    → Keeps n (r andthen k).0
andthen-Keeps n (m, done) k h g = trans-Keeps n m (k m).0 h (g m)
andthen-Keeps n (m, throws) k h g = h

module _ (attempt : MsgSeq → Attempt) where
  request-Keeps : (op : ControlMsg) (to : MsgSeq) (n : Node) → Keeps n (request attempt op to n).0
  request-Keeps op to n = elim (Option-cases (connect_to (attempt to) to n.connector).1) [
    | inl e ↦
        subst (λ r. Keeps n r.0) (sym (request-looks_up attempt op to n none e)) (refl-Keeps n)
    | inr (c, e) ↦
        subst (λ r. Keeps n r.0) (sym (request-looks_up attempt op to n (some c) e)) (refl-Keeps n)
  ]

  exit2-Keeps :
      (from to : EPid) (reason : MsgSeq) (n : Node)
      → Keeps n (dispatcher_for attempt (exits2 from to reason) n).0
  unfolding dispatcher_for on_remote_node incoming_exit2
  exit2-Keeps from to reason n =
      elim (to.node_name == n.node_name)
        as (λ b.
          Keeps n
            (if not b
              then on_remote_node attempt (exits2 from to reason) n
              else incoming_exit from to reason n).0) [
                | true ↦ incoming_exit-Keeps from to reason n
                | false ↦ request-Keeps (control_msg_exit2 from to reason) to.node_name n
              ]

  notify_all-Keeps :
      (id : EPid) (reason : MsgSeq) (peers : List EPid) (n : Node)
      → Keeps n (notify_all attempt (notices id reason peers) n).0
  unfolding notify_all
  notify_all-Keeps id reason [] n = refl-Keeps n
  notify_all-Keeps id reason (x ∷ xs) n =
      andthen-Keeps n (dispatcher_for attempt (exits2 id x reason) n)
        (notify_all attempt (notices id reason xs)) (exit2-Keeps id x reason n)
        (notify_all-Keeps id reason xs)

  -- Closing a mailbox that a client owns and that is linked to a process of the same node that has
  -- no mailbox, among whatever other links, throws, and the mailbox is still entered under its pid,
  -- and all names are still registered.
  pub close_mailbox-throws :
      (id peer : EPid) (name reason : MsgSeq) (n : Node) (i : ℕ)
      → 0 < link_count n.mailbox_linker id peer
      → (peer.node_name == n.node_name) ≡ true
      → find peer n.mailboxes ≡ none
      → find id n.mailboxes ≡ some i
      → locks n.objects i ≡ true
      → let (n', ending) = close_mailbox attempt id name reason n in
        (ending ≡ throws)
        × ((find id n'.mailboxes ≡ some i) × (n'.registered_mailboxes ≡ n.registered_mailboxes))
  unfolding close_mailbox close_links_for_local on_broken_links
  close_mailbox-throws id peer name reason n i c q f e l =
      let peers = (remove_links_from n.mailbox_linker id).1 in
      let n1 : Node = record n { mailbox_linker = (remove_links_from n.mailbox_linker id).0 } in
      let notified : Node × Ending = notify_all attempt (notices id reason peers) n1 in
      let (a, h) = notify_all-Keeps id reason peers n1 in
      elim (ends notified.1) [
        | inl finished ↦
            let (j, (g, r)) =
              (notify_all-done attempt id reason peers n1 finished).1 peer q
                (omega (arith, count-remove_links_from id n.mailbox_linker peer, c)) in
            absurd (cc (f, g))
        | inr thrown ↦
            let s = andthen-throws notified (remove id name) thrown in
            (
              ap (λ x. x.1) s ∙ thrown,
              (
                ap (λ x. find id x.0.mailboxes) s ∙ (h id i e l).0,
                ap (λ x. x.0.registered_mailboxes) s ∙ a.0,
              ),
            )
      ]
