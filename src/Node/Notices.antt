-- ===== src/Node/Notices.antt =====
-- impl/actual_node.cpp, impl/link_policies.cpp: the notice of an exit, on the same and on another node.
use tinch_pp.Prelude.{
  ℕ, suc, zero, ◌≡◌, refl, Bool, true, false, not, ◌||◌, List, [], ◌∷◌, ◌++◌, Option, none, some,
  arith, if◌then◌else◌, inl, inr, Option-cases, ap, ◌∙◌, Eq, ◌==◌, bytes_eq, pair_beq, pair_beq_iff,
  contains, subst, sym, beq_refl,
}
use tinch_pp.Types.{MsgSeq, EPid, pid_eq}
use tinch_pp.Maps.{find, pid_key, name_key}
use tinch_pp.Mailbox.{on_link_broken}
use tinch_pp.Linker.{unlink}
use tinch_pp.Control.{ControlMsg, control_msg_exit2}
use tinch_pp.Connector.{Attempt, connect_to}
use tinch_pp.Node.{
  Node, MailboxObject, Ending, done, throws, get_elem?, modify, locks, fetch_mailbox, on_mailbox,
  incoming_exit, incoming_exit2, request,
}
use tinch_pp.Node.Policies.{exits2, dispatcher_for, on_remote_node}
use tinch_pp.Node.Lookups.{fetch_mailbox-cases}
use tinch_pp.Node.Arrival.{request-looks_up}

instance abbrev pub broken_link_eq : Eq (MsgSeq × EPid)
broken_link_eq = record { beq = pair_beq bytes_eq pid_eq; beq_iff = pair_beq_iff bytes_eq pid_eq }

-- A mailbox has a broken link to a process to report, for a reason.
abbrev pub reports : List MailboxObject → ℕ → MsgSeq → EPid → Bool
reports objects i reason pid = elim (get_elem? objects i) [
  | none ↦ false
  | some o ↦ contains (reason, pid) o.content.broken_links
]

contains-append :
    (a b : MsgSeq × EPid) (xs : List (MsgSeq × EPid))
    → contains a (xs ++ (b ∷ [])) ≡ contains a xs || (b == a)
unfolding contains
contains-append a b [] = ground arith
contains-append a b (x ∷ xs) = ground (arith, contains-append a b xs)

reports-broken :
    (objects : List MailboxObject) (i j : ℕ) (reason : MsgSeq) (pid : EPid) (r : MsgSeq) (p : EPid)
    → reports objects j r p ≡ true
    → reports
        (modify i (λ o. record o { content = on_link_broken o.content reason pid }) objects)
        j
        r
        p
      ≡ true
unfolding on_link_broken
reports-broken [] i j reason pid r p h = h
reports-broken (x ∷ xs) zero zero reason pid r p h =
    ground (arith, contains-append (r, p) (reason, pid) x.content.broken_links)
reports-broken (x ∷ xs) zero (suc j) reason pid r p h = h
reports-broken (x ∷ xs) (suc i) zero reason pid r p h = h
reports-broken (x ∷ xs) (suc i) (suc j) reason pid r p h = reports-broken xs i j reason pid r p h

pub broken-reports :
    (objects : List MailboxObject) (i : ℕ) (reason : MsgSeq) (pid : EPid)
    → locks objects i ≡ true
    → reports
        (modify i (λ o. record o { content = on_link_broken o.content reason pid }) objects)
        i
        reason
        pid
      ≡ true
unfolding on_link_broken
broken-reports [] i reason pid h = absurd (ground arith)
broken-reports (x ∷ xs) zero reason pid h = ground (
  arith,
  contains-append (reason, pid) (reason, pid) x.content.broken_links,
  beq_refl broken_link_eq (reason, pid),
)
broken-reports (x ∷ xs) (suc i) reason pid h = broken-reports xs i reason pid h

-- What a notification leaves: the maps and the name are as they were, and reports only come.
abbrev pub Steady : Node → Node → Type 0
Steady n n' =
    ((n'.mailboxes ≡ n.mailboxes)
      × ((n'.registered_mailboxes ≡ n.registered_mailboxes) × (n'.node_name ≡ n.node_name)))
    × ((i : ℕ) (r : MsgSeq) (p : EPid)
        → reports n.objects i r p ≡ true
        → reports n'.objects i r p ≡ true)

pub trans-Steady : (n m l : Node) → Steady n m → Steady m l → Steady n l
trans-Steady n m l ((a, (b, c)), h) ((a', (b', c')), h') =
    ((a' ∙ a, (b' ∙ b, c' ∙ c)), λ i r p e. h' i r p (h i r p e))

pub incoming_exit-looks_up :
    (from to : EPid) (reason : MsgSeq) (n : Node) (o : Option ℕ)
    → (fetch_mailbox to n.mailboxes n.objects).1 ≡ o
    → incoming_exit from to reason n ≡ elim o [
      | none ↦ (record n { mailboxes = (fetch_mailbox to n.mailboxes n.objects).0 }, throws)
      | some i ↦ (
        record (on_mailbox i (λ b. on_link_broken b reason from) n) {
          mailbox_linker = unlink n.mailbox_linker from to;
        },
        done,
      )
    ]
unfolding incoming_exit
incoming_exit-looks_up from to reason n o e =
    ap
      (λ d. elim d as (λ _. Node × Ending) [
        | none ↦ (record n { mailboxes = (fetch_mailbox to n.mailboxes n.objects).0 }, throws)
        | some i ↦ (
          record (on_mailbox i (λ b. on_link_broken b reason from) n) {
            mailbox_linker = unlink n.mailbox_linker from to;
          },
          done,
        )
      ])
      e

-- Where a mailbox is found under a pid, it has the report.
abbrev pub Reported : Node → EPid → MsgSeq → List (EPid × ℕ) → EPid → Type 0
Reported n' from reason mailboxes to =
    (i : ℕ) × ((find to mailboxes ≡ some i) × (reports n'.objects i reason from ≡ true))

incoming_exit-done :
    (from to : EPid) (reason : MsgSeq) (n : Node)
    → (incoming_exit from to reason n).1 ≡ done
    → Steady n (incoming_exit from to reason n).0
      × Reported (incoming_exit from to reason n).0 from reason n.mailboxes to
incoming_exit-done from to reason n h = elim (fetch_mailbox-cases to n.mailboxes n.objects) [
  | inl e ↦ absurd (cc (h, incoming_exit-looks_up from to reason n none e))
  | inr (i, (e, (f, l))) ↦
      subst (λ r. Steady n r.0 × Reported r.0 from reason n.mailboxes to)
        (sym (incoming_exit-looks_up from to reason n (some i) e))
        (
          ((refl, (refl, refl)), λ j r p g. reports-broken n.objects i j reason from r p g),
          (i, (f, broken-reports n.objects i reason from l)),
        )
]

module _ (attempt : MsgSeq → Attempt) where
  request-Steady : (op : ControlMsg) (to : MsgSeq) (n : Node) → Steady n (request attempt op to n).0
  request-Steady op to n = elim (Option-cases (connect_to (attempt to) to n.connector).1) [
    | inl e ↦
        subst (λ r. Steady n r.0) (sym (request-looks_up attempt op to n none e))
          ((refl, (refl, refl)), λ i r p g. g)
    | inr (c, e) ↦
        subst (λ r. Steady n r.0) (sym (request-looks_up attempt op to n (some c) e))
          ((refl, (refl, refl)), λ i r p g. g)
  ]

  -- One EXIT2: it is steady, and a mailbox on the same node has the report.
  pub exit2-done :
      (from to : EPid) (reason : MsgSeq) (n : Node)
      → (dispatcher_for attempt (exits2 from to reason) n).1 ≡ done
      → Steady n (dispatcher_for attempt (exits2 from to reason) n).0
        × ((to.node_name == n.node_name) ≡ true
            → Reported
                (dispatcher_for attempt (exits2 from to reason) n).0
                from
                reason
                n.mailboxes
                to)
  unfolding dispatcher_for on_remote_node incoming_exit2
  exit2-done from to reason n =
      elim (to.node_name == n.node_name)
        as (λ b.
          (if not b
              then on_remote_node attempt (exits2 from to reason) n
              else incoming_exit from to reason n).1
            ≡ done
          → Steady n
              (if not b
                then on_remote_node attempt (exits2 from to reason) n
                else incoming_exit from to reason n).0
            × (b ≡ true
                → Reported
                    (if not b
                      then on_remote_node attempt (exits2 from to reason) n
                      else incoming_exit from to reason n).0
                    from reason n.mailboxes to)) [
                      | true ↦
                          λ h. let (s, r) = incoming_exit-done from to reason n h in (s, λ _. r)
                      | false ↦ λ h. (
                        request-Steady (control_msg_exit2 from to reason) to.node_name n,
                        λ e. absurd (ground arith),
                      )
                    ]
