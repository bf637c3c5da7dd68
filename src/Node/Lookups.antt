-- ===== src/Node/Lookups.antt =====
-- impl/actual_node.cpp: how a mailbox is found, and what is called on it.
use tinch_pp.Prelude.{
  ap, ℕ, ◌≡◌, ◌⊎◌, refl, true, List, [], ◌∷◌, ◌++◌, Option, none, some, arith, length, inl, inr,
  Option-cases, Bool-cases,
}
use tinch_pp.Types.{MsgSeq, EPid}
use tinch_pp.Maps.{Key, find, pid_key, name_key}
use tinch_pp.Mailbox.{on_incoming}
use tinch_pp.Node.{
  Node, MailboxObject, Ending, done, throws, get_elem?, modify, locks, fetch_mailbox, on_mailbox,
  receive_incoming, receive_incoming_name,
}

pub fetch_mailbox-cases :
    {K : Type 0} ⦃key : Key K⦄ (k : K) (m : List (K × ℕ)) (objects : List MailboxObject)
    → ((fetch_mailbox k m objects).1 ≡ none)
      ⊎ ((i : ℕ) × (((fetch_mailbox k m objects).1 ≡ some i)
            × ((find k m ≡ some i) × (locks objects i ≡ true))))
unfolding fetch_mailbox
fetch_mailbox-cases k m objects = elim (Option-cases (find k m)) [
  | inl e ↦ inl (ground arith)
  | inr (i, e) ↦ elim (Bool-cases (locks objects i)) [
    | inl l ↦ inr (i, (ground arith, (e, l)))
    | inr l ↦ inl (ground arith)
  ]
]

pub receive_incoming-looks_up :
    (msg : MsgSeq) (to : EPid) (n : Node) (o : Option ℕ)
    → (fetch_mailbox to n.mailboxes n.objects).1 ≡ o
    → receive_incoming msg to n ≡ elim o [
      | none ↦ (record n { mailboxes = (fetch_mailbox to n.mailboxes n.objects).0 }, throws)
      | some i ↦ (on_mailbox i (λ b. on_incoming b msg) n, done)
    ]
unfolding receive_incoming
receive_incoming-looks_up msg to n o e =
    ap
      (λ d. elim d as (λ _. Node × Ending) [
        | none ↦ (record n { mailboxes = (fetch_mailbox to n.mailboxes n.objects).0 }, throws)
        | some i ↦ (on_mailbox i (λ b. on_incoming b msg) n, done)
      ])
      e

pub receive_incoming_name-looks_up :
    (msg : MsgSeq) (to : MsgSeq) (n : Node) (o : Option ℕ)
    → (fetch_mailbox to n.registered_mailboxes n.objects).1 ≡ o
    → receive_incoming_name msg to n ≡ elim o [
      | none ↦ (
        record n { registered_mailboxes = (fetch_mailbox to n.registered_mailboxes n.objects).0 },
        throws,
      )
      | some i ↦ (on_mailbox i (λ b. on_incoming b msg) n, done)
    ]
unfolding receive_incoming_name
receive_incoming_name-looks_up msg to n o e =
    ap
      (λ d. elim d as (λ _. Node × Ending) [
        | none ↦ (
          record n { registered_mailboxes = (fetch_mailbox to n.registered_mailboxes n.objects).0 },
          throws,
        )
        | some i ↦ (on_mailbox i (λ b. on_incoming b msg) n, done)
      ])
      e

pub modify-append :
    (f : MailboxObject → MailboxObject) (xs : List MailboxObject) (o : MailboxObject)
    → get_elem? (modify (length xs) f (xs ++ (o ∷ []))) (length xs) ≡ some (f o)
modify-append f [] o = refl
modify-append f (x ∷ xs) o = modify-append f xs o
