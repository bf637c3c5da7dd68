-- ===== src/Node/Renaming.antt =====
-- impl/actual_node.cpp, impl/actual_mailbox.cpp: two mailboxes that were given one name.
use tinch_pp.Prelude.{
  ℕ, suc, zero, ◌≡◌, ◌≢◌, refl, true, false, List, [], ◌∷◌, map, none, some, arith, ap, ◌∙◌,
}
use tinch_pp.Types.{MsgSeq, EPid}
use tinch_pp.Maps.{find, erase, name_key, find-erase}
use tinch_pp.Linker.{
  request_exit2, close_links_for_local, on_broken_links, remove_links_from, remove_links_loop,
}
use tinch_pp.Connector.{Attempt}
use tinch_pp.Node.{
  Node, MailboxObject, throws, ◌andthen◌, get_elem?, modify, locks, fetch_mailbox,
  receive_incoming_name,
}
use tinch_pp.Node.Policies.{notify_all}
use tinch_pp.Node.Mailboxes.{remove, close_mailbox, destroy, normal}
use tinch_pp.Node.Lookups.{receive_incoming_name-looks_up}

locks-modify :
    (f : MailboxObject → MailboxObject) (objects : List MailboxObject) (i j : ℕ)
    → j ≢ i
    → locks (modify i f objects) j ≡ locks objects j
locks-modify f [] i j h = refl
locks-modify f (x ∷ xs) zero zero h = absurd (h refl)
locks-modify f (x ∷ xs) zero (suc j) h = refl
locks-modify f (x ∷ xs) (suc i) zero h = refl
locks-modify f (x ∷ xs) (suc i) (suc j) h = locks-modify f xs i j (λ e. h (ap suc e))

fetch_mailbox-erased :
    (name : MsgSeq) (m : List (MsgSeq × ℕ)) (objects : List MailboxObject)
    → (fetch_mailbox name (erase name m) objects).1 ≡ none
unfolding fetch_mailbox
fetch_mailbox-erased name m objects =
    ground (arith, find-erase name name m, name_key.same_refl name)

module _ (attempt : MsgSeq → Attempt) where
  -- Without links, closing only removes the two entries.
  close_unlinked :
      (id : EPid) (name reason : MsgSeq) (n : Node)
      → n.mailbox_linker.established_links ≡ []
      → close_mailbox attempt id name reason n
        ≡ remove id name (record n { mailbox_linker = (remove_links_from n.mailbox_linker id).0 })
  unfolding close_mailbox close_links_for_local on_broken_links remove_links_from remove_links_loop
      notify_all
  close_unlinked id name reason n e =
      ap
        (λ links.
          notify_all attempt
            (map (λ peer. request_exit2 id peer reason) (remove_links_loop id links).1)
            (record n { mailbox_linker = (remove_links_from n.mailbox_linker id).0 })
          andthen remove id name)
        e

  destroy-closes :
      (i : ℕ) (o : MailboxObject) (n : Node)
      → get_elem? n.objects i ≡ some o
      → o.is_owned ≡ true
      → destroy attempt false i n
        ≡ (close_mailbox attempt o.own_pid o.own_name normal
            (record n { objects = modify i (λ p. record p { is_owned = false }) n.objects })).0
  unfolding destroy
  destroy-closes i o n e h = ground arith

  -- On a node without links, a name is entered for one mailbox, and another mailbox that was given the
  -- same name is let go. Then a message to the name throws, though the mailbox that it is entered for
  -- is as alive as before.
  pub name_lost :
      (i j : ℕ) (o : MailboxObject) (n : Node) (msg : MsgSeq)
      → get_elem? n.objects i ≡ some o
      → o.is_owned ≡ true
      → n.mailbox_linker.established_links ≡ []
      → find o.own_name n.registered_mailboxes ≡ some j
      → j ≢ i
      → let n' = destroy attempt false i n in
        ((receive_incoming_name msg o.own_name n').1 ≡ throws)
        × (locks n'.objects j ≡ locks n.objects j)
  unfolding remove
  name_lost i j o n msg e h l f d =
      let m : Node = record n {
        objects = modify i (λ p. record p { is_owned = false }) n.objects;
      } in
      let r =
        destroy-closes i o n e h ∙ ap (λ z. z.0) (close_unlinked o.own_pid o.own_name normal m l) in
      let closed =
        (remove o.own_pid o.own_name
          (record m { mailbox_linker = (remove_links_from m.mailbox_linker o.own_pid).0 })).0 in
      (
        ap (λ z. (receive_incoming_name msg o.own_name z).1) r
            ∙ ap (λ z. z.1)
                (receive_incoming_name-looks_up msg o.own_name closed none
                  (fetch_mailbox-erased o.own_name n.registered_mailboxes m.objects)),
        ap (λ z. locks z.objects j) r
            ∙ locks-modify (λ p. record p { is_owned = false }) n.objects i j d,
      )
