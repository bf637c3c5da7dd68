-- ===== src/Node/Lifetimes.antt =====
-- impl/actual_node.cpp, impl/actual_mailbox.cpp: how mailboxes come and go.
use tinch_pp.Prelude.{
  ℕ, ◌≡◌, refl, Bool, true, false, List, [], ◌∷◌, none, some, length, arith, if◌then◌else◌,
}
use tinch_pp.Types.{MsgSeq, EPid}
use tinch_pp.Maps.{find, erase, pid_key, name_key, find-erase}
use tinch_pp.Linker.{close_links_for_local}
use tinch_pp.Pids.{make_pid}
use tinch_pp.Connector.{Attempt}
use tinch_pp.Node.{Node, MailboxObject, Ending, done, get_elem?, modify}
use tinch_pp.Node.Policies.{notify_all}
use tinch_pp.Node.Mailboxes.{
  mailbox_object, create_mailbox, create_registered, remove, close_mailbox, close_mailbox_async,
  normal, with_object, destroy, run_first,
}
use tinch_pp.Node.Consistency.{
  Tame, refl-Tame, trans-Tame, insert-PidsAgree, insert-NamesAgree, append-NamesAgree,
}
use tinch_pp.Node.Numbering.{Sound, append-Numbered, make_pid-At, make_pid-Counts}
use tinch_pp.Node.Tameness.{modify-Tame, andthen-Tame, notify_all-Tame}

pub create_mailbox-Sound : (n : Node) → Sound n → Sound (create_mailbox n)
unfolding create_mailbox
create_mailbox-Sound n ((h, g), (m, k)) =
    let o : MailboxObject = mailbox_object (make_pid n.node_name n.pid_fields).0 [] in
    (
      (
        insert-PidsAgree n.mailboxes n.objects o h,
        append-NamesAgree n.registered_mailboxes n.objects o g,
      ),
      (
        append-Numbered n.objects o m (make_pid-At n.node_name n.pid_fields (length n.objects) k),
        make_pid-Counts n.node_name n.pid_fields n.objects o k,
      ),
    )

pub create_registered-Sound :
    (name : MsgSeq) (n : Node) → Sound n → Sound (create_registered name n)
unfolding create_registered
create_registered-Sound name n ((h, g), (m, k)) =
    let o : MailboxObject = mailbox_object (make_pid n.node_name n.pid_fields).0 name in
    (
      (
        insert-PidsAgree n.mailboxes n.objects o h,
        insert-NamesAgree n.registered_mailboxes n.objects o g,
      ),
      (
        append-Numbered n.objects o m (make_pid-At n.node_name n.pid_fields (length n.objects) k),
        make_pid-Counts n.node_name n.pid_fields n.objects o k,
      ),
    )

erase-submap_pid :
    (k : EPid) (m : List (EPid × ℕ)) (p : EPid) (i : ℕ)
    → find p (erase k m) ≡ some i
    → find p m ≡ some i
erase-submap_pid k m p i e = ground (arith, find-erase p k m)

erase-submap_name :
    (k : MsgSeq) (m : List (MsgSeq × ℕ)) (p : MsgSeq) (i : ℕ)
    → find p (erase k m) ≡ some i
    → find p m ≡ some i
erase-submap_name k m p i e = ground (arith, find-erase p k m)

remove-Tame : (id : EPid) (name : MsgSeq) (n : Node) → Tame n (remove id name n).0
unfolding remove
remove-Tame id name n = (
  (refl, refl),
  (
    λ i p. refl,
    (
      λ i p. refl,
      (
        λ p i e. erase-submap_pid id n.mailboxes p i e,
        λ p i e. erase-submap_name name n.registered_mailboxes p i e,
      ),
    ),
  ),
)

module _ (attempt : MsgSeq → Attempt) where
  pub close_mailbox-Tame :
      (id : EPid) (name reason : MsgSeq) (n : Node)
      → Tame n (close_mailbox attempt id name reason n).0
  unfolding close_mailbox
  close_mailbox-Tame id name reason n =
      let linker = (close_links_for_local n.mailbox_linker id reason).0 in
      let requests = (close_links_for_local n.mailbox_linker id reason).1 in
      andthen-Tame n (notify_all attempt requests (record n { mailbox_linker = linker }))
        (remove id name) (notify_all-Tame attempt requests (record n { mailbox_linker = linker }))
        (remove-Tame id name)

  pub with_object-Tame :
      (f : MailboxObject → Node → Node × Ending) (i : ℕ) (n : Node)
      → ((o : MailboxObject) → Tame n (f o n).0)
      → Tame n (with_object attempt f i n).0
  with_object-Tame f i n h =
      elim (get_elem? n.objects i)
        as (λ g.
          Tame n
            (elim g as (λ _. Node × Ending) [
              | none ↦ (n, done)
              | some o ↦ if o.is_owned then f o n else (n, done)
            ]).0) [
              | none ↦ refl-Tame n
              | some o ↦ elim o.is_owned as (λ b. Tame n (if b then f o n else (n, done)).0) [
                | true ↦ h o
                | false ↦ refl-Tame n
              ]
            ]

  pub run_first-Tame :
      (posted : List (EPid × (MsgSeq × MsgSeq))) (n : Node) → Tame n (run_first attempt posted n)
  run_first-Tame [] n = refl-Tame n
  run_first-Tame ((id, (name, reason)) ∷ rest) n =
      close_mailbox-Tame id name reason (record n { posted = rest })

  pub destroy-Tame : (uncaught : Bool) (i : ℕ) (n : Node) → Tame n (destroy attempt uncaught i n)
  unfolding destroy close_mailbox_async
  destroy-Tame uncaught i n =
      let n' : Node = record n {
        objects = modify i (λ o. record o { is_owned = false }) n.objects;
      } in
      let h = modify-Tame (λ o. record o { is_owned = false }) i n (λ o. refl) (λ o. refl) in
      elim (get_elem? n.objects i)
        as (λ g. Tame n (elim g as (λ _. Node) [
          | none ↦ n
          | some o ↦
              if o.is_owned
              then if uncaught
                then close_mailbox_async o.own_pid o.own_name n'
                else (close_mailbox attempt o.own_pid o.own_name normal n').0
              else n
        ])) [
          | none ↦ refl-Tame n
          | some o ↦
              elim o.is_owned
                as (λ b. Tame n (
                  if b
                  then if uncaught
                    then close_mailbox_async o.own_pid o.own_name n'
                    else (close_mailbox attempt o.own_pid o.own_name normal n').0
                  else n)) [
                    | false ↦ refl-Tame n
                    | true ↦
                        elim uncaught
                          as (λ b. Tame n (
                            if b
                            then close_mailbox_async o.own_pid o.own_name n'
                            else (close_mailbox attempt o.own_pid o.own_name normal n').0)) [
                              | true ↦ h
                              | false ↦
                                  trans-Tame n n'
                                    (close_mailbox attempt o.own_pid o.own_name normal n').0 h
                                    (close_mailbox-Tame o.own_pid o.own_name normal n')
                            ]
                  ]
        ]
