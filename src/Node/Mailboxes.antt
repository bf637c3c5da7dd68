-- ===== src/Node/Mailboxes.antt =====
-- impl/actual_node.cpp, impl/actual_mailbox.cpp: the life of a mailbox, and its calls on the node.
use tinch_pp.Prelude.{
  ℕ, Bool, true, false, List, [], ◌∷◌, ◌++◌, Option, none, some, length, if◌then◌else◌,
}
use tinch_pp.Types.{MsgSeq, EPid}
use tinch_pp.Maps.{insert, erase, pid_key, name_key}
use tinch_pp.Mailbox.{new_mailbox}
use tinch_pp.Linker.{close_links_for_local}
use tinch_pp.Pids.{make_pid}
use tinch_pp.Connector.{Attempt, drop_connection_to, connect_to, trigger_accept}
use tinch_pp.Node.{Node, MailboxObject, Ending, done, throws, ◌andthen◌, get_elem?, modify}
use tinch_pp.Node.Policies.{
  notify_all, dispatcher_for, links, unlinks, deliver, deliver_name, deliver_name_on,
}

abbrev pub mailbox_object : EPid → MsgSeq → MailboxObject
mailbox_object pid name = record {
  own_pid = pid;
  own_name = name;
  content = new_mailbox;
  is_owned = true;
}

-- Where the pid is in the map already, the entry that is there stays, and an assertion fails.
-- The pid is made without the lock; no other thread makes one in between.
unfoldable pub create_mailbox : Node → Node
unfolding make_pid insert
create_mailbox n =
    let (pid, fields) = make_pid n.node_name n.pid_fields in
    record n {
      pid_fields = fields;
      mailboxes = insert pid (length n.objects) n.mailboxes;
      objects = n.objects ++ (mailbox_object pid [] ∷ []);
    }

-- Where the name is taken, its entry stays, and the new mailbox has its pid only.
unfoldable pub create_registered : MsgSeq → Node → Node
unfolding make_pid insert
create_registered registered_name n =
    let (pid, fields) = make_pid n.node_name n.pid_fields in
    record n {
      pid_fields = fields;
      mailboxes = insert pid (length n.objects) n.mailboxes;
      registered_mailboxes = insert registered_name (length n.objects) n.registered_mailboxes;
      objects = n.objects ++ (mailbox_object pid registered_name ∷ []);
    }

unfoldable pub remove : EPid → MsgSeq → Node → Node × Ending
unfolding erase
remove id name n = (
  record n {
    mailboxes = erase id n.mailboxes;
    registered_mailboxes = erase name n.registered_mailboxes;
  },
  done,
)

-- "normal" and "error"
abbrev pub normal : MsgSeq
normal = b'n' ∷ b'o' ∷ b'r' ∷ b'm' ∷ b'a' ∷ b'l' ∷ []

abbrev pub error : MsgSeq
error = b'e' ∷ b'r' ∷ b'r' ∷ b'o' ∷ b'r' ∷ []

-- `close_mailbox_async`.
unfoldable pub close_mailbox_async : EPid → MsgSeq → Node → Node
close_mailbox_async id name n = record n { posted = n.posted ++ ((id, (name, error)) ∷ []) }

-- `publish_port`: the creation is what the port mapper assigns, or `none` where the request throws.
unfoldable pub publish_port : Option ℕ → Node → Node × Ending
unfolding trigger_accept
publish_port none n = (n, throws)
publish_port (some creation) n = (
  record n {
    pid_fields = record n.pid_fields { creation = creation };
    connector = trigger_accept n.connector;
  },
  done,
)

-- `ping_peer` does not let the exception of a failed attempt through.
unfoldable pub ping_peer : (MsgSeq → Attempt) → MsgSeq → Node → Node × Bool
unfolding connect_to
ping_peer attempt peer_node_name n =
    let (connector, connection) = connect_to (attempt peer_node_name) peer_node_name n.connector in
    (record n { connector = connector }, elim connection [ none ↦ false | some c ↦ true ])

-- The recovery of `run_async_io` from a `connection_io_error`.
unfoldable pub recover : MsgSeq → Node → Node
unfolding drop_connection_to
recover node n = record n { connector = drop_connection_to node n.connector }

module _ (attempt : MsgSeq → Attempt) where
  -- `close_mailbox`, where a call of a peer that throws leaves the mailbox in the maps. The links, each
  -- notice and the removal take their locks one after the other; no other thread comes in between.
  unfoldable pub close_mailbox : EPid → MsgSeq → MsgSeq → Node → Node × Ending
  unfolding close_links_for_local notify_all remove
  close_mailbox id name reason n =
      let (linker, requests) = close_links_for_local n.mailbox_linker id reason in
      notify_all attempt requests (record n { mailbox_linker = linker }) andthen remove id name

  -- The next posted call runs; an exception ends it, and is reported.
  abbrev pub run_first : List (EPid × (MsgSeq × MsgSeq)) → Node → Node
  run_first [] n = n
  run_first ((id, (name, reason)) ∷ rest) n =
      (close_mailbox id name reason (record n { posted = rest })).0

  unfoldable pub run_posted : Node → Node
  unfolding close_mailbox
  run_posted n = run_first n.posted n

  -- A call on a mailbox that a client owns.
  abbrev pub with_object : (MailboxObject → Node → Node × Ending) → ℕ → Node → Node × Ending
  with_object f i n = elim (get_elem? n.objects i) [
    | none ↦ (n, done)
    | some o ↦ if o.is_owned then f o n else (n, done)
  ]

  -- `actual_mailbox::close`.
  abbrev pub close : ℕ → Node → Node × Ending
  close = with_object λ o n. close_mailbox o.own_pid o.own_name normal n

  -- `~actual_mailbox`, when the last owner lets the mailbox go: the weak pointers have expired, and no
  -- exception leaves it.
  unfoldable pub destroy : Bool → ℕ → Node → Node
  unfolding close_mailbox close_mailbox_async
  destroy uncaught_exception i n =
      let n' : Node = record n {
        objects = modify i (λ o. record o { is_owned = false }) n.objects;
      } in
      elim (get_elem? n.objects i) [
        | none ↦ n
        | some o ↦
            if o.is_owned
            then if uncaught_exception
              then close_mailbox_async o.own_pid o.own_name n'
              else (close_mailbox o.own_pid o.own_name normal n').0
            else n
      ]

  abbrev pub link_to : EPid → ℕ → Node → Node × Ending
  link_to pid = with_object λ o n. dispatcher_for attempt (links o.own_pid pid) n

  abbrev pub unlink_from : EPid → ℕ → Node → Node × Ending
  unlink_from pid = with_object λ o n. dispatcher_for attempt (unlinks o.own_pid pid) n

  -- `send`, after the message is serialized.
  abbrev pub send : EPid → MsgSeq → ℕ → Node → Node × Ending
  send to_pid msg = with_object λ o n. deliver attempt msg to_pid n

  abbrev pub send_name : MsgSeq → MsgSeq → ℕ → Node → Node × Ending
  send_name to_name msg = with_object λ o n. deliver_name msg to_name n

  abbrev pub send_name_on : MsgSeq → MsgSeq → MsgSeq → ℕ → Node → Node × Ending
  send_name_on to_name on_given_node msg =
      with_object λ o n. deliver_name_on attempt msg to_name on_given_node o.own_pid n
