-- ===== src/Node/Ordering.antt =====
-- impl/actual_node.cpp: when `operator <` orders the pids of a node's mailboxes, as `std::map` requires.
use tinch_pp.Prelude.{ℕ, ◌-◌, ◌<◌, ◌^◌, ◌≡◌, true, false, not, some, arith, length}
use tinch_pp.Types.{MsgSeq, EPid, pid_lt}
use tinch_pp.Maps.{find, same, pid_key}
use tinch_pp.Node.Numbering.{has_pid-lt, make_pid-At}
use tinch_pp.Node.Delivery.{Ops, node_after, node_after-Sound, next_pid}

-- The first 2 ^ 15 - 1 pids have the serial number 0 and an identifier that is not 0.
entered-first_serial :
    (name : MsgSeq) (ops : Ops) (pid : EPid) (i : ℕ)
    → length (node_after name ops).objects < 2 ^ 15
    → find pid (node_after name ops).mailboxes ≡ some i
    → (pid.serial ≡ 0) × (0 < pid.id)
entered-first_serial name ops pid i l e =
    let (c, (m, k)) = node_after-Sound name ops in
    let h = c.0 pid i e in
    let a = m i pid h in
    let b = has_pid-lt (node_after name ops).objects i pid h in
    (omega (arith, a.1, b, l), omega (arith, a.0, b, l))

next_pid-second_serial :
    (name : MsgSeq) (ops : Ops)
    → length (node_after name ops).objects ≡ 2 ^ 15 - 1
    → ((next_pid (node_after name ops)).id ≡ 0) × ((next_pid (node_after name ops)).serial ≡ 1)
next_pid-second_serial name ops l =
    let n = node_after name ops in
    let (c, (m, k)) = node_after-Sound name ops in
    let a = make_pid-At n.node_name n.pid_fields (length n.objects) k in
    (omega (arith, a.0, l), omega (arith, a.1, l))

-- After any operations of a node, by which fewer than 2 ^ 15 mailboxes were created, of two pids that
-- are entered and are not equivalent exactly one is below the other, as the map requires.
pub pids_ordered :
    (name : MsgSeq) (ops : Ops) (p q : EPid) (i j : ℕ)
    → length (node_after name ops).objects < 2 ^ 15
    → find p (node_after name ops).mailboxes ≡ some i
    → find q (node_after name ops).mailboxes ≡ some j
    → same p q ≡ false
    → pid_lt p q ≡ not (pid_lt q p)
unfolding pid_lt
pids_ordered name ops p q i j l e f d =
    let (a, b) = entered-first_serial name ops p i l e in
    let (a', b') = entered-first_serial name ops q j l f in ground (arith, a, a', d)

-- After 2 ^ 15 - 1 created mailboxes the next pid and each entered pid are below each other.
pids_clash :
    (name : MsgSeq) (ops : Ops) (p : EPid) (i : ℕ)
    → length (node_after name ops).objects ≡ 2 ^ 15 - 1
    → find p (node_after name ops).mailboxes ≡ some i
    → (pid_lt p (next_pid (node_after name ops)) ≡ true)
      × (pid_lt (next_pid (node_after name ops)) p ≡ true)
unfolding pid_lt
pids_clash name ops p i l e =
    let (a, b) = entered-first_serial name ops p i (omega (arith, l)) e in
    let (c, d) = next_pid-second_serial name ops l in
    (ground (arith, a, b, c, d), ground (arith, a, b, c, d))
