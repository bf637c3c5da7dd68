-- ===== src/Pids/Uniqueness.antt =====
-- The pids of impl/actual_node.cpp, and the order by which its mailboxes are kept.
use tinch_pp.Prelude.{ℕ, zero, suc, ◌+◌, ◌/◌, ◌%◌, ◌^◌, ◌<◌, ◌≡◌, ◌≢◌, ap, true, arith}
use tinch_pp.Types.{MsgSeq, EPid, pid_lt}
use tinch_pp.Pids.{PidFields, initial_fields, update_pid_fields, make_pid, nth_pid}

-- The counters as the digits of one number.
abbrev pub Counts : PidFields → ℕ → Type 0
Counts f t = (f.pid_id ≡ t % 2 ^ 15) × (f.serial ≡ t / 2 ^ 15 % 2 ^ 13)

pub update-Counts : (f : PidFields) (t : ℕ) → Counts f t → Counts (update_pid_fields f) (t + 1)
unfolding update_pid_fields
update-Counts f t h = ground arith

nth_pid-Counts :
    (name : MsgSeq) (f : PidFields) (t n : ℕ)
    → Counts f t
    → ((nth_pid name f n).id ≡ (t + n) % 2 ^ 15)
      × ((nth_pid name f n).serial ≡ (t + n) / 2 ^ 15 % 2 ^ 13)
unfolding nth_pid make_pid
nth_pid-Counts name f t zero h = omega (arith, h.0, h.1)
nth_pid-Counts name f t (suc n) h =
    omega (arith, nth_pid-Counts name (update_pid_fields f) (t + 1) n (update-Counts f t h))

-- Two mailboxes of a node, of which fewer than 2 ^ 28 - 1 are created between the one and the other,
-- have different pids, even where the creation is the same.
pub nth_pid_unique :
    (name : MsgSeq) (i d : ℕ)
    → 0 < d
    → d < 2 ^ 28
    → nth_pid name initial_fields i ≢ nth_pid name initial_fields (i + d)
nth_pid_unique name i d p h e =
    let start : Counts initial_fields 1 = (omega arith, omega arith) in
    let (a, b) = nth_pid-Counts name initial_fields 1 i start in
    let (a', b') = nth_pid-Counts name initial_fields 1 (i + d) start in
    absurd (omega (arith, a, b, a', b', ap (λ x. x.id) e, ap (λ x. x.serial) e))

-- The order on pids is not asymmetric: of two pids, one with the smaller id and the other with the
-- smaller serial, each is less than the other.
pub pid_lt-both :
    (p q : EPid) → p.id < q.id → q.serial < p.serial → (pid_lt p q ≡ true) × (pid_lt q p ≡ true)
unfolding pid_lt
pid_lt-both p q h k = ground arith
