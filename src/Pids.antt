-- ===== src/Pids.antt =====
-- impl/actual_node.cpp: how a node makes the pids of its mailboxes.
pub mod Uniqueness
use tinch_pp.Prelude.{ℕ, zero, suc, ◌+◌, ◌%◌, ◌^◌, ltb, if◌then◌else◌}
use tinch_pp.Types.{MsgSeq, EPid}

-- The members of `actual_node` from which a pid is built. The creation is a number of the port mapper.
pub record PidFields : Type 0 where
  pub pid_id : ℕ
  pub serial : ℕ
  pub creation : ℕ

abbrev pub initial_fields : PidFields
initial_fields = record { pid_id = 1; serial = 0; creation = 0 }

abbrev pub max_pid_id : ℕ
max_pid_id = 0x7fff

abbrev pub max_serial : ℕ
max_serial = 0x1fff

-- The two counters are `uint32_t`.
unfoldable pub update_pid_fields : PidFields → PidFields
update_pid_fields f =
    let pid_id = (f.pid_id + 1) % 2 ^ 32 in
    let serial = (f.serial + 1) % 2 ^ 32 in
    if ltb max_pid_id pid_id
    then record f { pid_id = 0; serial = if ltb max_serial serial then 0 else serial }
    else record f { pid_id = pid_id }

unfoldable pub make_pid : MsgSeq → PidFields → EPid × PidFields
unfolding update_pid_fields
make_pid node_name f = (
  record { node_name = node_name; id = f.pid_id; serial = f.serial; creation = f.creation },
  update_pid_fields f,
)

-- The pid of the mailbox that is created after some others.
unfoldable pub nth_pid : MsgSeq → PidFields → ℕ → EPid
unfolding make_pid
nth_pid node_name f zero = (make_pid node_name f).0
nth_pid node_name f (suc n) = nth_pid node_name (make_pid node_name f).1 n
