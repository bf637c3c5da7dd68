-- ===== src/Types.antt =====
-- impl/types.h and impl/types.cpp: byte sequences and the values of the protocol.
-- `char` and `std::string` elements are bytes, numbers below 256; a fixed-width integer is a number
-- whose range is a hypothesis where a statement needs it.
use tinch_pp.Prelude.{
  length, ◌/◌, ℕ, ◌≡◌, ◌<◌, ◌↔◌, Bool, true, ◌&&◌, ◌||◌, List, arith, ltb, Eq, bytes_eq, nat_eq,
  ◌==◌, pair_beq, pair_beq_iff,
}

-- `msg_seq`, and the characters of a `std::string`.
abbrev pub MsgSeq : Type 0
MsgSeq = List ℕ

abbrev pub IsByte : ℕ → Type 0
IsByte b = b < 256

-- `e_pid`.
pub record EPid : Type 0 where
  pub node_name : MsgSeq
  pub id : ℕ
  pub serial : ℕ
  pub creation : ℕ

-- `operator ==` on `e_pid`.
unfoldable pub pid_beq : EPid → EPid → Bool
pid_beq p1 p2 =
    p1.node_name == p2.node_name
    && (p1.id == p2.id && (p1.serial == p2.serial && p1.creation == p2.creation))

pub pid_beq_iff : (p q : EPid) → (pid_beq p q ≡ true) ↔ (p ≡ q)
unfolding pid_beq
pid_beq_iff p q = ground (arith, bytes_eq.beq_iff p.node_name q.node_name)

instance abbrev pub pid_eq : Eq EPid
pid_eq = record { beq = pid_beq; beq_iff = pid_beq_iff }

-- `operator==` on a pair of pids.
instance abbrev pub link_eq : Eq (EPid × EPid)
link_eq = record { beq = pair_beq pid_eq pid_eq; beq_iff = pair_beq_iff pid_eq pid_eq }

-- `operator <` on `e_pid`, by which the node's map of mailboxes is ordered.
unfoldable pub pid_lt : EPid → EPid → Bool
pid_lt p1 p2 = ltb p1.id p2.id || ltb p1.serial p2.serial

-- `serializable_string` and `serializable_seq`: the bytes, with their number in front.
pub record SerializableString : Type 0 where
  pub size : ℕ
  pub val : MsgSeq

abbrev pub serializable_string : MsgSeq → SerializableString
serializable_string a_val = record { size = length a_val; val = a_val }

-- `binary_value_type`.
pub record BinaryValue : Type 0 where
  pub padding_bits : ℕ
  pub value : MsgSeq

-- `operator==` on `binary_value_type`.
unfoldable pub binary_beq : BinaryValue → BinaryValue → Bool
binary_beq left right = left.padding_bits == right.padding_bits && left.value == right.value

-- `serializable_bit_seq`.
pub record SerializableBitSeq : Type 0 where
  pub size : ℕ
  pub unused_bits : ℕ
  pub val : MsgSeq

abbrev pub serializable_bit_seq : MsgSeq → ℕ → SerializableBitSeq
serializable_bit_seq a_val a_unused_bits = record {
  size = length a_val;
  unused_bits = a_unused_bits;
  val = a_val;
}

-- `serializable_e_pid`.
pub record SerializableEPid : Type 0 where
  pub node_name : SerializableString
  pub id : ℕ
  pub serial : ℕ
  pub creation : ℕ

abbrev pub serializable_e_pid : EPid → SerializableEPid
serializable_e_pid p = record {
  node_name = serializable_string p.node_name;
  id = p.id;
  serial = p.serial;
  creation = p.creation;
}

-- `new_reference_type`; `creation` is 32 bits wide in memory.
pub record NewReference : Type 0 where
  pub node_name : MsgSeq
  pub creation : ℕ
  pub id : MsgSeq

-- `operator ==` on `new_reference_type`.
unfoldable pub reference_beq : NewReference → NewReference → Bool
reference_beq r1 r2 = r1.node_name == r2.node_name && (r1.creation == r2.creation && r1.id == r2.id)

-- `new_reference_g_type`: the identifier's length is counted in 32-bit words.
pub record NewReferenceG : Type 0 where
  pub id_length : ℕ
  pub node_name : SerializableString
  pub creation : ℕ
  pub id : MsgSeq

abbrev pub new_reference_g_type : NewReference → NewReferenceG
new_reference_g_type ref = record {
  id_length = length ref.id / 4;
  node_name = serializable_string ref.node_name;
  creation = ref.creation;
  id = ref.id;
}

pub binary_beq_iff : (v w : BinaryValue) → (binary_beq v w ≡ true) ↔ (v ≡ w)
unfolding binary_beq
binary_beq_iff v w = ground (arith, bytes_eq.beq_iff v.value w.value)

pub reference_beq_iff : (r s : NewReference) → (reference_beq r s ≡ true) ↔ (r ≡ s)
unfolding reference_beq
reference_beq_iff r s =
    ground (arith, bytes_eq.beq_iff r.node_name s.node_name, bytes_eq.beq_iff r.id s.id)

instance abbrev pub binary_eq : Eq BinaryValue
binary_eq = record { beq = binary_beq; beq_iff = binary_beq_iff }

instance abbrev pub reference_eq : Eq NewReference
reference_eq = record { beq = reference_beq; beq_iff = reference_beq_iff }
