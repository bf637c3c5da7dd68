-- ===== src/Terms/RoundTrip.antt =====
-- Each grammar of impl/ext_term_grammar.h reads back what its generator writes, with anything behind
-- it left over.
use tinch_pp.Prelude.{ℕ, ◌%◌, ◌^◌, ◌<◌, ◌≡◌, ◌++◌, arith, none, length}
use tinch_pp.Types.{
  MsgSeq, EPid, BinaryValue, NewReference, SerializableBitSeq, serializable_string,
  serializable_e_pid, serializable_bit_seq, new_reference_g_type,
}
use tinch_pp.Spirit.{Spirit}
use tinch_pp.Spirit.Laws.{
  Reads, Reads-bind, Reads-last, byte_-Reads, byte_lit-Reads, big_word-Reads, big_dword-Reads,
  repeat-Reads, repeat-Reads_n, Reads-left, Reads-right, byte_lit-ne,
}
use tinch_pp.Terms.{
  small_integer, small_integer_g, integer_ext, integer_ext_g, integer, atom_ext, atom_ext_g,
  pid_ext, pid_ext_g, new_reference_ext_p, new_reference_ext_g, small_tuple_head_ext,
  small_tuple_head_g, list_head_ext, list_head_g, binary_ext, binary_ext_g, bit_binary_ext,
  bit_binary_ext_g, tag_small_integer, tag_integer, tag_string_ext, string_head_ext, tag_binary_ext,
  tag_bit_binary_ext,
}

-- The values that fit the fields of the format.
abbrev pub FitsAtom : MsgSeq → Type 0
FitsAtom s = length s < 2 ^ 16

pub record FitsPid (p : EPid) : Type 0 where
  pub name_fits : FitsAtom p.node_name
  pub id_fits : p.id < 2 ^ 32
  pub serial_fits : p.serial < 2 ^ 32
  pub creation_fits : p.creation < 256

pub record FitsReference (r : NewReference) : Type 0 where
  pub name_fits : FitsAtom r.node_name
  pub creation_fits : r.creation < 256
  pub id_words : length r.id % 4 ≡ 0
  pub id_fits : length r.id < 2 ^ 18

module _ (sp : Spirit) where
  pub atom_ext-Reads :
      {s : MsgSeq} → FitsAtom s → Reads (atom_ext sp) (atom_ext_g sp (serializable_string s)) s
  unfolding atom_ext atom_ext_g
  atom_ext-Reads h =
      Reads-bind _ (byte_lit-Reads sp (omega arith))
        (Reads-bind _ (big_word-Reads sp h) (repeat-Reads sp))

  pub pid_ext-Reads :
      {p : EPid} → FitsPid p → Reads (pid_ext sp) (pid_ext_g sp (serializable_e_pid p)) p
  unfolding pid_ext pid_ext_g
  pid_ext-Reads h = Reads-bind _ (byte_lit-Reads sp (omega arith)) (
      Reads-bind _ (atom_ext-Reads h.name_fits) (
        Reads-bind _ (big_dword-Reads sp h.id_fits) (
          Reads-bind _ (big_dword-Reads sp h.serial_fits)
            (Reads-last _ (byte_-Reads sp h.creation_fits)))))

  pub new_reference_ext-Reads :
      {r : NewReference}
      → FitsReference r
      → Reads (new_reference_ext_p sp) (new_reference_ext_g sp (new_reference_g_type r)) r
  unfolding new_reference_ext_p new_reference_ext_g
  new_reference_ext-Reads {r} h = Reads-bind _ (byte_lit-Reads sp (omega arith)) (
      Reads-bind _ (big_word-Reads sp (omega (arith, h.id_fits))) (
        Reads-bind _ (atom_ext-Reads h.name_fits) (
          Reads-bind _ (byte_-Reads sp h.creation_fits)
            (Reads-last _ (repeat-Reads_n sp (omega (arith, h.id_words)))))))

  pub small_tuple_head-Reads :
      {n : ℕ} → n < 256 → Reads (small_tuple_head_ext sp) (small_tuple_head_g sp n) n
  unfolding small_tuple_head_ext small_tuple_head_g
  small_tuple_head-Reads h = Reads-bind _ (byte_lit-Reads sp (omega arith)) (byte_-Reads sp h)

  pub list_head-Reads : {n : ℕ} → n < 2 ^ 32 → Reads (list_head_ext sp) (list_head_g sp n) n
  unfolding list_head_ext list_head_g
  list_head-Reads h = Reads-bind _ (byte_lit-Reads sp (omega arith)) (big_dword-Reads sp h)

  pub binary_ext-Reads :
      {s : MsgSeq}
      → length s < 2 ^ 32
      → Reads (binary_ext sp) (binary_ext_g sp (serializable_string s)) s
  unfolding binary_ext binary_ext_g
  binary_ext-Reads h =
      Reads-bind _ (byte_lit-Reads sp (omega arith))
        (Reads-bind _ (big_dword-Reads sp h) (repeat-Reads sp))

  pub bit_binary_ext-Reads :
      {v : BinaryValue}
      → length v.value < 2 ^ 32
      → v.padding_bits < 256
      → Reads
          (bit_binary_ext sp)
          (bit_binary_ext_g sp (serializable_bit_seq v.value v.padding_bits))
          v
  unfolding bit_binary_ext bit_binary_ext_g
  bit_binary_ext-Reads h k = Reads-bind _ (byte_lit-Reads sp (omega arith)) (
      Reads-bind _ (big_dword-Reads sp h)
        (Reads-bind _ (byte_-Reads sp k) (Reads-last _ (repeat-Reads sp))))

  pub small_integer-Reads : {n : ℕ} → n < 256 → Reads (small_integer sp) (small_integer_g sp n) n
  unfolding small_integer small_integer_g
  small_integer-Reads h = Reads-bind _ (byte_lit-Reads sp (omega arith)) (byte_-Reads sp h)

  integer_ext-Reads : {n : ℕ} → n < 2 ^ 32 → Reads (integer_ext sp) (integer_ext_g sp n) n
  unfolding integer_ext integer_ext_g
  integer_ext-Reads h = Reads-bind _ (byte_lit-Reads sp (omega arith)) (big_dword-Reads sp h)

  pub integer-small_integer_g : {n : ℕ} → n < 256 → Reads (integer sp) (small_integer_g sp n) n
  unfolding integer
  integer-small_integer_g h = Reads-left (integer_ext sp) (small_integer-Reads h)

  pub integer-integer_ext_g : {n : ℕ} → n < 2 ^ 32 → Reads (integer sp) (integer_ext_g sp n) n
  unfolding integer small_integer integer_ext_g
  integer-integer_ext_g {n} h =
      Reads-right (small_integer sp)
        (λ rest.
          byte_lit-ne sp tag_small_integer tag_integer (λ _. sp.byte_) (sp.big_dword_g n) rest
            (omega arith) (omega arith))
        (integer_ext-Reads h)

  -- A binary is tried first as a whole number of bytes.
  pub binary_ext-bit_binary_ext_g :
      (s : SerializableBitSeq) (rest : MsgSeq)
      → binary_ext sp (bit_binary_ext_g sp s ++ rest) ≡ none
  unfolding binary_ext bit_binary_ext_g
  binary_ext-bit_binary_ext_g s rest =
      byte_lit-ne sp tag_binary_ext tag_bit_binary_ext _ _ rest (omega arith) (omega arith)

  pub string_head-Reads :
      {n : ℕ}
      → n < 2 ^ 16
      → Reads (string_head_ext sp) (sp.byte_g tag_string_ext ++ sp.big_word_g n) n
  unfolding string_head_ext
  string_head-Reads h = Reads-bind _ (byte_lit-Reads sp (omega arith)) (big_word-Reads sp h)
