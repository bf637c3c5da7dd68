-- ===== src/Terms.antt =====
-- impl/ext_term_grammar.h: the external term format, as parsers and generators.
-- A parser carries the name of its grammar, and a generator the name that ends in `_g`. The value of
-- an `int32_t` is its bit pattern, a number below 2 ^ 32.
pub mod RoundTrip
pub mod Ranges
use tinch_pp.Prelude.{ℕ, ◌+◌, ◌*◌, ◌++◌}
use tinch_pp.Types.{
  MsgSeq, EPid, BinaryValue, NewReference, SerializableString, SerializableBitSeq, SerializableEPid,
  NewReferenceG,
}
use tinch_pp.Spirit.{Spirit, Parser, ◌>>=◌, ◌>>◌, attribute, alternative}

-- Namespace `type_tag`.
abbrev pub tag_bit_binary_ext : ℕ
tag_bit_binary_ext = 77

abbrev pub tag_atom_cache_ref : ℕ
tag_atom_cache_ref = 82

abbrev pub tag_small_integer : ℕ
tag_small_integer = 97

abbrev pub tag_integer : ℕ
tag_integer = 98

abbrev pub tag_float_ext : ℕ
tag_float_ext = 99

abbrev pub tag_atom_ext : ℕ
tag_atom_ext = 100

abbrev pub tag_pid : ℕ
tag_pid = 103

abbrev pub tag_small_tuple : ℕ
tag_small_tuple = 104

abbrev pub tag_nil_ext : ℕ
tag_nil_ext = 106

abbrev pub tag_string_ext : ℕ
tag_string_ext = 107

abbrev pub tag_list : ℕ
tag_list = 108

abbrev pub tag_binary_ext : ℕ
tag_binary_ext = 109

abbrev pub tag_new_reference_ext : ℕ
tag_new_reference_ext = 114

-- `constants::float_digits`.
abbrev pub float_digits : ℕ
float_digits = 31

module _ (sp : Spirit) where
  open sp use {
    byte_, byte_lit, big_word, big_dword, repeat, byte_g, big_word_g, big_dword_g, string_g,
  }

  unfoldable pub small_integer : Parser ℕ
  small_integer = byte_lit tag_small_integer >> byte_

  unfoldable pub small_integer_g : ℕ → MsgSeq
  small_integer_g n = byte_g tag_small_integer ++ byte_g n

  unfoldable pub atom_cache_ref : Parser ℕ
  atom_cache_ref = byte_lit tag_atom_cache_ref >> byte_

  unfoldable pub integer_ext : Parser ℕ
  integer_ext = byte_lit tag_integer >> big_dword

  unfoldable pub integer_ext_g : ℕ → MsgSeq
  integer_ext_g n = byte_g tag_integer ++ big_dword_g n

  unfoldable pub integer : Parser ℕ
  integer = alternative small_integer integer_ext

  unfoldable pub float_ext : Parser MsgSeq
  float_ext = byte_lit tag_float_ext >> repeat float_digits

  -- The string is of `float_digits` characters.
  unfoldable pub float_ext_g : MsgSeq → MsgSeq
  float_ext_g s = byte_g tag_float_ext ++ string_g s

  unfoldable pub atom_ext : Parser MsgSeq
  atom_ext = do byte_lit tag_atom_ext; atom_length ← big_word; repeat atom_length

  unfoldable pub atom_ext_g : SerializableString → MsgSeq
  atom_ext_g s = byte_g tag_atom_ext ++ (big_word_g s.size ++ string_g s.val)

  unfoldable pub pid_ext : Parser EPid
  pid_ext = do
    byte_lit tag_pid
    node_name ← atom_ext
    id ← big_dword
    serial ← big_dword
    creation ← byte_
    attribute (record { node_name = node_name; id = id; serial = serial; creation = creation })

  unfoldable pub pid_ext_g : SerializableEPid → MsgSeq
  pid_ext_g p =
      byte_g tag_pid
      ++ (atom_ext_g p.node_name
          ++ (big_dword_g p.id ++ (big_dword_g p.serial ++ byte_g p.creation)))

  unfoldable pub new_reference_ext_p : Parser NewReference
  new_reference_ext_p = do
    byte_lit tag_new_reference_ext
    id_length ← big_word
    node_name ← atom_ext
    creation ← byte_
    id ← repeat (id_length * 4)
    attribute (record { node_name = node_name; creation = creation; id = id })

  unfoldable pub new_reference_ext_g : NewReferenceG → MsgSeq
  new_reference_ext_g r =
      byte_g tag_new_reference_ext
      ++ (big_word_g r.id_length
          ++ (atom_ext_g r.node_name ++ (byte_g r.creation ++ string_g r.id)))

  unfoldable pub small_tuple_head_ext : Parser ℕ
  small_tuple_head_ext = byte_lit tag_small_tuple >> byte_

  unfoldable pub small_tuple_head_g : ℕ → MsgSeq
  small_tuple_head_g n = byte_g tag_small_tuple ++ byte_g n

  unfoldable pub list_head_ext : Parser ℕ
  list_head_ext = byte_lit tag_list >> big_dword

  unfoldable pub list_head_g : ℕ → MsgSeq
  list_head_g n = byte_g tag_list ++ big_dword_g n

  unfoldable pub string_head_ext : Parser ℕ
  string_head_ext = byte_lit tag_string_ext >> big_word

  unfoldable pub string_ext_g : SerializableString → MsgSeq
  string_ext_g s = byte_g tag_string_ext ++ (big_word_g s.size ++ string_g s.val)

  unfoldable pub binary_ext : Parser MsgSeq
  binary_ext = do byte_lit tag_binary_ext; binary_length ← big_dword; repeat binary_length

  unfoldable pub binary_ext_g : SerializableString → MsgSeq
  binary_ext_g s = byte_g tag_binary_ext ++ (big_dword_g s.size ++ string_g s.val)

  unfoldable pub bit_binary_ext : Parser BinaryValue
  bit_binary_ext = do
    byte_lit tag_bit_binary_ext
    binary_length ← big_dword
    padding_bits ← byte_
    value ← repeat binary_length
    attribute (record { padding_bits = padding_bits; value = value })

  unfoldable pub bit_binary_ext_g : SerializableBitSeq → MsgSeq
  bit_binary_ext_g s =
      byte_g tag_bit_binary_ext ++ (big_dword_g s.size ++ (byte_g s.unused_bits ++ string_g s.val))
