-- ===== src/Handshake.antt =====
-- impl/handshake_grammar.h and impl/constants.cpp: the messages of the handshake between two nodes.
-- A message starts with the length of what follows, in 16 bits. The parsers skip that field; those
-- for the two digests compare it.
pub mod RoundTrip
use tinch_pp.Prelude.{ℕ, ◌+◌, ◌++◌, bit_or, length}
use tinch_pp.Types.{MsgSeq, SerializableString}
use tinch_pp.Spirit.{Spirit, Parser, ◌>>=◌, ◌>>◌, attribute}

-- Namespace `constants`.
abbrev pub extended_references : ℕ
extended_references = 4

abbrev pub extended_pid_ports : ℕ
extended_pid_ports = 0x100

abbrev pub support_bit_binaries : ℕ
support_bit_binaries = 0x400

abbrev pub supported_version : ℕ
supported_version = 5

unfoldable pub capabilities : ℕ
capabilities = bit_or (bit_or extended_references extended_pid_ports) support_bit_binaries

-- `sent_name_type`: the 16-bit version field, the 32-bit field of flags, and the name, in the order
-- in which the grammar fills the members.
pub record SentName : Type 0 where
  pub version0 : ℕ
  pub version1 : ℕ
  pub name : MsgSeq

pub record ChallengeAttributes : Type 0 where
  pub challenge : ℕ
  pub node_name : MsgSeq

pub record SendChallengeAttributes : Type 0 where
  pub challenge : ℕ
  pub name_length : ℕ
  pub node_name : MsgSeq

abbrev pub send_challenge_attributes : ℕ → MsgSeq → SendChallengeAttributes
send_challenge_attributes a_challenge a_node_name = record {
  challenge = a_challenge;
  name_length = length a_node_name;
  node_name = a_node_name;
}

pub record ChallengeReplyAttributes : Type 0 where
  pub challenge : ℕ
  pub digest : MsgSeq

abbrev pub digest_length : ℕ
digest_length = 16

module _ (sp : Spirit) where
  open sp use {
    byte_lit, big_word, big_dword, repeat, plus_char, byte_g, big_word_g, big_dword_g, string_g,
  }

  unfoldable pub send_name : SerializableString → MsgSeq
  send_name val =
      big_word_g (val.size + 7)
      ++ (byte_g b'n'
          ++ (big_word_g supported_version ++ (big_dword_g capabilities ++ string_g val.val)))

  unfoldable pub send_name_p : Parser SentName
  send_name_p = do
    big_word
    byte_lit b'n'
    version0 ← big_word
    version1 ← big_dword
    name ← plus_char
    attribute (record { version0 = version0; version1 = version1; name = name })

  unfoldable pub receive_name : Parser MsgSeq
  receive_name = do big_word; byte_lit b'n'; big_word; big_dword; plus_char

  unfoldable pub receive_status : Parser MsgSeq
  receive_status = do big_word; byte_lit b's'; plus_char

  unfoldable pub receive_status_g : SerializableString → MsgSeq
  receive_status_g val = big_word_g (val.size + 1) ++ (byte_g b's' ++ string_g val.val)

  unfoldable pub recv_challenge : Parser ChallengeAttributes
  recv_challenge = do
    big_word
    byte_lit b'n'
    big_word
    big_dword
    challenge ← big_dword
    node_name ← plus_char
    attribute (record { challenge = challenge; node_name = node_name })

  unfoldable pub send_challenge_g : SendChallengeAttributes → MsgSeq
  send_challenge_g val =
      big_word_g (val.name_length + 11)
      ++ (byte_g b'n'
          ++ (big_word_g supported_version
              ++ (big_dword_g capabilities
                  ++ (big_dword_g val.challenge ++ string_g val.node_name))))

  unfoldable pub challenge_reply_p : Parser ChallengeReplyAttributes
  challenge_reply_p = do
    sp.big_word_lit (5 + digest_length)
    byte_lit b'r'
    challenge ← big_dword
    digest ← repeat digest_length
    attribute (record { challenge = challenge; digest = digest })

  unfoldable pub challenge_reply : ChallengeReplyAttributes → MsgSeq
  challenge_reply val =
      big_word_g (5 + digest_length)
      ++ (byte_g b'r' ++ (big_dword_g val.challenge ++ string_g val.digest))

  unfoldable pub recv_challenge_ack_p : Parser MsgSeq
  recv_challenge_ack_p = do sp.big_word_lit (1 + digest_length); byte_lit b'a'; repeat digest_length

  unfoldable pub send_challenge_ack_g : MsgSeq → MsgSeq
  send_challenge_ack_g digest = big_word_g (1 + digest_length) ++ (byte_g b'a' ++ string_g digest)
