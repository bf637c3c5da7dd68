-- ===== src/Handshake/RoundTrip.antt =====
-- What each side of the handshake of impl/handshake_grammar.h reads of what the other wrote.
use tinch_pp.Prelude.{ℕ, ◌+◌, ◌^◌, ◌<◌, ◌≡◌, [], ◌∷◌, arith, append-nil, some, length}
use tinch_pp.Types.{MsgSeq, serializable_string}
use tinch_pp.Spirit.{Spirit}
use tinch_pp.Spirit.Laws.{
  Reads, Reads-bind, Reads-last, Reads-then, bind-some, byte_lit-Reads, big_word-Reads,
  big_dword-Reads, repeat-Reads_n, big_word_lit-Reads, plus_char-string_g,
}
use tinch_pp.Handshake.{
  send_challenge_attributes, ChallengeReplyAttributes, capabilities, supported_version,
  digest_length, send_name, send_name_p, receive_status, receive_status_g, recv_challenge,
  send_challenge_g, challenge_reply_p, challenge_reply, recv_challenge_ack_p, send_challenge_ack_g,
}

module _ (sp : Spirit) where
  challenge_reply-Reads :
      {val : ChallengeReplyAttributes}
      → val.challenge < 2 ^ 32
      → length val.digest ≡ digest_length
      → Reads (challenge_reply_p sp) (challenge_reply sp val) val
  unfolding challenge_reply_p challenge_reply
  challenge_reply-Reads {val} h k = Reads-bind _ (big_word_lit-Reads sp (omega arith)) (
      Reads-bind _ (byte_lit-Reads sp (omega arith))
        (Reads-bind _ (big_dword-Reads sp h) (Reads-last _ (repeat-Reads_n sp k))))

  challenge_ack-Reads :
      {digest : MsgSeq}
      → length digest ≡ digest_length
      → Reads (recv_challenge_ack_p sp) (send_challenge_ack_g sp digest) digest
  unfolding recv_challenge_ack_p send_challenge_ack_g
  challenge_ack-Reads k =
      Reads-bind _ (big_word_lit-Reads sp (omega arith))
        (Reads-bind _ (byte_lit-Reads sp (omega arith)) (repeat-Reads_n sp k))

  -- From a reply with a 32-bit challenge and a digest of 16 bytes, exactly these two are read.
  pub challenge_reply_p-challenge_reply :
      (val : ChallengeReplyAttributes)
      → val.challenge < 2 ^ 32
      → length val.digest ≡ digest_length
      → challenge_reply_p sp (challenge_reply sp val) ≡ some (val, [])
  challenge_reply_p-challenge_reply val h k =
      rw append-nil at ((challenge_reply-Reads {val = val} h k).at [])

  -- From an acknowledgement with a digest of 16 bytes, exactly the digest is read.
  pub recv_challenge_ack_p-send_challenge_ack_g :
      (digest : MsgSeq)
      → length digest ≡ digest_length
      → recv_challenge_ack_p sp (send_challenge_ack_g sp digest) ≡ some (digest, [])
  recv_challenge_ack_p-send_challenge_ack_g digest k =
      rw append-nil at ((challenge_ack-Reads {digest = digest} k).at [])

  -- From the message of a name that is not empty and fits the length field, the supported version,
  -- the flags of the capabilities and the name are read, the flags as the second version.
  pub send_name_p-send_name :
      (c : ℕ) (cs : MsgSeq)
      → length (c ∷ cs) + 7 < 2 ^ 16
      → send_name_p sp (send_name sp (serializable_string (c ∷ cs)))
        ≡ some (record { version0 = supported_version; version1 = capabilities; name = c ∷ cs }, [])
  unfolding send_name_p send_name capabilities
  send_name_p-send_name c cs h = Reads-then _ (big_word-Reads sp h) (
      Reads-then _ (byte_lit-Reads sp (omega arith)) (
        Reads-then _ (big_word-Reads sp (omega arith)) (
          Reads-then _ (big_dword-Reads sp (omega arith))
            (bind-some sp.plus_char _ (sp.string_g (c ∷ cs)) (plus_char-string_g sp c cs)))))

  -- From the message of a status that is not empty and fits the length field, the status is read.
  pub receive_status-receive_status_g :
      (c : ℕ) (cs : MsgSeq)
      → length (c ∷ cs) + 1 < 2 ^ 16
      → receive_status sp (receive_status_g sp (serializable_string (c ∷ cs))) ≡ some (c ∷ cs, [])
  unfolding receive_status receive_status_g
  receive_status-receive_status_g c cs h =
      Reads-then _ (big_word-Reads sp h)
        (Reads-then _ (byte_lit-Reads sp (omega arith)) (plus_char-string_g sp c cs))

  -- From a challenge of 32 bits with a name that is not empty and fits the length field, the challenge
  -- and the name are read.
  pub recv_challenge-send_challenge_g :
      (challenge c : ℕ) (cs : MsgSeq)
      → challenge < 2 ^ 32
      → length (c ∷ cs) + 11 < 2 ^ 16
      → recv_challenge sp (send_challenge_g sp (send_challenge_attributes challenge (c ∷ cs)))
        ≡ some (record { challenge = challenge; node_name = c ∷ cs }, [])
  unfolding recv_challenge send_challenge_g capabilities
  recv_challenge-send_challenge_g challenge c cs h k = Reads-then _ (big_word-Reads sp k) (
      Reads-then _ (byte_lit-Reads sp (omega arith)) (
        Reads-then _ (big_word-Reads sp (omega arith)) (
          Reads-then _ (big_dword-Reads sp (omega arith)) (
            Reads-then _ (big_dword-Reads sp h)
              (bind-some sp.plus_char _ (sp.string_g (c ∷ cs)) (plus_char-string_g sp c cs))))))
