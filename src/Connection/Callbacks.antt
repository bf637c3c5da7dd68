-- ===== src/Connection/Callbacks.antt =====
-- A connection of impl/node_connection_state.cpp that reads the message that its callback expects.
use tinch_pp.Prelude.{
  ℕ, ◌+◌, ◌^◌, ◌<◌, ◌≡◌, ◌∙◌, refl, [], ◌∷◌, ◌++◌, none, some, arith, length, false, beq_refl,
  list_beq, bytes_eq,
}
use tinch_pp.Types.{MsgSeq, serializable_string}
use tinch_pp.Spirit.{Spirit, Parser}
use tinch_pp.Lexer.{new_lexer, has_complete_msg, next_message}
use tinch_pp.Handshake.{
  ChallengeReplyAttributes, send_challenge_attributes, digest_length, send_name, send_name_p,
  receive_status, receive_status_g, recv_challenge, send_challenge_g, challenge_reply_p,
  challenge_reply, recv_challenge_ack_p, send_challenge_ack_g, capabilities,
}
use tinch_pp.Handshake.RoundTrip.{
  challenge_reply_p-challenge_reply, recv_challenge_ack_p-send_challenge_ack_g,
  send_name_p-send_name, receive_status-receive_status_g, recv_challenge-send_challenge_g,
}
use tinch_pp.Connection.{
  Connection, Environment, Stepped, steps, name_read, status_read, challenge_ack_read,
  reply_received, receiving_challenge, challenge_read,
}
use tinch_pp.Connection.States.{
  parse, ok, calculate_digest, to_sending_status, send_reply, send_ack,
  make_transition_to_connected, on_name, on_status, on_challenge, receive_challenge, on_reply,
  on_challenge_ack, call_read,
}
use tinch_pp.Connection.Steps.{checked_read}
use tinch_pp.Connection.Messages.{
  add-Frame, add-Frame_append, send_name-Frame, receive_status_g-Frame, send_challenge_g-Frame,
  challenge_reply-Frame, send_challenge_ack_g-Frame,
}

-- An MD5 sum is of 16 bytes.
abbrev pub IsMd5 : (MsgSeq → MsgSeq) → Type 0
IsMd5 md5 = (s : MsgSeq) → length (md5 s) ≡ digest_length

-- A parser that reads a message hands its value on.
pub parse-some :
    {A : Type 0} (p : Parser A) (msg : MsgSeq) (c : Connection) (k : A → Stepped) {a : A}
    {rest : MsgSeq}
    → p msg ≡ some (a, rest)
    → parse p msg c k ≡ k a
parse-some p msg c k h = rw (h, parse)

module _ (sp : Spirit) (env : Environment) (sums : IsMd5 env.md5) where
  pub length-calculate_digest :
      (n : ℕ) (s : MsgSeq) → length (calculate_digest sp env n s) ≡ digest_length
  unfolding calculate_digest
  length-calculate_digest n s = sums (s ++ env.lexical_cast n)

  pub reads-name :
      (c : ℕ) (cs : MsgSeq) (k : Connection)
      → length (c ∷ cs) + 7 < 2 ^ 16
      → checked_read sp env false
          (send_name sp (serializable_string (c ∷ cs)))
          (record k { reading = some (name_read, false); handshake_msgs = new_lexer })
        ≡ steps (
            to_sending_status sp env
              (record k { peer_name = some (c ∷ cs); reading = none; handshake_msgs = new_lexer }))
  unfolding checked_read call_read has_complete_msg next_message on_name capabilities
  reads-name c cs k h =
      let m = send_name sp (serializable_string (c ∷ cs)) in
      rw (add-Frame sp m (send_name-Frame sp (c ∷ cs) h))
        (parse-some (send_name_p sp) m _ _ (send_name_p-send_name sp c cs h))

  pub reads-reply :
      (challenge : ℕ) (k : Connection)
      → challenge < 2 ^ 32
      → checked_read sp env false
          (challenge_reply sp (record {
            challenge = challenge;
            digest = calculate_digest sp env k.own_challenge env.cookie;
          }))
          (record k { reading = some (reply_received, false); handshake_msgs = new_lexer })
        ≡ steps
            (send_ack sp env challenge (record k { reading = none; handshake_msgs = new_lexer }))
  unfolding checked_read call_read has_complete_msg next_message on_reply
  reads-reply challenge k h =
      let digest = calculate_digest sp env k.own_challenge env.cookie in
      let val : ChallengeReplyAttributes = record { challenge = challenge; digest = digest } in
      let l = length-calculate_digest k.own_challenge env.cookie in
      rw (add-Frame sp (challenge_reply sp val) (challenge_reply-Frame sp val l)) (
        parse-some (challenge_reply_p sp) (challenge_reply sp val) _ _
          (challenge_reply_p-challenge_reply sp val h l)
        ∙ rw (beq_refl bytes_eq digest) refl)

  -- The acceptance of the second message that arrived with the first.
  pub reads-status_and_challenge :
      (challenge c : ℕ) (cs : MsgSeq) (k : Connection)
      → challenge < 2 ^ 32
      → length (c ∷ cs) + 11 < 2 ^ 16
      → checked_read sp env false
          (receive_status_g sp (serializable_string ok)
            ++ send_challenge_g sp (send_challenge_attributes challenge (c ∷ cs)))
          (record k { reading = some (status_read, false); handshake_msgs = new_lexer })
        ≡ steps (
            send_reply sp env challenge (record k {
              state = receiving_challenge;
              reading = none;
              handshake_msgs = new_lexer;
            }))
  unfolding list_beq checked_read call_read has_complete_msg next_message on_status
      receive_challenge on_challenge
  reads-status_and_challenge challenge c cs k h l =
      let status = receive_status_g sp (serializable_string ok) in
      let m = send_challenge_g sp (send_challenge_attributes challenge (c ∷ cs)) in
      let k' : Connection = record k {
        state = receiving_challenge;
        reading = none;
        handshake_msgs = new_lexer;
      } in
      rw
        (add-Frame_append sp status m (receive_status_g-Frame sp ok (omega arith))
          (send_challenge_g-Frame sp challenge (c ∷ cs) l))
        (parse-some (receive_status sp) status _ _
            (receive_status-receive_status_g sp b'o' (b'k' ∷ []) (omega arith))
          ∙ parse-some (recv_challenge sp) m k'
              (λ attributes. steps (send_reply sp env attributes.challenge k'))
              (recv_challenge-send_challenge_g sp challenge c cs h l))

  -- The status alone, and the challenge alone.
  pub reads-status :
      (k : Connection)
      → k.uses_connected_msgs ≡ false
      → checked_read sp env false
          (receive_status_g sp (serializable_string ok))
          (record k { reading = some (status_read, false); handshake_msgs = new_lexer })
        ≡ steps (record k {
          state = receiving_challenge;
          reading = some (challenge_read, false);
          handshake_msgs = new_lexer;
        })
  unfolding list_beq checked_read call_read has_complete_msg next_message on_status
      receive_challenge
  reads-status k u =
      let status = receive_status_g sp (serializable_string ok) in
      rw (add-Frame sp status (receive_status_g-Frame sp ok (omega arith))) (
        parse-some (receive_status sp) status _ _
          (receive_status-receive_status_g sp b'o' (b'k' ∷ []) (omega arith))
        ∙ ground (arith, u))

  pub reads-challenge :
      (challenge c : ℕ) (cs : MsgSeq) (k : Connection)
      → challenge < 2 ^ 32
      → length (c ∷ cs) + 11 < 2 ^ 16
      → checked_read sp env false
          (send_challenge_g sp (send_challenge_attributes challenge (c ∷ cs)))
          (record k { reading = some (challenge_read, false); handshake_msgs = new_lexer })
        ≡ steps
            (send_reply sp env challenge (record k { reading = none; handshake_msgs = new_lexer }))
  unfolding checked_read call_read has_complete_msg next_message on_challenge
  reads-challenge challenge c cs k h l =
      let m = send_challenge_g sp (send_challenge_attributes challenge (c ∷ cs)) in
      rw (add-Frame sp m (send_challenge_g-Frame sp challenge (c ∷ cs) l)) (
        parse-some (recv_challenge sp) m _ _
          (recv_challenge-send_challenge_g sp challenge c cs h l))

  pub reads-ack :
      (k : Connection)
      → checked_read sp env false
          (send_challenge_ack_g sp (calculate_digest sp env k.own_challenge env.cookie))
          (record k { reading = some (challenge_ack_read, false); handshake_msgs = new_lexer })
        ≡ steps
            (make_transition_to_connected (record k { reading = none; handshake_msgs = new_lexer }))
  unfolding checked_read call_read has_complete_msg next_message on_challenge_ack
  reads-ack k =
      let digest = calculate_digest sp env k.own_challenge env.cookie in
      let m = send_challenge_ack_g sp digest in
      let l = length-calculate_digest k.own_challenge env.cookie in
      rw (add-Frame sp m (send_challenge_ack_g-Frame sp digest l)) (
        parse-some (recv_challenge_ack_p sp) m _ _
          (recv_challenge_ack_p-send_challenge_ack_g sp digest l)
        ∙ rw (beq_refl bytes_eq digest) refl)
