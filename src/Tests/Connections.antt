-- ===== src/Tests/Connections.antt =====
-- The handshake with a given name, cookie and digest (impl/node_connection_state.cpp).
use tinch_pp.Prelude.{ℕ, ◌≡◌, refl, false, [], ◌∷◌, none, some, replicate, list_beq}
use tinch_pp.Types.{MsgSeq}
use tinch_pp.Spirit.Reference.{reference}
use tinch_pp.Handshake.{challenge_reply_p, recv_challenge_ack_p}
use tinch_pp.Connection.{
  Connection, new_connection, Environment, steps, waiting_for_challenge_reply,
}
use tinch_pp.Connection.States.{
  calculate_digest, on_reply, on_challenge_ack, send_ack, make_transition_to_connected,
}
use tinch_pp.Connection.Digests.{on_reply-checks}

abbrev env : Environment
env = record {
  name = b'b' ∷ b'@' ∷ b'h' ∷ [];
  cookie = b'c' ∷ [];
  md5 = λ s. replicate 16 1;
  lexical_cast = λ n. b'0' ∷ [];
  char_is_signed = false;
}

abbrev waiting : Connection
waiting = record (new_connection none) { state = waiting_for_challenge_reply; own_challenge = 7 }

abbrev reply : MsgSeq
reply = 0 ∷ 21 ∷ b'r' ∷ 0 ∷ 0 ∷ 0 ∷ 9 ∷ replicate 16 1

abbrev ack : MsgSeq
ack = 0 ∷ 17 ∷ b'a' ∷ replicate 16 1

reply-accepted : on_reply reference env reply waiting ≡ steps (send_ack reference env 9 waiting)
unfolding on_reply challenge_reply_p calculate_digest list_beq
reply-accepted = refl

on_reply-checks_example :
    (challenge : ℕ) × (rest : MsgSeq) × (challenge_reply_p reference reply
      ≡ some (
        record { challenge = challenge; digest = calculate_digest reference env 7 env.cookie },
        rest,
      ))
on_reply-checks_example =
    on_reply-checks reference env reply waiting (send_ack reference env 9 waiting) refl
      reply-accepted (unfold send_ack in refl)

ack-accepted :
    on_challenge_ack reference env ack waiting ≡ steps (make_transition_to_connected waiting)
unfolding on_challenge_ack recv_challenge_ack_p calculate_digest list_beq
ack-accepted = refl
