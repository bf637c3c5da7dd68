-- ===== src/Connection/Digests.antt =====
-- The digests that impl/node_connection_state.cpp compares before it goes on.
use tinch_pp.Prelude.{ℕ, ◌≡◌, some, arith, Option-cases, Bool-cases, inl, inr, bytes_eq}
use tinch_pp.Types.{MsgSeq}
use tinch_pp.Spirit.{Spirit}
use tinch_pp.Handshake.{challenge_reply_p, recv_challenge_ack_p}
use tinch_pp.Connection.{
  Connection, Environment, steps, waiting_for_challenge_reply, sending_challenge_ack,
}
use tinch_pp.Connection.States.{
  calculate_digest, send_ack, make_transition_to_connected, on_reply, on_challenge_ack,
  report_failure,
}

module _ (sp : Spirit) (env : Environment) where
  -- A reply makes the connection send its acknowledgement only if the reply carries the digest of the
  -- own challenge with the cookie.
  pub on_reply-checks :
      (msg : MsgSeq) (c c' : Connection)
      → c.state ≡ waiting_for_challenge_reply
      → on_reply sp env msg c ≡ steps c'
      → c'.state ≡ sending_challenge_ack
      → (challenge : ℕ) × (rest : MsgSeq) × (challenge_reply_p sp msg
          ≡ some (
            record {
              challenge = challenge;
              digest = calculate_digest sp env c.own_challenge env.cookie;
            },
            rest,
          ))
  unfolding on_reply send_ack report_failure
  on_reply-checks msg c c' s h e = elim (Option-cases (challenge_reply_p sp msg)) [
    | inl q ↦ absurd (ground arith)
    | inr ((attr, rest), q) ↦
        let expected = calculate_digest sp env c.own_challenge env.cookie in
        elim (Bool-cases (bytes_eq.beq expected attr.digest)) [
          | inl y ↦ (attr.challenge, rest, rw ((bytes_eq.beq_iff expected attr.digest).0 y) q)
          | inr n ↦ absurd (ground arith)
        ]
  ]

  -- An acknowledgement makes the connection signal success only if it is the digest of the own challenge
  -- with the cookie.
  on_challenge_ack-checks :
      (msg : MsgSeq) (c c' : Connection)
      → on_challenge_ack sp env msg c ≡ steps c'
      → (rest : MsgSeq) × (recv_challenge_ack_p sp msg
          ≡ some (calculate_digest sp env c.own_challenge env.cookie, rest))
        × (c' ≡ make_transition_to_connected c)
  unfolding on_challenge_ack
  on_challenge_ack-checks msg c c' h = elim (Option-cases (recv_challenge_ack_p sp msg)) [
    | inl q ↦ absurd (ground arith)
    | inr ((digest, rest), q) ↦
        let expected = calculate_digest sp env c.own_challenge env.cookie in
        elim (Bool-cases (bytes_eq.beq expected digest)) [
          | inl y ↦ (rest, rw ((bytes_eq.beq_iff expected digest).0 y) q, ground arith)
          | inr n ↦ absurd (ground arith)
        ]
  ]
