-- ===== src/Connection/Handshake.antt =====
-- The handshake of impl/node_connection_state.cpp, as the node that is connected to and as the node
-- that connects.
use tinch_pp.Prelude.{
  ℕ, ◌+◌, ◌^◌, ◌<◌, ◌≡◌, ◌∙◌, refl, List, [], ◌∷◌, ◌++◌, Option, none, some, length, true, false,
  bytes_eq,
}
use tinch_pp.Types.{MsgSeq, serializable_string}
use tinch_pp.Spirit.{Spirit}
use tinch_pp.Handshake.{
  send_challenge_attributes, send_name, receive_status_g, send_challenge_g, challenge_reply,
  send_challenge_ack_g,
}
use tinch_pp.Connection.{
  Connection, new_connection, Environment, steps, connected, name_read, status_read,
  challenge_ack_read, reply_received, msg_received, receiving_challenge, waiting_for_status,
  receiving_challenge_ack, waiting_for_challenge_reply,
}
use tinch_pp.Connection.States.{
  ok, calculate_digest, to_sending_status, send_reply, send_ack, make_transition_to_connected,
  handshake_complete, call_written,
}
use tinch_pp.Connection.Steps.{
  checked_read, checked_write, start_handshake_as_A, start_handshake_as_B, Event, starts_as_A,
  starts_as_B, reads, writes, step, run,
}
use tinch_pp.Connection.Callbacks.{
  IsMd5, reads-name, reads-reply, reads-status_and_challenge, reads-ack,
}

module _ (sp : Spirit) (env : Environment) (sums : IsMd5 env.md5) where
  run-reads :
      (bytes : MsgSeq) (es : List Event) (k k' : Connection)
      → checked_read sp env false bytes k ≡ steps k'
      → run sp env (reads false bytes ∷ es) k ≡ run sp env es k'
  unfolding run step
  run-reads bytes es k k' h = rw (h, run) refl

  -- The node that is connected to: it receives the name of its peer, which is not empty and fits the
  -- message, and a reply with a challenge and the digest of its own challenge. It takes the name, writes
  -- its status, its challenge and the digest of the peer's challenge, in this order, signals success
  -- once, and ends in the connected state, in which it reads.
  pub connects_as_B :
      (own peer c : ℕ) (cs : MsgSeq)
      → peer < 2 ^ 32
      → length (c ∷ cs) + 7 < 2 ^ 16
      → run sp env
          (starts_as_B own
            ∷ reads false (send_name sp (serializable_string (c ∷ cs)))
            ∷ writes false
            ∷ writes false
            ∷ reads false (
                challenge_reply sp
                  (record { challenge = peer; digest = calculate_digest sp env own env.cookie }))
            ∷ writes false
            ∷ [])
          (new_connection none)
        ≡ steps (record (new_connection (some (c ∷ cs))) {
          state = connected;
          own_challenge = own;
          uses_connected_msgs = true;
          reading = some (msg_received, true);
          written =
              (receive_status_g sp (serializable_string ok)
                ++ send_challenge_g sp (send_challenge_attributes own env.name))
              ++ send_challenge_ack_g sp (calculate_digest sp env peer env.cookie);
          handshake_success = true ∷ [];
        })
  unfolding run step start_handshake_as_B checked_write call_written handshake_complete
      to_sending_status send_ack make_transition_to_connected
  connects_as_B own peer c cs h l =
      let k0 : Connection = record (new_connection none) { own_challenge = own } in
      let status = receive_status_g sp (serializable_string ok) in
      let m = send_challenge_g sp (send_challenge_attributes own env.name) in
      let k1 : Connection = record (new_connection (some (c ∷ cs))) {
        own_challenge = own;
        state = waiting_for_challenge_reply;
        written = status ++ m;
      } in
      let reply =
        challenge_reply sp
          (record { challenge = peer; digest = calculate_digest sp env own env.cookie }) in
      run-reads (send_name sp (serializable_string (c ∷ cs)))
        (writes false ∷ writes false ∷ reads false reply ∷ writes false ∷ [])
        (record k0 { reading = some (name_read, false) })
        (to_sending_status sp env (record k0 { peer_name = some (c ∷ cs) }))
        (reads-name sp env sums c cs k0 l)
      ∙ run-reads reply (writes false ∷ []) (record k1 { reading = some (reply_received, false) })
          (send_ack sp env peer k1) (reads-reply sp env sums peer k1 h)

  -- The node that connects: it receives a status `ok` together with a challenge, from a peer whose name
  -- is not empty and fits the message, and then the digest of its own challenge. It writes its name, and
  -- its challenge with the digest of the peer's, in this order, signals success once, and ends in the
  -- connected state, in which it reads.
  pub connects_as_A :
      (own peer c : ℕ) (cs : MsgSeq) (peer_name : Option MsgSeq)
      → peer < 2 ^ 32
      → length (c ∷ cs) + 11 < 2 ^ 16
      → run sp env
          (starts_as_A own
            ∷ writes false
            ∷ reads false (
                receive_status_g sp (serializable_string ok)
                ++ send_challenge_g sp (send_challenge_attributes peer (c ∷ cs)))
            ∷ writes false
            ∷ reads false (send_challenge_ack_g sp (calculate_digest sp env own env.cookie))
            ∷ [])
          (new_connection peer_name)
        ≡ steps (record (new_connection peer_name) {
          state = connected;
          own_challenge = own;
          uses_connected_msgs = true;
          reading = some (msg_received, true);
          written =
              send_name sp (serializable_string env.name)
              ++ challenge_reply sp
                  (record { challenge = own; digest = calculate_digest sp env peer env.cookie });
          handshake_success = true ∷ [];
        })
  unfolding run step start_handshake_as_A checked_write call_written handshake_complete send_reply
      make_transition_to_connected
  connects_as_A own peer c cs peer_name h l =
      let name = send_name sp (serializable_string env.name) in
      let reply =
        challenge_reply sp
          (record { challenge = own; digest = calculate_digest sp env peer env.cookie }) in
      let k0 : Connection = record (new_connection peer_name) {
        own_challenge = own;
        state = waiting_for_status;
        written = name;
      } in
      let k1 : Connection = record (new_connection peer_name) {
        own_challenge = own;
        state = receiving_challenge_ack;
        written = name ++ reply;
      } in
      let received =
        receive_status_g sp (serializable_string ok)
        ++ send_challenge_g sp (send_challenge_attributes peer (c ∷ cs)) in
      let ack = send_challenge_ack_g sp (calculate_digest sp env own env.cookie) in
      run-reads received (writes false ∷ reads false ack ∷ [])
        (record k0 { reading = some (status_read, false) })
        (send_reply sp env peer (record k0 { state = receiving_challenge }))
        (reads-status_and_challenge sp env sums peer c cs k0 h l)
      ∙ run-reads ack [] (record k1 { reading = some (challenge_ack_read, false) })
          (make_transition_to_connected k1) (reads-ack sp env sums k1)
