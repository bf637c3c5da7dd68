-- ===== src/Connection/Meeting.antt =====
-- Two nodes of the program, with the same cookie, connect to each other phase by phase
-- (impl/node_connection_state.cpp on both sides).
use tinch_pp.Prelude.{
  ℕ, ◌+◌, ◌<◌, ◌≡◌, length, if◌then◌else◌, [], ◌∷◌, ◌++◌, Option, none, some, true, false,
}
use tinch_pp.Types.{MsgSeq, serializable_string}
use tinch_pp.Spirit.{Spirit}
use tinch_pp.Handshake.{
  send_challenge_attributes, send_name, receive_status_g, send_challenge_g, challenge_reply,
  send_challenge_ack_g,
}
use tinch_pp.Connection.{
  Connection, new_connection, Environment, connected, waiting_for_status, receiving_challenge,
  sending_challenge_reply, receiving_challenge_ack, sending_status, waiting_for_challenge_reply,
  sending_challenge_ack, name_read, status_read, challenge_read, challenge_ack_read, reply_received,
  msg_received, WriteCallback, handshake_sent, challenge_written, challenge_ack_written,
  ignore_write_notification,
}
use tinch_pp.Connection.States.{ok, calculate_digest}
use tinch_pp.Connection.Pairs.{Pair}
use tinch_pp.Connection.Phases.{
  is_read, Phase, name_queued, name_sent, status_queued, status_sent, challenge_queued,
  challenge_sent, both_sent, reply_queued, ack_queued, ack_sent, finished,
}

-- The two nodes: their challenges, their names, which are not empty, and the name by which the first
-- knows the other.
module _ (sp : Spirit) (env : Environment) (own_a own_b first_a first_b : ℕ)
    (rest_a rest_b : MsgSeq) (known : Option MsgSeq) where
  abbrev pub env_of : ℕ → MsgSeq → Environment
  env_of first rest = record env { name = first ∷ rest }

  abbrev pub name_msg : MsgSeq
  name_msg = send_name sp (serializable_string (first_a ∷ rest_a))

  abbrev pub status_msg : MsgSeq
  status_msg = receive_status_g sp (serializable_string ok)

  abbrev pub challenge_msg : MsgSeq
  challenge_msg = send_challenge_g sp (send_challenge_attributes own_b (first_b ∷ rest_b))

  abbrev pub reply_msg : MsgSeq
  reply_msg =
      challenge_reply sp
        (record { challenge = own_a; digest = calculate_digest sp env own_b env.cookie })

  abbrev pub ack_msg : MsgSeq
  ack_msg = send_challenge_ack_g sp (calculate_digest sp env own_a env.cookie)

  abbrev pub base_a : Connection
  base_a = record (new_connection known) { own_challenge = own_a }

  abbrev pub base_b : Connection
  base_b = record (new_connection (some (first_a ∷ rest_a))) { own_challenge = own_b }

  -- The first node in each phase.
  abbrev pub a_at : Phase → Connection
  a_at name_queued = record base_a { write_queue = (name_msg, handshake_sent) ∷ [] }
  a_at challenge_queued = record base_a {
    state = receiving_challenge;
    reading = some (challenge_read, false);
    written = name_msg;
  }
  a_at challenge_sent = record base_a {
    state = receiving_challenge;
    reading = some (challenge_read, false);
    written = name_msg;
  }
  a_at reply_queued = record base_a {
    state = sending_challenge_reply;
    write_queue = (reply_msg, WriteCallback.reply_sent) ∷ [];
    written = name_msg;
  }
  a_at Phase.reply_sent = record base_a {
    state = receiving_challenge_ack;
    reading = some (challenge_ack_read, false);
    written = name_msg ++ reply_msg;
  }
  a_at ack_queued = record base_a {
    state = receiving_challenge_ack;
    reading = some (challenge_ack_read, false);
    written = name_msg ++ reply_msg;
  }
  a_at ack_sent = record base_a {
    state = receiving_challenge_ack;
    reading = some (challenge_ack_read, false);
    written = name_msg ++ reply_msg;
  }
  a_at finished = record base_a {
    state = connected;
    uses_connected_msgs = true;
    reading = some (msg_received, true);
    written = name_msg ++ reply_msg;
    handshake_success = true ∷ [];
  }
  a_at _ = record base_a {
    state = waiting_for_status;
    reading = some (status_read, false);
    written = name_msg;
  }

  -- The other node.
  abbrev pub b_at : Phase → Connection
  b_at name_queued = record (new_connection none) {
    own_challenge = own_b;
    reading = some (name_read, false);
  }
  b_at name_sent = record (new_connection none) {
    own_challenge = own_b;
    reading = some (name_read, false);
  }
  b_at status_queued = record base_b {
    state = sending_status;
    write_queue = (status_msg, ignore_write_notification) ∷ (challenge_msg, challenge_written) ∷ [];
  }
  b_at status_sent = record base_b {
    state = sending_status;
    write_queue = (challenge_msg, challenge_written) ∷ [];
    written = status_msg;
  }
  b_at challenge_queued = record base_b {
    state = sending_status;
    write_queue = (challenge_msg, challenge_written) ∷ [];
    written = status_msg;
  }
  b_at ack_queued = record base_b {
    state = sending_challenge_ack;
    write_queue = (ack_msg, challenge_ack_written) ∷ [];
    written = status_msg ++ challenge_msg;
  }
  b_at ack_sent = record base_b {
    state = connected;
    uses_connected_msgs = true;
    reading = some (msg_received, true);
    written = (status_msg ++ challenge_msg) ++ ack_msg;
    handshake_success = true ∷ [];
  }
  b_at finished = record base_b {
    state = connected;
    uses_connected_msgs = true;
    reading = some (msg_received, true);
    written = (status_msg ++ challenge_msg) ++ ack_msg;
    handshake_success = true ∷ [];
  }
  b_at _ = record base_b {
    state = waiting_for_challenge_reply;
    reading = some (reply_received, false);
    written = status_msg ++ challenge_msg;
  }

  -- The message that is read in a phase, and what comes behind it.
  abbrev pub awaited : Phase → MsgSeq
  awaited name_sent = name_msg
  awaited status_sent = status_msg
  awaited both_sent = status_msg
  awaited challenge_sent = challenge_msg
  awaited Phase.reply_sent = reply_msg
  awaited ack_sent = ack_msg
  awaited _ = []

  -- The part of the message that the reader has, and what is on its way, with the part that it has not.
  abbrev pub a_front : Phase → MsgSeq → MsgSeq
  a_front status_sent front = front
  a_front both_sent front = front
  a_front challenge_sent front = front
  a_front ack_sent front = front
  a_front _ front = []

  abbrev pub b_front : Phase → MsgSeq → MsgSeq
  b_front name_sent front = front
  b_front Phase.reply_sent front = front
  b_front _ front = []

  abbrev pub to_a_at : Phase → MsgSeq → MsgSeq
  to_a_at status_sent rest = rest
  to_a_at both_sent rest = rest ++ challenge_msg
  to_a_at challenge_sent rest = rest
  to_a_at ack_sent rest = rest
  to_a_at _ rest = []

  abbrev pub to_b_at : Phase → MsgSeq → MsgSeq
  to_b_at name_sent rest = rest
  to_b_at Phase.reply_sent rest = rest
  to_b_at _ rest = []

  abbrev pub with_front : MsgSeq → Connection → Connection
  with_front front k = record k { handshake_msgs = record { incomplete = front; msgs = [] } }

  -- The two nodes in a phase, in which a part of the message has been read.
  abbrev pub pair_at : Phase → MsgSeq → MsgSeq → Pair
  pair_at p front rest = record {
    a = with_front (a_front p front) (a_at p);
    b = with_front (b_front p front) (b_at p);
    to_a = to_a_at p rest;
    to_b = to_b_at p rest;
  }

  -- The parts make up the message, and it is not complete.
  abbrev pub AreParts : Phase → MsgSeq → MsgSeq → Type 0
  AreParts p front rest = (front ++ rest ≡ awaited p) × (is_read p ≡ true → 0 < length rest)

  -- The writes and the bytes to be read that are left.
  abbrev pub left_after : Phase → ℕ
  left_after finished = 0
  left_after ack_sent = 0
  left_after ack_queued = 1 + length ack_msg
  left_after Phase.reply_sent = 1 + length ack_msg
  left_after reply_queued = 1 + length reply_msg + (1 + length ack_msg)
  left_after challenge_sent = 1 + length reply_msg + (1 + length ack_msg)
  left_after both_sent = length challenge_msg + (1 + length reply_msg + (1 + length ack_msg))
  left_after challenge_queued =
      1 + length challenge_msg + (1 + length reply_msg + (1 + length ack_msg))
  left_after status_sent = 1 + length challenge_msg + (1 + length reply_msg + (1 + length ack_msg))
  left_after status_queued =
      1
      + length status_msg
      + (1 + length challenge_msg + (1 + length reply_msg + (1 + length ack_msg)))
  left_after name_sent =
      1
      + length status_msg
      + (1 + length challenge_msg + (1 + length reply_msg + (1 + length ack_msg)))
  left_after name_queued =
      1
      + length name_msg
      + (1
          + length status_msg
          + (1 + length challenge_msg + (1 + length reply_msg + (1 + length ack_msg))))

  abbrev pub left : Phase → MsgSeq → ℕ
  left p rest = if is_read p then left_after p + length rest else left_after p
