-- ===== src/Connection/States.antt =====
-- impl/node_connection_state.cpp and impl/node_connection.cpp: what the states of a connection do when
-- they are entered and when they are called back.
use tinch_pp.Prelude.{
  ℕ, ◌^◌, Bool, true, false, ◌&&◌, ◌||◌, [], ◌∷◌, ◌++◌, none, some, ltb, leb, bytes_eq, ◌==◌,
  if◌then◌else◌, replicate,
}
use tinch_pp.Types.{MsgSeq, serializable_string}
use tinch_pp.Spirit.{Spirit, Parser}
use tinch_pp.Lexer.{Lexer, next_message}
use tinch_pp.Handshake.{
  SentName, ChallengeReplyAttributes, send_challenge_attributes, supported_version, send_name_p,
  receive_status, receive_status_g, recv_challenge, send_challenge_g, challenge_reply_p,
  challenge_reply, recv_challenge_ack_p, send_challenge_ack_g,
}
use tinch_pp.Control.{header_size}
use tinch_pp.Control.Dispatcher.{returns, throws, reads_past_end, dispatch}
use tinch_pp.Connection.{
  State, connected_tcp, waiting_for_status, receiving_challenge, sending_challenge_reply,
  receiving_challenge_ack, sending_status, waiting_for_challenge_reply, sending_challenge_ack,
  connected, ReadCallback, name_read, status_read, challenge_read, challenge_ack_read,
  reply_received, msg_received, WriteCallback, handshake_sent, reply_sent, challenge_written,
  challenge_ack_written, ignore_write_notification, Connection, Environment, Stepped, steps,
  throws_in, undefined_behaviour,
}

abbrev pub change_state : State → Connection → Connection
change_state new_state c = record c { state = new_state }

abbrev pub trigger_read : ReadCallback → Connection → Connection
trigger_read callback c = record c { reading = some (callback, c.uses_connected_msgs) }

-- The front of the queue is the write in progress.
abbrev pub trigger_write : MsgSeq → WriteCallback → Connection → Connection
trigger_write msg callback c = record c { write_queue = c.write_queue ++ ((msg, callback) ∷ []) }

abbrev pub signal : Bool → Connection → Connection
signal success c = record c { handshake_success = c.handshake_success ++ (success ∷ []) }

unfoldable pub handshake_complete : Connection → Connection
handshake_complete c = signal true (record c { uses_connected_msgs = true })

unfoldable pub report_failure : Connection → Connection
report_failure c = signal false (change_state connected_tcp c)

unfoldable pub make_transition_to_connected : Connection → Connection
unfolding handshake_complete
make_transition_to_connected c =
    trigger_read msg_received (handshake_complete (change_state connected c))

unfoldable pub handle_io_error : Connection → Stepped
unfolding report_failure
handle_io_error c = elim c.state [ connected ↦ throws_in c | _ ↦ steps (report_failure c) ]

-- The lexer that a read in progress fills.
abbrev pub received_msgs : Bool → Connection → Lexer
received_msgs uses_connected c = if uses_connected then c.connected_msgs else c.handshake_msgs

abbrev pub with_received_msgs : Bool → Lexer → Connection → Connection
with_received_msgs true l c = record c { connected_msgs = l }
with_received_msgs false l c = record c { handshake_msgs = l }

-- The constructors of the states that read at once, and the changes to them.
abbrev pub to_waiting_for_status : Connection → Connection
to_waiting_for_status c = change_state waiting_for_status (trigger_read status_read c)

abbrev pub to_receiving_challenge_ack : Connection → Connection
to_receiving_challenge_ack c =
    change_state receiving_challenge_ack (trigger_read challenge_ack_read c)

abbrev pub to_waiting_for_challenge_reply : Connection → Connection
to_waiting_for_challenge_reply c =
    change_state waiting_for_challenge_reply (trigger_read reply_received c)

-- "ok", "ok_simultaneous"
abbrev pub ok : MsgSeq
ok = b'o' ∷ b'k' ∷ []

abbrev pub ok_simultaneous : MsgSeq
ok_simultaneous =
    b'o' ∷ b'k' ∷ b'_' ∷ b's' ∷ b'i' ∷ b'm' ∷ b'u' ∷ b'l' ∷ b't' ∷ b'a' ∷ b'n' ∷ b'e' ∷ b'o' ∷ b'u'
    ∷ b's' ∷ []

-- `connected_tcp::supported_version`: the second version is an `int`, negative from 2 ^ 31 on.
abbrev pub supports : SentName → Bool
supports received =
    leb received.version0 supported_version
    && (leb supported_version received.version1 && ltb received.version1 (2 ^ 31))

-- `connected::is_tick`.
abbrev pub tick : MsgSeq
tick = replicate header_size 0

-- `utils::parse`: a failure is an exception.
abbrev pub parse : {A : Type 0} → Parser A → MsgSeq → Connection → (A → Stepped) → Stepped
parse p msg c k = elim (p msg) [ none ↦ throws_in c | some (attr, rest) ↦ k attr ]

module _ (sp : Spirit) (env : Environment) where
  unfoldable pub calculate_digest : ℕ → MsgSeq → MsgSeq
  calculate_digest challenge cookie = env.md5 (cookie ++ env.lexical_cast challenge)

  -- The constructor of `sending_status`, and the change to that state.
  unfoldable pub to_sending_status : Connection → Connection
  to_sending_status c =
      let status_msg = receive_status_g sp (serializable_string ok) in
      let challenge_msg =
        send_challenge_g sp (send_challenge_attributes c.own_challenge env.name) in
      change_state sending_status (
        trigger_write challenge_msg challenge_written
          (trigger_write status_msg ignore_write_notification c))

  -- The change to `sending_challenge_reply`, and its `send`.
  unfoldable pub send_reply : ℕ → Connection → Connection
  unfolding calculate_digest
  send_reply challenge_from_B c =
      let attributes : ChallengeReplyAttributes = record {
        challenge = c.own_challenge;
        digest = calculate_digest challenge_from_B env.cookie;
      } in
      trigger_write (challenge_reply sp attributes) reply_sent
        (change_state sending_challenge_reply c)

  -- The change to `sending_challenge_ack`, and its `send_ack`.
  unfoldable pub send_ack : ℕ → Connection → Connection
  unfolding calculate_digest
  send_ack challenge c =
      trigger_write (send_challenge_ack_g sp (calculate_digest challenge env.cookie))
        challenge_ack_written (change_state sending_challenge_ack c)

  unfoldable pub on_name : MsgSeq → Connection → Stepped
  unfolding to_sending_status report_failure
  on_name msg c = parse (send_name_p sp) msg c λ sent_name.
      if supports sent_name
      then steps (to_sending_status (record c { peer_name = some sent_name.name }))
      else steps (report_failure c)

  unfoldable pub on_challenge : MsgSeq → Connection → Stepped
  unfolding send_reply
  on_challenge msg c =
      parse (recv_challenge sp) msg c λ attributes. steps (send_reply attributes.challenge c)

  unfoldable pub receive_challenge : Bool → Connection → Stepped
  unfolding on_challenge next_message
  receive_challenge uses_connected c =
      let (msg, read_msgs) = next_message (received_msgs uses_connected c) in
      elim msg [
        | none ↦ steps (trigger_read challenge_read c)
        | some m ↦ on_challenge m (with_received_msgs uses_connected read_msgs c)
      ]

  unfoldable pub on_status : Bool → MsgSeq → Connection → Stepped
  unfolding receive_challenge report_failure
  on_status uses_connected msg c = parse (receive_status sp) msg c λ status.
      if status == ok || status == ok_simultaneous
      then receive_challenge uses_connected (change_state receiving_challenge c)
      else steps (report_failure c)

  -- `waiting_for_challenge_reply::is_correct_digest`, `receiving_challenge_ack::is_correct`.
  abbrev pub is_correct_digest : ChallengeReplyAttributes → Connection → Bool
  is_correct_digest reply_attr c = calculate_digest c.own_challenge env.cookie == reply_attr.digest

  abbrev pub is_correct : MsgSeq → Connection → Bool
  is_correct digest c = calculate_digest c.own_challenge env.cookie == digest

  unfoldable pub on_reply : MsgSeq → Connection → Stepped
  unfolding calculate_digest send_ack report_failure
  on_reply msg c = parse (challenge_reply_p sp) msg c λ reply_attr.
      if is_correct_digest reply_attr c
      then steps (send_ack reply_attr.challenge c)
      else steps (report_failure c)

  unfoldable pub on_challenge_ack : MsgSeq → Connection → Stepped
  unfolding calculate_digest make_transition_to_connected
  on_challenge_ack msg c =
      parse (recv_challenge_ack_p sp) msg c λ digest.
        if is_correct digest c then steps (make_transition_to_connected c) else throws_in c

  -- A `tinch_pp_exception` is caught, and the next read is triggered all the same.
  unfoldable pub on_msg : MsgSeq → Connection → Stepped
  on_msg msg c =
      if msg == tick
      then steps (trigger_read msg_received (trigger_write tick ignore_write_notification c))
      else elim (dispatch sp env.char_is_signed msg) [
        | returns call ↦
            steps
              (trigger_read msg_received (record c { node_calls = c.node_calls ++ (call ∷ []) }))
        | throws ↦ steps (trigger_read msg_received c)
        | reads_past_end ↦ undefined_behaviour
      ]

  -- Each callback takes the first of the messages.
  unfoldable pub call_read : ReadCallback → Bool → Connection → Stepped
  unfolding next_message on_name on_status on_challenge on_challenge_ack on_reply on_msg
  call_read callback uses_connected c =
      let (msg, read_msgs) = next_message (received_msgs uses_connected c) in
      let c' = with_received_msgs uses_connected read_msgs c in
      elim msg [
        | none ↦ undefined_behaviour
        | some m ↦ elim callback [
          | name_read ↦ on_name m c'
          | status_read ↦ on_status uses_connected m c'
          | challenge_read ↦ on_challenge m c'
          | challenge_ack_read ↦ on_challenge_ack m c'
          | reply_received ↦ on_reply m c'
          | msg_received ↦ on_msg m c'
        ]
      ]

  unfoldable pub call_written : WriteCallback → Connection → Connection
  unfolding make_transition_to_connected
  call_written handshake_sent c = to_waiting_for_status c
  call_written reply_sent c = to_receiving_challenge_ack c
  call_written challenge_written c = to_waiting_for_challenge_reply c
  call_written challenge_ack_written c = make_transition_to_connected c
  call_written ignore_write_notification c = c
