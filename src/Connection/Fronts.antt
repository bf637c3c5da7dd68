-- ===== src/Connection/Fronts.antt =====
-- A connection of impl/node_async_tcp_ip.cpp whose reads during the handshake deliver a message in parts.
use tinch_pp.Prelude.{
  ◌<◌, ◌≡◌, ◌∙◌, refl, ap, sym, subst, [], ◌∷◌, ◌++◌, Option, none, some, arith, length, false,
  bytes_eq, append-nil, if◌then◌else◌, list_beq,
}
use tinch_pp.Types.{MsgSeq, serializable_string}
use tinch_pp.Spirit.{Spirit}
use tinch_pp.Lexer.{Lexer, new_lexer, add, has_complete_msg, next_message, read_handshake_size}
use tinch_pp.Lexer.Pieces.{add_all, concat, IsFrame, IsPartial, add-eq-cut}
use tinch_pp.Lexer.Fronts.{front-IsPartial, add-front}
use tinch_pp.Lexer.Sizes.{
  handshake_frame, handshake_frame-IsFrame, handshake-IsStable, handshake_reassembles,
}
use tinch_pp.Handshake.{receive_status, receive_status_g}
use tinch_pp.Handshake.RoundTrip.{receive_status-receive_status_g}
use tinch_pp.Connection.{
  Connection, Environment, Stepped, steps, never_ends, ReadCallback, status_read, challenge_read,
  receiving_challenge,
}
use tinch_pp.Connection.States.{ok, call_read, on_status, receive_challenge}
use tinch_pp.Connection.Steps.{checked_read}
use tinch_pp.Connection.Messages.{Frame, receive_status_g-Frame}
use tinch_pp.Connection.Callbacks.{parse-some}

-- A connection that reads for the handshake, and has the front of a message.
abbrev pub waits_with : ReadCallback → MsgSeq → Connection → Connection
waits_with callback front k = record k {
  reading = some (callback, false);
  handshake_msgs = record { incomplete = front; msgs = [] };
}

module _ (sp : Spirit) (env : Environment) where
  Frame-IsFrame : (m : MsgSeq) → Frame sp m → IsFrame (read_handshake_size sp) m
  Frame-IsFrame m (body, e, h) =
      subst (IsFrame (read_handshake_size sp)) (sym e) (handshake_frame-IsFrame sp body h)

  pub Frame-pos : (m : MsgSeq) → Frame sp m → 0 < length m
  unfolding handshake_frame
  Frame-pos m (body, e, h) = rw e (rw (sp.big_word_g_lem (length body)) (omega arith))

  add-joins :
      (front piece : MsgSeq)
      → add (read_handshake_size sp) (record { incomplete = front; msgs = [] }) piece
        ≡ add (read_handshake_size sp) new_lexer (front ++ piece)
  add-joins front piece =
      add-eq-cut (read_handshake_size sp) (record { incomplete = front; msgs = [] }) piece
      ∙ sym (add-eq-cut (read_handshake_size sp) new_lexer (front ++ piece))

  after_add : ReadCallback → Connection → Option Lexer → Stepped
  after_add callback k o = elim o [
    | none ↦ never_ends
    | some l ↦
        let c' = record k { reading = none; handshake_msgs = l } in
        if has_complete_msg l
        then call_read sp env callback false c'
        else steps (record c' { reading = some (callback, false) })
  ]

  -- The front counts as if it came with the rest.
  pub read-joins :
      (callback : ReadCallback) (front piece : MsgSeq) (k : Connection)
      → checked_read sp env false piece (waits_with callback front k)
        ≡ checked_read sp env false (front ++ piece) (waits_with callback [] k)
  unfolding checked_read after_add
  read-joins callback front piece k = ap (after_add callback k) (add-joins front piece)

  -- A part of a message that does not complete it.
  pub reads-part :
      (callback : ReadCallback) (front piece rest : MsgSeq) (k : Connection)
      → Frame sp ((front ++ piece) ++ rest)
      → 0 < length rest
      → checked_read sp env false piece (waits_with callback front k)
        ≡ steps (waits_with callback (front ++ piece) k)
  unfolding checked_read has_complete_msg
  reads-part callback front piece rest k f l =
      rw
        (add-front (read_handshake_size sp) front piece (
          front-IsPartial (read_handshake_size sp) (handshake-IsStable sp) (front ++ piece) rest
            (Frame-IsFrame ((front ++ piece) ++ rest) f) l))
        refl

  add-frame_front :
      (m front : MsgSeq)
      → Frame sp m
      → IsPartial (read_handshake_size sp) front
      → add (read_handshake_size sp) new_lexer (m ++ front)
        ≡ some (record { incomplete = front; msgs = m ∷ [] })
  unfolding add_all concat
  add-frame_front m front (body, e, h) p =
      let s : MsgSeq = handshake_frame sp body in
      let all =
        handshake_reassembles sp (body ∷ []) ((s ++ front) ∷ []) front (h, tt) p
          (append-nil (s ++ front) ∙ ap (λ x. x ++ front) (sym (append-nil s))) in
      rw e (ground (arith, all))

  -- The status with a part of the challenge behind it.
  pub reads-status_and_part :
      (front rest : MsgSeq) (k : Connection)
      → k.uses_connected_msgs ≡ false
      → Frame sp (front ++ rest)
      → 0 < length rest
      → checked_read sp env false
          (receive_status_g sp (serializable_string ok) ++ front)
          (waits_with status_read [] k)
        ≡ steps (waits_with challenge_read front (record k { state = receiving_challenge }))
  unfolding list_beq checked_read call_read has_complete_msg next_message on_status
      receive_challenge
  reads-status_and_part front rest k u f l =
      let status = receive_status_g sp (serializable_string ok) in
      rw
        (add-frame_front status front (receive_status_g-Frame sp ok (omega arith)) (
          front-IsPartial (read_handshake_size sp) (handshake-IsStable sp) front rest
            (Frame-IsFrame (front ++ rest) f) l))
        (parse-some (receive_status sp) status _ _
            (receive_status-receive_status_g sp b'o' (b'k' ∷ []) (omega arith))
          ∙ ground (arith, u))
