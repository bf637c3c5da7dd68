-- ===== src/Connection/Arrivals.antt =====
-- The operations that a connected node reads, from the bytes to the calls on the node
-- (impl/node_connection_state.cpp, impl/node_async_tcp_ip.cpp, impl/utils.cpp).
use tinch_pp.Prelude.{
  ◌<◌, ◌≡◌, ◌∙◌, refl, ap, sym, subst, List, [], ◌∷◌, ◌++◌, some, arith, append_assoc, append-nil,
  length, length-append, true, false, bytes_eq, map, All,
}
use tinch_pp.Types.{MsgSeq}
use tinch_pp.Spirit.{Spirit}
use tinch_pp.Lexer.{read_connected_size, has_complete_msg, next_message}
use tinch_pp.Lexer.Pieces.{concat, IsFrame, IsPartial}
use tinch_pp.Lexer.Fronts.{front-IsPartial, add-front, add-completes}
use tinch_pp.Lexer.Sizes.{connected_frame-IsFrame, connected-IsStable, read_connected_size-nil}
use tinch_pp.Control.{ControlMsg}
use tinch_pp.Control.Builder.{execute}
use tinch_pp.Control.RoundTrip.{received_as, dispatch-execute}
use tinch_pp.Control.Delivery.{FitsMessage, execute-IsFrame, length-connected_frame}
use tinch_pp.Connection.{
  Connection, Environment, Stepped, steps, throws_in, undefined_behaviour, never_ends, msg_received,
}
use tinch_pp.Connection.States.{on_msg, call_read}
use tinch_pp.Connection.Steps.{Event, reads, checked_read, step, run}
use tinch_pp.Connection.Batches.{execute-ne}

-- A connected node that waits for the rest of a message.
abbrev pub reads_on : MsgSeq → Connection → Connection
reads_on front k = record k {
  uses_connected_msgs = true;
  reading = some (msg_received, true);
  connected_msgs = record { incomplete = front; msgs = [] };
}

abbrev called : ControlMsg → Connection → Connection
called op k = record k { node_calls = k.node_calls ++ (received_as op ∷ []) }

-- The reads of an operation: each delivers some bytes.
abbrev pub IsDelivered : Spirit → ControlMsg × List MsgSeq → Type 0
IsDelivered sp (op, pieces) =
    FitsMessage sp op × (All (λ piece. 0 < length piece) pieces × (concat pieces ≡ execute sp op))

-- The reads of the operations, one operation after the other.
abbrev pub all_reads : List (ControlMsg × List MsgSeq) → List Event
all_reads [] = []
all_reads ((op, pieces) ∷ deliveries) = map (reads false) pieces ++ all_reads deliveries

module _ (sp : Spirit) (env : Environment) (unsigned : env.char_is_signed ≡ false) where
  operation-IsFrame :
      (op : ControlMsg) → FitsMessage sp op → IsFrame (read_connected_size sp) (execute sp op)
  operation-IsFrame op h =
      let (body, e) = execute-IsFrame sp op in
      subst (IsFrame (read_connected_size sp)) (sym e) (
        connected_frame-IsFrame sp body
          (omega (arith, length-connected_frame sp body, ap length e, h.1)))

  read-front :
      (front piece : MsgSeq) (k : Connection)
      → IsPartial (read_connected_size sp) (front ++ piece)
      → checked_read sp env false piece (reads_on front k) ≡ steps (reads_on (front ++ piece) k)
  unfolding checked_read has_complete_msg
  read-front front piece k h = rw (add-front (read_connected_size sp) front piece h) refl

  read-completes :
      (op : ControlMsg) (front piece : MsgSeq) (k : Connection)
      → FitsMessage sp op
      → front ++ piece ≡ execute sp op
      → checked_read sp env false piece (reads_on front k) ≡ steps (reads_on [] (called op k))
  unfolding checked_read call_read has_complete_msg next_message on_msg
  read-completes op front piece k h e =
      let f = subst (IsFrame (read_connected_size sp)) (sym e) (operation-IsFrame op h) in
      rw (add-completes (read_connected_size sp) front piece f)
        (rw (e, execute-ne sp op, unsigned, dispatch-execute sp op h.0) refl)

  run-steps :
      (e : Event) (es : List Event) (c c' : Connection)
      → step sp env e c ≡ steps c'
      → run sp env (e ∷ es) c ≡ run sp env es c'
  unfolding run
  run-steps e es c c' h = rw (h, run) refl

  -- The bytes of one operation, in any pieces, end in its call.
  operation_called :
      (op : ControlMsg) (pieces : List MsgSeq) (front : MsgSeq) (k : Connection)
      → FitsMessage sp op
      → IsPartial (read_connected_size sp) front
      → All (λ piece. 0 < length piece) pieces
      → front ++ concat pieces ≡ execute sp op
      → run sp env (map (reads false) pieces) (reads_on front k) ≡ steps (reads_on [] (called op k))
  unfolding step concat
  operation_called op [] front k h p l e =
      let q : front ≡ execute sp op = sym (append-nil front) ∙ e in
      let f = subst (IsFrame (read_connected_size sp)) (sym q) (operation-IsFrame op h) in
      absurd (omega (arith, p (length front) f))
  operation_called op (piece ∷ []) front k h p l e =
      run-steps (reads false piece) [] (reads_on front k) (reads_on [] (called op k))
        (read-completes op front piece k h (ap (λ x. front ++ x) (sym (append-nil piece)) ∙ e))
      ∙ unfold run in refl
  operation_called op (piece ∷ piece' ∷ pieces) front k h p (l, (l', ls)) e =
      let rest : MsgSeq = piece' ++ concat pieces in
      let q : (front ++ piece) ++ rest ≡ execute sp op = append_assoc front piece rest ∙ e in
      let f = subst (IsFrame (read_connected_size sp)) (sym q) (operation-IsFrame op h) in
      let p' =
        front-IsPartial (read_connected_size sp) (connected-IsStable sp) (front ++ piece) rest f
          (omega (arith, l', length-append piece' (concat pieces))) in
      run-steps (reads false piece) (map (reads false) (piece' ∷ pieces)) (reads_on front k)
        (reads_on (front ++ piece) k) (read-front front piece k p')
      ∙ operation_called op (piece' ∷ pieces) (front ++ piece) k h p' (l', ls) q

  run-append :
      (es fs : List Event) (c c' : Connection)
      → run sp env es c ≡ steps c'
      → run sp env (es ++ fs) c ≡ run sp env fs c'
  unfolding run
  run-append [] fs c c' h =
      ap
        (λ s. elim s as (λ _. Stepped) [
          | steps k ↦ run sp env fs k
          | throws_in k ↦ throws_in k
          | undefined_behaviour ↦ undefined_behaviour
          | never_ends ↦ never_ends
        ])
        h
  run-append (e ∷ es) fs c c' h = grind (arith, run-append es fs)

  -- A connected node whose lexer is empty, where `char` is unsigned, reads operations that fit the
  -- protocol, one after the other. The bytes of each come in any pieces, and no read delivers bytes of
  -- two operations. Then every step ends normally, each operation is called on the node as the one
  -- that was executed on the other side, in order, and nothing is left in the lexer.
  pub operations_called :
      (deliveries : List (ControlMsg × List MsgSeq)) (k : Connection)
      → All (IsDelivered sp) deliveries
      → run sp env (all_reads deliveries) (reads_on [] k)
        ≡ steps (
            reads_on []
              (record k { node_calls = k.node_calls ++ map (λ d. received_as d.0) deliveries }))
  unfolding run
  operations_called [] k h =
      ap (λ calls. steps (reads_on [] (record k { node_calls = calls })))
        (sym (append-nil k.node_calls))
  operations_called ((op, pieces) ∷ deliveries) k ((fits, (l, e)), h) =
      run-append (map (reads false) pieces) (all_reads deliveries) (reads_on [] k)
        (reads_on [] (called op k))
        (operation_called op pieces [] k fits (λ n r. absurd (cc (r, read_connected_size-nil sp))) l
          e)
      ∙ operations_called deliveries (called op k) h
      ∙ ap (λ calls. steps (reads_on [] (record k { node_calls = calls })))
          (append_assoc k.node_calls (received_as op ∷ []) (map (λ d. received_as d.0) deliveries))
