-- ===== src/Connection/Batches.antt =====
-- Several messages of connected nodes in one read (impl/node_connection_state.cpp).
use tinch_pp.Prelude.{
  ℕ, ◌≡◌, ◌∙◌, refl, ap, sym, [], ◌∷◌, ◌++◌, some, arith, append_assoc, length, true, false,
  bytes_eq, Bool-cases, inl, inr,
}
use tinch_pp.Types.{MsgSeq}
use tinch_pp.Spirit.{Spirit}
use tinch_pp.Lexer.{new_lexer, add, read_connected_size, has_complete_msg, next_message}
use tinch_pp.Lexer.Pieces.{add_all, concat}
use tinch_pp.Control.{
  ControlMsg, control_msg_send, control_msg_reg_send, control_msg_link, control_msg_unlink,
  control_msg_exit, control_msg_exit2, pass_through,
}
use tinch_pp.Control.Builder.{
  execute, build, build_payload, fill_in_message_size, add_ctrl_message_send,
  add_ctrl_message_reg_send, add_ctrl_message_exit, add_ctrl_message_linkage,
}
use tinch_pp.Control.RoundTrip.{received_as, dispatch-execute}
use tinch_pp.Control.Delivery.{FitsMessage, operations_arrive}
use tinch_pp.Connection.{Connection, Environment, steps, msg_received}
use tinch_pp.Connection.States.{tick, on_msg, call_read}
use tinch_pp.Connection.Steps.{checked_read}

module _ (sp : Spirit) where
  execute-pass_through :
      (op : ControlMsg)
      → (n : ℕ) × (f : MsgSeq) × (execute sp op ≡ sp.big_dword_g n ++ (pass_through ∷ f))
  unfolding execute build build_payload fill_in_message_size add_ctrl_message_send
      add_ctrl_message_reg_send add_ctrl_message_exit add_ctrl_message_linkage
  execute-pass_through (control_msg_send msg to) = (_, _, refl)
  execute-pass_through (control_msg_reg_send msg name from) = (_, _, refl)
  execute-pass_through (control_msg_link from to) = (_, _, refl)
  execute-pass_through (control_msg_unlink from to) = (_, _, refl)
  execute-pass_through (control_msg_exit from to reason) = (_, _, refl)
  execute-pass_through (control_msg_exit2 from to reason) = (_, _, refl)

  -- No operation looks like a tick.
  pub execute-ne : (op : ControlMsg) → bytes_eq.beq (execute sp op) tick ≡ false
  execute-ne op = elim (Bool-cases (bytes_eq.beq (execute sp op) tick)) [
    | inl y ↦
        let (n, f, e) = execute-pass_through op in
        let l : length (sp.big_dword_g n ++ (pass_through ∷ f)) ≡ 4 =
          ap length (sym e ∙ (bytes_eq.beq_iff (execute sp op) tick).0 y) in
        absurd (omega (arith, rw (sp.big_dword_g_lem n) at l))
    | inr other ↦ other
  ]

  add-execute_append :
      (op op' : ControlMsg)
      → FitsMessage sp op
      → FitsMessage sp op'
      → add (read_connected_size sp) new_lexer (execute sp op ++ execute sp op')
        ≡ some (record { incomplete = []; msgs = execute sp op ∷ execute sp op' ∷ [] })
  unfolding add_all concat
  add-execute_append op op' h h' =
      let (e, all) =
        operations_arrive sp (op ∷ op' ∷ []) ((execute sp op ++ execute sp op') ∷ []) (h, (h', tt))
          (append_assoc (execute sp op) (execute sp op') []) in
      ground (arith, e)

  -- Where `char` is unsigned: a connected node whose lexer is empty gets two operations that fit the
  -- protocol in one read. It calls the first on its node, and waits for the next read with the second
  -- still in its lexer.
  pub second_operation_waits :
      (env : Environment) (op op' : ControlMsg) (k : Connection)
      → env.char_is_signed ≡ false
      → FitsMessage sp op
      → FitsMessage sp op'
      → checked_read sp env false
          (execute sp op ++ execute sp op')
          (record k { reading = some (msg_received, true); connected_msgs = new_lexer })
        ≡ steps (record k {
          reading = some (msg_received, k.uses_connected_msgs);
          connected_msgs = record { incomplete = []; msgs = execute sp op' ∷ [] };
          node_calls = k.node_calls ++ (received_as op ∷ []);
        })
  unfolding checked_read call_read has_complete_msg next_message on_msg
  second_operation_waits env op op' k u h h' =
      rw (add-execute_append op op' h h') (rw (execute-ne op, u, dispatch-execute sp op h.0) refl)
