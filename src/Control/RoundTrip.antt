-- ===== src/Control/RoundTrip.antt =====
-- What impl/ctrl_msg_dispatcher.cpp does with the messages of impl/ext_message_builder.cpp.
use tinch_pp.Prelude.{
  ℕ, ◌≡◌, ◌≢◌, ◌∙◌, refl, Bool, true, false, [], ◌∷◌, ◌++◌, arith, inl, inr, ◌⊎◌, Option-cases,
}
use tinch_pp.Types.{MsgSeq}
use tinch_pp.Spirit.{Spirit, ◌>>=◌, ◌>>◌}
use tinch_pp.Terms.RoundTrip.{FitsPid, FitsAtom}
use tinch_pp.Control.{
  magic_version, pass_through, ControlMsg, control_msg_send, control_msg_reg_send, control_msg_link,
  control_msg_unlink, control_msg_exit, control_msg_exit2,
}
use tinch_pp.Control.Builder.{
  execute, build, build_payload, fill_in_message_size, add_ctrl_message_send,
  add_ctrl_message_reg_send, add_ctrl_message_exit, add_ctrl_message_linkage,
}
use tinch_pp.Control.Dispatcher.{
  NodeCall, receive_incoming, receive_incoming_name, incoming_link, incoming_unlink, incoming_exit,
  incoming_exit2, returns, throws, reads_past_end, check_term_version, parse_header, run_chain,
  operations_chain, dispatch,
}
use tinch_pp.Control.Operations.{
  chain_send, chain_reg_send, chain_link, chain_unlink, chain_exit, chain_exit2,
}

-- The pids and the names of an operation fit their fields.
unfoldable pub FitsControl : ControlMsg → Type 0
FitsControl (control_msg_send msg destination_pid) = FitsPid destination_pid
FitsControl (control_msg_reg_send msg to_name from_pid) = FitsPid from_pid × FitsAtom to_name
FitsControl (control_msg_link from_pid to_pid) = FitsPid from_pid × FitsPid to_pid
FitsControl (control_msg_unlink from_pid to_pid) = FitsPid from_pid × FitsPid to_pid
FitsControl (control_msg_exit from_pid to_pid reason) =
    FitsPid from_pid × FitsPid to_pid × FitsAtom reason
FitsControl (control_msg_exit2 from_pid to_pid reason) =
    FitsPid from_pid × FitsPid to_pid × FitsAtom reason

-- What an operation is on the node that receives it.
unfoldable pub received_as : ControlMsg → NodeCall
received_as (control_msg_send msg destination_pid) = receive_incoming msg destination_pid
received_as (control_msg_reg_send msg to_name from_pid) = receive_incoming_name msg to_name
received_as (control_msg_link from_pid to_pid) = incoming_link from_pid to_pid
received_as (control_msg_unlink from_pid to_pid) = incoming_unlink from_pid to_pid
received_as (control_msg_exit from_pid to_pid reason) = incoming_exit from_pid to_pid reason
received_as (control_msg_exit2 from_pid to_pid reason) = incoming_exit2 from_pid to_pid reason

module _ (sp : Spirit) where
  parse_header-returns :
      (signed : Bool) (n : ℕ) (f : MsgSeq)
      → parse_header sp signed (sp.big_dword_g n ++ (pass_through ∷ f))
        ≡ check_term_version sp signed f
  unfolding parse_header
  parse_header-returns signed n f =
      rw (parse_header, sp.big_dword_g_lem n, ◌>>=◌, sp.big_dword-cons, sp.byte_lit-cons)

  dispatch-header :
      (n : ℕ) (f : MsgSeq)
      → dispatch sp false (sp.big_dword_g n ++ (pass_through ∷ magic_version ∷ f))
        ≡ run_chain sp false (operations_chain sp false) f
  unfolding dispatch check_term_version
  dispatch-header n f = rw (dispatch, parse_header-returns false n (magic_version ∷ f))

  -- Where `char` is unsigned, a message that is built for an operation, whose pids and names fit
  -- their fields, is dispatched as exactly that operation, with the same arguments and payload.
  pub dispatch-execute :
      (op : ControlMsg)
      → FitsControl op
      → dispatch sp false (execute sp op) ≡ returns (received_as op)
  unfolding execute build build_payload fill_in_message_size add_ctrl_message_send
      add_ctrl_message_reg_send add_ctrl_message_exit add_ctrl_message_linkage FitsControl
      received_as
  dispatch-execute (control_msg_send msg to) t = dispatch-header _ _ ∙ chain_send sp to msg t
  dispatch-execute (control_msg_reg_send msg name from) (f, a) =
      dispatch-header _ _ ∙ chain_reg_send sp from name msg f a
  dispatch-execute (control_msg_link from to) (f, t) =
      dispatch-header _ _ ∙ chain_link sp from to f t
  dispatch-execute (control_msg_unlink from to) (f, t) =
      dispatch-header _ _ ∙ chain_unlink sp from to f t
  dispatch-execute (control_msg_exit from to reason) (f, t, a) =
      dispatch-header _ _ ∙ chain_exit sp from to reason f t a
  dispatch-execute (control_msg_exit2 from to reason) (f, t, a) =
      dispatch-header _ _ ∙ chain_exit2 sp from to reason f t a

  refused :
      (f : MsgSeq)
      → (check_term_version sp true f ≡ throws) ⊎ (check_term_version sp true f ≡ reads_past_end)
  unfolding check_term_version
  refused [] = inr refl
  refused (b ∷ f) = ground arith

  not_parsed : (msg f : MsgSeq) → parse_header sp true msg ≢ returns f
  unfolding parse_header
  not_parsed msg f h = elim (Option-cases ((sp.big_dword >> sp.byte_lit pass_through) msg)) [
    | inl e ↦ absurd (ground arith)
    | inr (r, e) ↦ absurd (ground (arith, refused r.1))
  ]

  -- Where `char` is signed, no message at all is dispatched as an operation.
  pub dispatch-signed : (msg : MsgSeq) (call : NodeCall) → dispatch sp true msg ≢ returns call
  unfolding dispatch
  dispatch-signed msg call h = absurd (ground (arith, not_parsed msg))
