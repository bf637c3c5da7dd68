-- ===== src/Control/Delivery.antt =====
-- From `execute` of impl/control_msgs_impl.cpp on one node to the calls of impl/ctrl_msg_dispatcher.cpp
-- on the other, through the stream that impl/utils.cpp cuts into messages.
use tinch_pp.Prelude.{
  ◌+◌, ◌-◌, ◌^◌, ◌<◌, ◌≡◌, ◌∙◌, refl, sym, ap, ap₂, subst, false, List, [], ◌∷◌, ◌++◌, some, arith,
  append-nil, length, map, All,
}
use tinch_pp.Types.{MsgSeq}
use tinch_pp.Spirit.{Spirit}
use tinch_pp.Lexer.{new_lexer, read_connected_size}
use tinch_pp.Lexer.Pieces.{add_all, concat}
use tinch_pp.Lexer.Sizes.{connected_frame, connected_reassembles, read_connected_size-nil}
use tinch_pp.Control.{
  ControlMsg, control_msg_send, control_msg_reg_send, control_msg_link, control_msg_unlink,
  control_msg_exit, control_msg_exit2,
}
use tinch_pp.Control.Builder.{execute, build, build_payload, fill_in_message_size}
use tinch_pp.Control.Dispatcher.{returns, dispatch}
use tinch_pp.Control.RoundTrip.{FitsControl, received_as, dispatch-execute}

module _ (sp : Spirit) where
  build-IsFrame : (body : MsgSeq) → build sp body ≡ connected_frame sp body
  unfolding build fill_in_message_size connected_frame
  build-IsFrame body = ap (λ n. sp.big_dword_g n ++ body) (omega arith)

  pub execute-IsFrame :
      (op : ControlMsg) → (body : MsgSeq) × (execute sp op ≡ connected_frame sp body)
  unfolding execute build_payload build
  execute-IsFrame (control_msg_send msg to) = (_, build-IsFrame _)
  execute-IsFrame (control_msg_reg_send msg name from) = (_, build-IsFrame _)
  execute-IsFrame (control_msg_link from to) = (_, build-IsFrame _)
  execute-IsFrame (control_msg_unlink from to) = (_, build-IsFrame _)
  execute-IsFrame (control_msg_exit from to reason) = (_, build-IsFrame _)
  execute-IsFrame (control_msg_exit2 from to reason) = (_, build-IsFrame _)

  pub length-connected_frame : (body : MsgSeq) → length (connected_frame sp body) ≡ 4 + length body
  unfolding connected_frame
  length-connected_frame body = rw (sp.big_dword_g_lem (length body)) (omega arith)

  -- An operation that fits the protocol: its fields, and its message.
  abbrev pub FitsMessage : ControlMsg → Type 0
  FitsMessage op = FitsControl op × (length (execute sp op) < 2 ^ 32)

  bodies :
      (ops : List ControlMsg)
      → All FitsMessage ops
      → (bs : List MsgSeq) × (map (execute sp) ops ≡ map (connected_frame sp) bs)
        × All (λ b. length b < 2 ^ 32 - 4) bs
  bodies [] h = ([], refl, tt)
  bodies (op ∷ ops) (h, hs) =
      let (b, e) = execute-IsFrame op in
      let (bs, es, ls) = bodies ops hs in
      (
        b ∷ bs,
        ap₂ (λ x xs. x ∷ xs) e es,
        (omega (arith, length-connected_frame b, ap length e, h.1), ls),
      )

  dispatch-all :
      (ops : List ControlMsg)
      → All FitsMessage ops
      → map (dispatch sp false) (map (execute sp) ops) ≡ map (λ op. returns (received_as op)) ops
  dispatch-all [] h = refl
  dispatch-all (op ∷ ops) (h, hs) =
      ap₂ (λ x xs. x ∷ xs) (dispatch-execute sp op h.0) (dispatch-all ops hs)

  -- Where `char` is unsigned, a sequence of operations that fit the protocol, written one after the
  -- other and delivered in pieces of any sizes, is cut into exactly their messages in order, nothing
  -- is left over, and each message is dispatched as the operation that it was built for.
  pub operations_arrive :
      (ops : List ControlMsg) (pieces : List MsgSeq)
      → All FitsMessage ops
      → concat pieces ≡ concat (map (execute sp) ops)
      → (add_all (read_connected_size sp) new_lexer pieces
          ≡ some (record { incomplete = []; msgs = map (execute sp) ops }))
        × (map (dispatch sp false) (map (execute sp) ops)
            ≡ map (λ op. returns (received_as op)) ops)
  operations_arrive ops pieces h e =
      let (bs, es, ls) = bodies ops h in
      (
        subst
            (λ ms.
              add_all (read_connected_size sp) new_lexer pieces
              ≡ some (record { incomplete = []; msgs = ms }))
            (sym es)
            (connected_reassembles sp bs pieces [] ls
              (λ n r. absurd (cc (r, read_connected_size-nil sp)))
              (e ∙ ap concat es ∙ sym (append-nil (concat (map (connected_frame sp) bs))))),
        dispatch-all ops h,
      )
