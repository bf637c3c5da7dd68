-- ===== src/Control/Builder.antt =====
-- impl/ext_message_builder.cpp and impl/control_msgs_impl.cpp: an operation as a message.
-- The iterator to which the source appends is a result here.
use tinch_pp.Prelude.{ℕ, ◌-◌, [], ◌∷◌, ◌++◌, length, drop, replicate}
use tinch_pp.Types.{MsgSeq, EPid}
use tinch_pp.Spirit.{Spirit}
use tinch_pp.Values.{int_, pid, atom, e_tuple, nil, cons, serialize}
use tinch_pp.Control.{
  magic_version, pass_through, ctrl_msg_link, ctrl_msg_send, ctrl_msg_exit, ctrl_msg_unlink,
  ctrl_msg_reg_send, ctrl_msg_exit2, header_size, ControlMsg, control_msg_send,
  control_msg_reg_send, control_msg_link, control_msg_unlink, control_msg_exit, control_msg_exit2,
}

module _ (sp : Spirit) where
  abbrev pub add_message_header : MsgSeq
  add_message_header = pass_through ∷ magic_version ∷ []

  unfoldable pub add_ctrl_message_send : EPid → MsgSeq
  add_ctrl_message_send destination_pid =
      add_message_header
      ++ serialize sp
          (e_tuple (cons (int_ ctrl_msg_send) (cons (atom []) (cons (pid destination_pid) nil))))

  unfoldable pub add_ctrl_message_reg_send : EPid → MsgSeq → MsgSeq
  add_ctrl_message_reg_send self destination_name =
      add_message_header
      ++ serialize sp (
          e_tuple (
            cons (int_ ctrl_msg_reg_send)
              (cons (pid self) (cons (atom []) (cons (atom destination_name) nil)))))

  unfoldable pub add_ctrl_message_exit : ℕ → EPid → EPid → MsgSeq → MsgSeq
  add_ctrl_message_exit request from to reason =
      add_message_header
      ++ serialize sp
          (e_tuple (cons (int_ request) (cons (pid from) (cons (pid to) (cons (atom reason) nil)))))

  unfoldable pub add_ctrl_message_linkage : ℕ → EPid → EPid → MsgSeq
  add_ctrl_message_linkage request from to =
      add_message_header
      ++ serialize sp (e_tuple (cons (int_ request) (cons (pid from) (cons (pid to) nil))))

  -- The first four bytes are overwritten.
  unfoldable pub fill_in_message_size : MsgSeq → MsgSeq
  fill_in_message_size msg =
      let size = length msg - header_size in sp.big_dword_g size ++ drop header_size msg

  abbrev pub append_payload : MsgSeq → MsgSeq
  append_payload payload = magic_version ∷ payload

  -- The two functions `build`: without a payload, and with one.
  unfoldable pub build : MsgSeq → MsgSeq
  unfolding fill_in_message_size
  build add_ctrl_msg = fill_in_message_size (replicate header_size 0 ++ add_ctrl_msg)

  unfoldable pub build_payload : MsgSeq → MsgSeq → MsgSeq
  unfolding fill_in_message_size
  build_payload payload add_ctrl_msg =
      fill_in_message_size (replicate header_size 0 ++ (add_ctrl_msg ++ append_payload payload))

  abbrev pub build_send_msg : MsgSeq → EPid → MsgSeq
  build_send_msg payload destination_pid =
      build_payload payload (add_ctrl_message_send destination_pid)

  abbrev pub build_reg_send_msg : MsgSeq → EPid → MsgSeq → MsgSeq
  build_reg_send_msg payload self destination_name =
      build_payload payload (add_ctrl_message_reg_send self destination_name)

  abbrev pub build_exit_msg : EPid → EPid → MsgSeq → MsgSeq
  build_exit_msg from_pid to_pid reason =
      build (add_ctrl_message_exit ctrl_msg_exit from_pid to_pid reason)

  abbrev pub build_exit2_msg : EPid → EPid → MsgSeq → MsgSeq
  build_exit2_msg from_pid to_pid reason =
      build (add_ctrl_message_exit ctrl_msg_exit2 from_pid to_pid reason)

  abbrev pub build_link_msg : EPid → EPid → MsgSeq
  build_link_msg from_pid to_pid = build (add_ctrl_message_linkage ctrl_msg_link from_pid to_pid)

  abbrev pub build_unlink_msg : EPid → EPid → MsgSeq
  build_unlink_msg from_pid to_pid =
      build (add_ctrl_message_linkage ctrl_msg_unlink from_pid to_pid)

  -- `execute` on a connection in the state `connected`: what is written.
  unfoldable pub execute : ControlMsg → MsgSeq
  execute (control_msg_send msg destination_pid) = build_send_msg msg destination_pid
  execute (control_msg_reg_send msg to_name from_pid) = build_reg_send_msg msg from_pid to_name
  execute (control_msg_link from_pid to_pid) = build_link_msg from_pid to_pid
  execute (control_msg_unlink from_pid to_pid) = build_unlink_msg from_pid to_pid
  execute (control_msg_exit from_pid to_pid reason) = build_exit_msg from_pid to_pid reason
  execute (control_msg_exit2 from_pid to_pid reason) = build_exit2_msg from_pid to_pid reason
