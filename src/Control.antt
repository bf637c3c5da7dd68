-- ===== src/Control.antt =====
-- impl/control_msg*.h and impl/constants.h: the operations between connected nodes.
pub mod Builder
pub mod Dispatcher
pub mod Chain
pub mod Patterns
pub mod Operations
pub mod RoundTrip
pub mod Delivery
use tinch_pp.Prelude.{ℕ}
use tinch_pp.Types.{MsgSeq, EPid}

-- Namespace `constants`.
abbrev pub magic_version : ℕ
magic_version = 131

abbrev pub pass_through : ℕ
pass_through = 112

abbrev pub ctrl_msg_link : ℕ
ctrl_msg_link = 1

abbrev pub ctrl_msg_send : ℕ
ctrl_msg_send = 2

abbrev pub ctrl_msg_exit : ℕ
ctrl_msg_exit = 3

abbrev pub ctrl_msg_unlink : ℕ
ctrl_msg_unlink = 4

abbrev pub ctrl_msg_reg_send : ℕ
ctrl_msg_reg_send = 6

abbrev pub ctrl_msg_exit2 : ℕ
ctrl_msg_exit2 = 8

abbrev pub header_size : ℕ
header_size = 4

-- The subclasses of `control_msg`, with the arguments of their constructors in order.
pub data ControlMsg : Type 0 where
  control_msg_send : MsgSeq → EPid → ControlMsg
  control_msg_reg_send : MsgSeq → MsgSeq → EPid → ControlMsg
  control_msg_link control_msg_unlink : EPid → EPid → ControlMsg
  control_msg_exit control_msg_exit2 : EPid → EPid → MsgSeq → ControlMsg
