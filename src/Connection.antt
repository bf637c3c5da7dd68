-- ===== src/Connection.antt =====
-- impl/node_connection_state.cpp, impl/node_connection.cpp, impl/networker.h and
-- impl/node_async_tcp_ip.cpp: one connection to another node, and its states.
-- A callback is a name. An event is the completion of the read or of the write in progress. A
-- callback runs to its end before the next event. The lifetime of the state objects, to which the
-- callbacks are bound by address, is not modelled.
pub mod States
pub mod Steps
pub mod Messages
pub mod Callbacks
pub mod Handshake
pub mod Digests
pub mod Batches
pub mod Fronts
pub mod Splits
pub mod Reads
pub mod Moves
pub mod Overlaps
pub mod Arrivals
pub mod Pairs
pub mod Phases
pub mod Meeting
pub mod Rounds
pub mod Known
use tinch_pp.Prelude.{ℕ, Bool, true, false, List, [], Option, none}
use tinch_pp.Types.{MsgSeq}
use tinch_pp.Lexer.{Lexer, new_lexer}
use tinch_pp.Control.Dispatcher.{NodeCall}

-- The subclasses of `connection_state`.
pub data State : Type 0 where
  connected_tcp : State
  waiting_for_status receiving_challenge sending_challenge_reply receiving_challenge_ack : State
  sending_status waiting_for_challenge_reply sending_challenge_ack : State
  connected : State

-- The member functions that are called when at least one message has been read.
pub data ReadCallback : Type 0 where
  name_read status_read challenge_read challenge_ack_read reply_received msg_received : ReadCallback

-- The member functions that are called when a message has been written.
pub data WriteCallback : Type 0 where
  handshake_sent reply_sent challenge_written challenge_ack_written : WriteCallback
  ignore_write_notification : WriteCallback

-- `node_connection` with its `node_async_tcp_ip`. The pointer `received_msgs` is a flag, also in the
-- read in progress, which keeps the pointer that it was started with. What has been written, what
-- has been signalled to the connector, and what has been called on the node are kept in order.
pub record Connection : Type 0 where
  pub state : State
  pub peer_name : Option MsgSeq
  pub own_challenge : ℕ
  pub handshake_msgs : Lexer
  pub connected_msgs : Lexer
  pub uses_connected_msgs : Bool
  pub reading : Option (ReadCallback × Bool)
  pub write_queue : List (MsgSeq × WriteCallback)
  pub written : MsgSeq
  pub handshake_success : List Bool
  pub node_calls : List NodeCall

abbrev pub new_connection : Option MsgSeq → Connection
new_connection peer_name = record {
  state = connected_tcp;
  peer_name = peer_name;
  own_challenge = 0;
  handshake_msgs = new_lexer;
  connected_msgs = new_lexer;
  uses_connected_msgs = false;
  reading = none;
  write_queue = [];
  written = [];
  handshake_success = [];
  node_calls = [];
}

-- What the connection takes from its node and from code outside the repository: the node's name and
-- cookie, the MD5 of a string, a number as text, and whether `char` is a signed type.
pub record Environment : Type 0 where
  pub name : MsgSeq
  pub cookie : MsgSeq
  pub md5 : MsgSeq → MsgSeq
  pub lexical_cast : ℕ → MsgSeq
  pub char_is_signed : Bool

-- An event ends normally, with an exception that leaves the connection as it is then, by reading
-- past the end of a message or of the received messages, or not at all.
pub data Stepped : Type 0 where
  steps : Connection → Stepped
  throws_in : Connection → Stepped
  undefined_behaviour : Stepped
  never_ends : Stepped
