-- ===== src/Node/Policies.antt =====
-- impl/link_policies.cpp, impl/actual_node.cpp: the link operations on the same and on another node, and
-- the messages that a node delivers.
use tinch_pp.Prelude.{not, List, [], ◌∷◌, ◌==◌, if◌then◌else◌, bytes_eq}
use tinch_pp.Types.{MsgSeq, EPid}
use tinch_pp.Linker.{Request, request_exit, request_exit2}
use tinch_pp.Control.{
  control_msg_send, control_msg_reg_send, control_msg_link, control_msg_unlink, control_msg_exit,
  control_msg_exit2,
}
use tinch_pp.Control.Dispatcher.{NodeCall}
use tinch_pp.Connector.{Attempt}
use tinch_pp.Node.{
  Node, Ending, done, ◌andthen◌, incoming_link, incoming_unlink, incoming_exit, incoming_exit2,
  receive_incoming, receive_incoming_name, request,
}

-- The operations of `link_operation_dispatcher_type`, which both policies implement.
pub data LinkOperation : Type 0 where
  links unlinks : EPid → EPid → LinkOperation
  exits exits2 : EPid → EPid → MsgSeq → LinkOperation

-- `link_operations_on_same_node`.
abbrev pub on_same_node : LinkOperation → Node → Node × Ending
on_same_node (links local_pid remote_pid) = incoming_link local_pid remote_pid
on_same_node (unlinks local_pid remote_pid) = incoming_unlink local_pid remote_pid
on_same_node (exits from_pid to_pid reason) = incoming_exit from_pid to_pid reason
on_same_node (exits2 from_pid to_pid reason) = incoming_exit2 from_pid to_pid reason

-- The process to which an operation is directed.
abbrev pub target : LinkOperation → EPid
target (links local_pid remote_pid) = remote_pid
target (unlinks local_pid remote_pid) = remote_pid
target (exits from_pid to_pid reason) = to_pid
target (exits2 from_pid to_pid reason) = to_pid

-- A call that the linker makes while it closes the links of a process.
abbrev pub operation_of : Request → LinkOperation
operation_of (request_exit from to reason) = exits from to reason
operation_of (request_exit2 from to reason) = exits2 from to reason

-- `deliver` to a name on this node.
unfoldable pub deliver_name : MsgSeq → MsgSeq → Node → Node × Ending
unfolding receive_incoming_name
deliver_name msg to_name n = receive_incoming_name msg to_name n

-- What a message from another node calls.
unfoldable pub call : NodeCall → Node → Node × Ending
call (NodeCall.receive_incoming msg to) = receive_incoming msg to
call (NodeCall.receive_incoming_name msg to) = receive_incoming_name msg to
call (NodeCall.incoming_link from to) = incoming_link from to
call (NodeCall.incoming_unlink from to) = incoming_unlink from to
call (NodeCall.incoming_exit from to reason) = incoming_exit from to reason
call (NodeCall.incoming_exit2 from to reason) = incoming_exit2 from to reason

module _ (attempt : MsgSeq → Attempt) where
  -- `link_operations_on_remote_node`: the link is made after the request, and removed before it.
  unfoldable pub on_remote_node : LinkOperation → Node → Node × Ending
  unfolding request
  on_remote_node (links local_pid remote_pid) n =
      request attempt (control_msg_link local_pid remote_pid) remote_pid.node_name n
      andthen incoming_link local_pid remote_pid
  on_remote_node (unlinks local_pid remote_pid) n =
      incoming_unlink local_pid remote_pid n
      andthen request attempt (control_msg_unlink local_pid remote_pid) remote_pid.node_name
  on_remote_node (exits from_pid to_pid reason) n =
      request attempt (control_msg_exit from_pid to_pid reason) to_pid.node_name n
  on_remote_node (exits2 from_pid to_pid reason) n =
      request attempt (control_msg_exit2 from_pid to_pid reason) to_pid.node_name n

  -- `dispatcher_for`, and the operation that is called on it.
  unfoldable pub dispatcher_for : LinkOperation → Node → Node × Ending
  unfolding on_remote_node
  dispatcher_for op n =
      if not ((target op).node_name == n.node_name) then on_remote_node op n else on_same_node op n

  -- `deliver` to a pid, and to a name on a given node.
  unfoldable pub deliver : MsgSeq → EPid → Node → Node × Ending
  unfolding request
  deliver msg to_pid n = request attempt (control_msg_send msg to_pid) to_pid.node_name n

  unfoldable pub deliver_name_on : MsgSeq → MsgSeq → MsgSeq → EPid → Node → Node × Ending
  unfolding request
  deliver_name_on msg to_name given_node from_pid n =
      request attempt (control_msg_reg_send msg to_name from_pid) given_node n

  -- The calls run up to the first that throws.
  unfoldable pub notify_all : List Request → Node → Node × Ending
  unfolding dispatcher_for
  notify_all [] n = (n, done)
  notify_all (r ∷ rs) n = dispatcher_for (operation_of r) n andthen notify_all rs
