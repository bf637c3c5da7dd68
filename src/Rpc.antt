-- ===== src/Rpc.antt =====
-- impl/rpc.cpp: calls of functions on another node, through a mailbox.
-- The mailbox is a position among the node's mailboxes. A call sends and then receives; what happens
-- in between is up to the rest of the node.
pub mod Replies
use tinch_pp.Prelude.{ℕ, Bool, List, [], ◌∷◌, Option, none, some, if◌then◌else◌}
use tinch_pp.Types.{MsgSeq, EPid}
use tinch_pp.Spirit.{Spirit}
use tinch_pp.Values.{
  Term, Terms, pid, atom, e_tuple, list, nil, cons, Pattern, Patterns, atom_value, any_term,
  tuple_of, none_left, and_then, Bound, bound_bytes, serialize, match,
}
use tinch_pp.Mailbox.{Received, message, link_broken, mailbox_receive_tmo}
use tinch_pp.Connector.{Attempt}
use tinch_pp.Node.{Node, Ending}
use tinch_pp.Node.Policies.{deliver_name_on}
use tinch_pp.Node.Mailboxes.{with_object, create_mailbox}

-- `module_and_function_type`.
pub record ModuleAndFunction : Type 0 where
  pub module_name : MsgSeq
  pub function_name : MsgSeq

-- The names that the protocol of remote calls fixes.
abbrev pub rex : MsgSeq
rex = b'r' ∷ b'e' ∷ b'x' ∷ []

abbrev pub call_name : MsgSeq
call_name = b'c' ∷ b'a' ∷ b'l' ∷ b'l' ∷ []

abbrev pub user : MsgSeq
user = b'u' ∷ b's' ∷ b'e' ∷ b'r' ∷ []

-- {self, {call, Mod, Fun, Args, user}}
abbrev pub rpc_call : EPid → ModuleAndFunction → Terms → Term
rpc_call self remote_fn arguments = e_tuple (
    cons (pid self) (
      cons
        (e_tuple (
          cons (atom call_name) (
            cons (atom remote_fn.module_name) (
              cons (atom remote_fn.function_name) (cons (list arguments) (cons (atom user) nil))))))
        nil))

-- {rex, Term}
abbrev pub reply_pattern : Pattern
reply_pattern = tuple_of (and_then (atom_value rex) (and_then any_term none_left))

-- How `receive_rpc_reply` ends: with the bytes of the reply, or with the exception of the mailbox or
-- that of an unexpected result.
pub data Reply : Type 0 where
  reply_part : MsgSeq → Reply
  unexpected : Reply
  not_received : Received → Reply

abbrev pub bound_reply : Option (List Bound × MsgSeq) → Reply
bound_reply (some (bound_bytes bytes ∷ [], rest)) = reply_part bytes
bound_reply _ = unexpected

-- The mailbox that the constructor creates.
abbrev pub rpc : Node → Node
rpc own_node = create_mailbox own_node

module _ (sp : Spirit) where
  unfoldable pub do_rpc :
      (MsgSeq → Attempt) → MsgSeq → ModuleAndFunction → Terms → ℕ → Node → Node × Ending
  do_rpc attempt remote_node remote_fn arguments = with_object attempt λ o n.
      deliver_name_on attempt (serialize sp (rpc_call o.own_pid remote_fn arguments)) rex
        remote_node o.own_pid n

  unfoldable pub receive_rpc_reply : Bool → Received → Reply
  receive_rpc_reply char_is_signed (message msg) =
      bound_reply (match sp char_is_signed reply_pattern msg)
  receive_rpc_reply char_is_signed (link_broken reason peer) =
      not_received (link_broken reason peer)
  receive_rpc_reply char_is_signed mailbox_receive_tmo = not_received mailbox_receive_tmo
