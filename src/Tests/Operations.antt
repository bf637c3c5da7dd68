-- ===== src/Tests/Operations.antt =====
-- Two operations from one node to another (impl/ext_message_builder.cpp, impl/ctrl_msg_dispatcher.cpp).
use tinch_pp.Prelude.{
  replicate, take, drop, List, All, none, ◌++◌, ◌≡◌, ◌≢◌, ◌<◌, ◌^◌, refl, arith, false, true, [],
  ◌∷◌, some, length,
}
use tinch_pp.Types.{EPid, MsgSeq}
use tinch_pp.Spirit.Reference.{reference}
use tinch_pp.Terms.{small_tuple_head_g, small_integer_g, atom_ext_g, pid_ext_g}
use tinch_pp.Terms.RoundTrip.{FitsPid}
use tinch_pp.Lexer.{new_lexer}
use tinch_pp.Lexer.Pieces.{concat}
use tinch_pp.Control.{ControlMsg, control_msg_send, control_msg_exit2}
use tinch_pp.Control.Builder.{
  execute, build, build_payload, fill_in_message_size, add_ctrl_message_send, add_ctrl_message_exit,
}
use tinch_pp.Control.Dispatcher.{incoming_exit2, returns, dispatch}
use tinch_pp.Control.RoundTrip.{FitsControl, received_as, dispatch-execute, dispatch-signed}
use tinch_pp.Connection.{Connection, Environment, new_connection, connected, msg_received, steps}
use tinch_pp.Connection.Steps.{checked_read, run}
use tinch_pp.Connection.Batches.{second_operation_waits}
use tinch_pp.Connection.Arrivals.{all_reads, reads_on, IsDelivered, operations_called}
use tinch_pp.Values.{serialize}

abbrev peer : EPid
peer = record { node_name = b'a' ∷ []; id = 1; serial = 0; creation = 1 }

peer-FitsPid : FitsPid peer
peer-FitsPid = record {
  name_fits = omega arith;
  id_fits = omega arith;
  serial_fits = omega arith;
  creation_fits = omega arith;
}

sent-FitsControl : FitsControl (control_msg_exit2 peer peer (b'x' ∷ []))
unfolding FitsControl
sent-FitsControl = (peer-FitsPid, peer-FitsPid, omega arith)

dispatch-execute_example :
    dispatch reference false (execute reference (control_msg_exit2 peer peer (b'x' ∷ [])))
    ≡ returns (received_as (control_msg_exit2 peer peer (b'x' ∷ [])))
dispatch-execute_example =
    dispatch-execute reference (control_msg_exit2 peer peer (b'x' ∷ [])) sent-FitsControl

dispatch-signed_example :
    dispatch reference true (execute reference (control_msg_exit2 peer peer (b'x' ∷ [])))
    ≢ returns (incoming_exit2 peer peer (b'x' ∷ []))
dispatch-signed_example =
    dispatch-signed reference (execute reference (control_msg_exit2 peer peer (b'x' ∷ [])))
      (incoming_exit2 peer peer (b'x' ∷ []))

abbrev send_op : ControlMsg
send_op = control_msg_send (100 ∷ 0 ∷ 2 ∷ b'o' ∷ b'k' ∷ []) peer

abbrev exit_op : ControlMsg
exit_op = control_msg_exit2 peer peer (b'x' ∷ [])

send_op-short : length (execute reference send_op) < 2 ^ 32
unfolding execute build_payload fill_in_message_size add_ctrl_message_send serialize
    small_tuple_head_g small_integer_g atom_ext_g pid_ext_g
send_op-short = omega arith

exit_op-short : length (execute reference exit_op) < 2 ^ 32
unfolding execute build fill_in_message_size add_ctrl_message_exit serialize small_tuple_head_g
    small_integer_g atom_ext_g pid_ext_g
exit_op-short = omega arith

send_op-FitsControl : FitsControl send_op
unfolding FitsControl
send_op-FitsControl = peer-FitsPid

abbrev env : Environment
env = record {
  name = b'b' ∷ [];
  cookie = b'c' ∷ [];
  md5 = λ s. replicate 16 1;
  lexical_cast = λ n. b'0' ∷ [];
  char_is_signed = false;
}

abbrev up : Connection
up = record (new_connection none) { state = connected; uses_connected_msgs = true }

second_operation_waits_example :
    checked_read reference env false
      (execute reference send_op ++ execute reference exit_op)
      (record up { reading = some (msg_received, true); connected_msgs = new_lexer })
    ≡ steps (record up {
      reading = some (msg_received, true);
      connected_msgs = record { incomplete = []; msgs = execute reference exit_op ∷ [] };
      node_calls = [] ++ (received_as send_op ∷ []);
    })
second_operation_waits_example =
    second_operation_waits reference env send_op exit_op up refl
      (send_op-FitsControl, send_op-short) (sent-FitsControl, exit_op-short)

abbrev deliveries : List (ControlMsg × List MsgSeq)
deliveries =
    (send_op, take 5 (execute reference send_op) ∷ drop 5 (execute reference send_op) ∷ [])
    ∷ (exit_op, execute reference exit_op ∷ [])
    ∷ []

deliveries-IsDelivered : All (IsDelivered reference) deliveries
unfolding execute build build_payload fill_in_message_size add_ctrl_message_send
    add_ctrl_message_exit serialize small_tuple_head_g small_integer_g atom_ext_g pid_ext_g concat
deliveries-IsDelivered = (
  ((send_op-FitsControl, send_op-short), ((omega arith, (omega arith, tt)), refl)),
  (((sent-FitsControl, exit_op-short), ((omega arith, tt), refl)), tt),
)

operations_called_example :
    run reference env (all_reads deliveries) (reads_on [] up)
    ≡ steps
        (reads_on [] (record up { node_calls = received_as send_op ∷ received_as exit_op ∷ [] }))
operations_called_example =
    operations_called reference env refl deliveries up deliveries-IsDelivered
