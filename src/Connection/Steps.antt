-- ===== src/Connection/Steps.antt =====
-- impl/node_connection_state.cpp, impl/node_connection.cpp and impl/node_async_tcp_ip.cpp: what a
-- connection does at each event.
use tinch_pp.Prelude.{
  ℕ, Bool, true, false, List, [], ◌∷◌, ◌++◌, Option, none, some, bytes_eq, if◌then◌else◌,
}
use tinch_pp.Types.{MsgSeq, serializable_string}
use tinch_pp.Spirit.{Spirit}
use tinch_pp.Lexer.{Lexer, has_complete_msg, add, read_handshake_size, read_connected_size}
use tinch_pp.Handshake.{send_name}
use tinch_pp.Control.{ControlMsg}
use tinch_pp.Control.Builder.{execute}
use tinch_pp.Connection.{
  connected_tcp, connected, name_read, handshake_sent, ignore_write_notification, Connection,
  Environment, Stepped, steps, throws_in, undefined_behaviour, never_ends,
}
use tinch_pp.Connection.States.{
  trigger_read, trigger_write, handle_io_error, received_msgs, with_received_msgs, call_read,
  call_written,
}

module _ (sp : Spirit) (env : Environment) where
  abbrev pub add_received : Bool → Lexer → MsgSeq → Option Lexer
  add_received true l bytes = add (read_connected_size sp) l bytes
  add_received false l bytes = add (read_handshake_size sp) l bytes

  -- The read in progress is complete. Without one there is no such event.
  unfoldable pub checked_read : Bool → MsgSeq → Connection → Stepped
  unfolding handle_io_error has_complete_msg call_read
  checked_read error read_buffer c = elim c.reading [
    | none ↦ steps c
    | some (callback, uses_connected) ↦
        let idle = record c { reading = none } in
        if error
        then handle_io_error idle
        else elim (add_received uses_connected (received_msgs uses_connected c) read_buffer) [
          | none ↦ never_ends
          | some l ↦
              let c' = with_received_msgs uses_connected l idle in
              if has_complete_msg l
              then call_read sp env callback uses_connected c'
              else steps (record c' { reading = some (callback, uses_connected) })
        ]
  ]

  -- The write in progress is complete.
  unfoldable pub checked_write : Bool → Connection → Stepped
  unfolding handle_io_error call_written
  checked_write error c = elim c.write_queue [
    | [] ↦ steps c
    | (msg, callback) ∷ rest ↦
        if error
        then handle_io_error c
        else steps (
            call_written sp env callback
              (record c { write_queue = rest; written = c.written ++ msg }))
  ]

  unfoldable pub start_handshake_as_A : ℕ → Connection → Connection
  start_handshake_as_A own_challenge c =
      let c' = record c { own_challenge = own_challenge } in
      elim c.state [
        | connected_tcp ↦
            trigger_write (send_name sp (serializable_string env.name)) handshake_sent c'
        | _ ↦ c'
      ]

  unfoldable pub start_handshake_as_B : ℕ → Connection → Connection
  start_handshake_as_B own_challenge c =
      let c' = record c { own_challenge = own_challenge } in
      elim c.state [ connected_tcp ↦ trigger_read name_read c' | _ ↦ c' ]

  -- `connected::send` and the other operations of that state.
  abbrev pub send_operation : ControlMsg → Connection → Connection
  send_operation distributed_operation c =
      trigger_write (execute sp distributed_operation) ignore_write_notification c

  unfoldable pub request : ControlMsg → Connection → Connection
  request distributed_operation c = elim c.state [
    | connected ↦ send_operation distributed_operation c
    | _ ↦ c
  ]

-- What can happen to a connection, in order.
pub data Event : Type 0 where
  starts_as_A starts_as_B : ℕ → Event
  reads : Bool → MsgSeq → Event
  writes : Bool → Event
  requests : ControlMsg → Event

module _ (sp : Spirit) (env : Environment) where
  unfoldable pub step : Event → Connection → Stepped
  unfolding start_handshake_as_A start_handshake_as_B checked_read checked_write request
  step (starts_as_A challenge) c = steps (start_handshake_as_A sp env challenge c)
  step (starts_as_B challenge) c = steps (start_handshake_as_B sp env challenge c)
  step (reads error bytes) c = checked_read sp env error bytes c
  step (writes error) c = checked_write sp env error c
  step (requests op) c = steps (request sp env op c)

  -- The steps up to the first that does not end normally.
  unfoldable pub run : List Event → Connection → Stepped
  run [] c = steps c
  run (e ∷ es) c = elim (step e c) [
    | steps c' ↦ run es c'
    | throws_in c' ↦ throws_in c'
    | undefined_behaviour ↦ undefined_behaviour
    | never_ends ↦ never_ends
  ]
