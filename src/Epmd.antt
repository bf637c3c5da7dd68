-- ===== src/Epmd.antt =====
-- impl/epmd_protocol.h and impl/epmd_requestor.cpp: the requests to the port mapper and what is read of
-- its answers. A socket call is its outcome: an error, or the bytes that one `read_some` delivers. A
-- request that throws is `none`.
pub mod Requests
pub mod Peers
pub mod Sockets
pub mod Naming
use tinch_pp.Prelude.{
  ℕ, ◌+◌, ◌-◌, Bool, true, false, List, [], ◌∷◌, ◌++◌, Option, none, some, length, take, replicate,
  nat_beq, if◌then◌else◌,
}
use tinch_pp.Types.{MsgSeq}
use tinch_pp.Spirit.{Spirit, Parser, ◌>>=◌, ◌>>◌, attribute}

-- `alive2_req_params`.
pub record Alive2ReqParams : Type 0 where
  pub msg_length : ℕ
  pub node_name : MsgSeq
  pub node_name_length : ℕ
  pub port : ℕ

abbrev pub alive2_req_params : MsgSeq → ℕ → Alive2ReqParams
alive2_req_params a_node_name a_port = record {
  msg_length = 13 + length a_node_name;
  node_name = a_node_name;
  node_name_length = length a_node_name;
  port = a_port;
}

pub record Alive2RespResult : Type 0 where
  pub result : ℕ
  pub creation : ℕ

-- The constants of the grammar `alive2_req`.
abbrev pub alive2_number : ℕ
alive2_number = 120

abbrev pub node_type : ℕ
node_type = 72

abbrev pub protocol : ℕ
protocol = 0

abbrev pub supported_version : ℕ
supported_version = 5

abbrev pub extra_info_length : ℕ
extra_info_length = 0

-- The bytes that a read leaves in a buffer of zeros.
abbrev pub read_into : ℕ → MsgSeq → MsgSeq
read_into size bytes = take size bytes ++ replicate (size - length bytes) 0

-- A socket call: none is the error.
abbrev pub Received : Type 0
Received = Option MsgSeq

module _ (sp : Spirit) where
  open sp use {byte_, byte_lit, big_word, byte_g, big_word_g, string_g}

  -- The grammar `alive2_req` after the header's length field.
  abbrev pub alive2_body : Alive2ReqParams → MsgSeq
  alive2_body val =
      byte_g alive2_number
      ++ (big_word_g val.port
          ++ (byte_g node_type
              ++ (byte_g protocol
                  ++ (big_word_g supported_version
                      ++ (big_word_g supported_version
                          ++ (big_word_g val.node_name_length
                              ++ (string_g val.node_name ++ big_word_g extra_info_length)))))))

  unfoldable pub alive2_req : Alive2ReqParams → MsgSeq
  alive2_req val = big_word_g val.msg_length ++ alive2_body val

  unfoldable pub alive2_resp : Parser Alive2RespResult
  alive2_resp = do
    byte_lit 121
    result ← byte_
    creation ← big_word
    attribute (record { result = result; creation = creation })

  unfoldable pub port2_resp_result : Parser ℕ
  port2_resp_result = do byte_lit 119; byte_

  unfoldable pub port_please2_req : MsgSeq → MsgSeq
  port_please2_req peer_node =
      big_word_g (1 + length peer_node) ++ (byte_g 122 ++ string_g peer_node)

  abbrev pub checked_alive : Option (Alive2RespResult × MsgSeq) → Option ℕ
  checked_alive none = none
  checked_alive (some (response, rest)) =
      if nat_beq response.result 0 then some response.creation else none

  unfoldable pub receive_alive_response : Received → Option ℕ
  unfolding alive2_resp
  receive_alive_response none = none
  receive_alive_response (some bytes) = checked_alive (alive2_resp (read_into 16 bytes))

  abbrev pub value_of : Option (ℕ × MsgSeq) → Option ℕ
  value_of none = none
  value_of (some (v, rest)) = some v

  -- Only after a result of 0 the port is parsed, from the beginning of the answer.
  abbrev pub checked_port : MsgSeq → Option (ℕ × MsgSeq) → Option ℕ
  checked_port msg none = none
  checked_port msg (some (result, rest)) =
      if nat_beq result 0 then value_of ((port2_resp_result >> big_word) msg) else none

  unfoldable pub receive_port_resp : Received → Option ℕ
  unfolding port2_resp_result
  receive_port_resp none = none
  receive_port_resp (some bytes) =
      checked_port (read_into 128 bytes) (port2_resp_result (read_into 128 bytes))

  -- What is sent, and what the answer gives; the flag says that the socket accepts the request.
  unfoldable pub alive2_request : MsgSeq → ℕ → Bool → Received → MsgSeq × Option ℕ
  unfolding alive2_req receive_alive_response
  alive2_request node_name incoming_connections written answer = (
    alive2_req (alive2_req_params node_name incoming_connections),
    if written then receive_alive_response answer else none,
  )

  unfoldable pub port_please2_request : MsgSeq → Bool → Received → MsgSeq × Option ℕ
  unfolding port_please2_req receive_port_resp
  port_please2_request peer_node written answer =
      (port_please2_req peer_node, if written then receive_port_resp answer else none)
