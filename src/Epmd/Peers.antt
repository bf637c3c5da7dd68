-- ===== src/Epmd/Peers.antt =====
-- impl/utils.cpp and impl/node_connector.cpp: the parts of a node's name, and reaching a peer.
use tinch_pp.Prelude.{
  ℕ, Bool, true, false, ◌&&◌, ◌||◌, [], ◌∷◌, Option, none, some, leb, nat_beq, if◌then◌else◌,
}
use tinch_pp.Types.{MsgSeq}
use tinch_pp.Spirit.{Spirit}
use tinch_pp.Epmd.{Received, port_please2_request}

-- The class `[\w\.\-]` of the pattern.
unfoldable pub is_name_char : ℕ → Bool
is_name_char b =
    (leb b'a' b && leb b b'z')
    || ((leb b'A' b && leb b b'Z')
        || ((leb b'0' b && leb b b'9') || (nat_beq b b'_' || (nat_beq b b'.' || nat_beq b b'-'))))

abbrev pub all_name_chars : MsgSeq → Bool
all_name_chars [] = true
all_name_chars (b ∷ bs) = is_name_char b && all_name_chars bs

-- One or more characters of the class.
abbrev pub is_part : MsgSeq → Bool
is_part [] = false
is_part (b ∷ bs) = all_name_chars (b ∷ bs)

-- What stands before and behind the first at sign, which is not in the class.
abbrev pub at_sign : MsgSeq → Option (MsgSeq × MsgSeq)
at_sign [] = none
at_sign (b ∷ bs) =
    let rest = at_sign bs in
    if nat_beq b b'@'
    then some ([], bs)
    else elim rest [ none ↦ none | some (name, host) ↦ some (b ∷ name, host) ]

-- `none` is the exception.
unfoldable pub split_node_name : MsgSeq → Option (MsgSeq × MsgSeq)
unfolding is_name_char
split_node_name node = elim (at_sign node) [
  | none ↦ none
  | some (name, host) ↦ if is_part name && is_part host then some (name, host) else none
]

abbrev pub first_of : Option (MsgSeq × MsgSeq) → Option MsgSeq
first_of none = none
first_of (some (name, host)) = some name

abbrev pub second_of : Option (MsgSeq × MsgSeq) → Option MsgSeq
second_of none = none
second_of (some (name, host)) = some host

unfoldable pub node_name : MsgSeq → Option MsgSeq
unfolding split_node_name
node_name node = first_of (split_node_name node)

unfoldable pub node_host : MsgSeq → Option MsgSeq
unfolding split_node_name
node_host node = second_of (split_node_name node)

-- What the sockets do while a peer is looked up at the port mapper of its host, and connected to.
pub record Sockets : Type 0 where
  -- `connect_socket`, to a host and a port.
  pub connects : MsgSeq → ℕ → Bool
  pub written : Bool
  pub answer : Received

abbrev pub epmd_port : ℕ
epmd_port = 4369

module _ (sp : Spirit) (sockets : Sockets) where
  abbrev pub connects_to : MsgSeq → Option ℕ → Bool
  connects_to remote_host none = false
  connects_to remote_host (some port) = sockets.connects remote_host port

  -- `request_node_connection` returns a connection, and does not throw.
  unfoldable pub request_node_connection : MsgSeq → Bool
  unfolding node_host node_name port_please2_request
  request_node_connection peer_node = elim (node_host peer_node) [
    | none ↦ false
    | some remote_host ↦ elim (node_name peer_node) [
      | none ↦ false
      | some peer_name ↦
          sockets.connects remote_host epmd_port
          && connects_to remote_host
              (port_please2_request sp peer_name sockets.written sockets.answer).1
    ]
  ]
