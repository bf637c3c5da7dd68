-- ===== src/Connector/Reuse.antt =====
-- impl/node_connector.cpp: a connection that was established is used again.
use tinch_pp.Prelude.{ℕ, ◌≡◌, true, false, none, some, arith, if◌then◌else◌}
use tinch_pp.Types.{MsgSeq}
use tinch_pp.Maps.{find, same, name_key, find-insert, find-same, find-erase}
use tinch_pp.Connector.{
  Connector, Attempt, unreachable, shakes, get_connection_to, make_new_connection, after_handshake,
  wait_for_handshake_result, connect_to, drop_connection_to, handshake_success,
}

-- A call from a connector without a pending result, for a peer that is not connected: it returns a
-- connection if and only if the peer is reached and the handshake succeeds, and it leaves no pending
-- result. The connection is then entered for the peer, and nothing is entered or removed for another
-- node.
pub connect_to_new :
    (attempt : Attempt) (c : Connector) (peer other : MsgSeq)
    → c.handshake_done ≡ none
    → find peer c.node_connections ≡ none
    → let (c', connection) = connect_to attempt peer c in
      (connection ≡ elim attempt [ shakes true ↦ some c.created | _ ↦ none ])
      × ((c'.handshake_done ≡ none)
          × (find other c'.node_connections
              ≡ (if same peer other then connection else find other c.node_connections)))
unfolding connect_to get_connection_to make_new_connection wait_for_handshake_result after_handshake
    handshake_success
connect_to_new unreachable c peer other h e =
    ground (arith, find-same peer other c.node_connections)
connect_to_new (shakes true) c peer other h e =
    ground (arith, find-insert other peer c.created c.node_connections)
connect_to_new (shakes false) c peer other h e =
    ground (arith, find-same peer other c.node_connections)

-- A connection that is entered for a peer is returned by every further call for that peer, whatever
-- the network would answer, and the connector is left as it is. Once it is dropped, no connection is
-- entered for the peer, and those of other nodes stay.
pub connect_to-reuses :
    (attempt : Attempt) (c : Connector) (peer other : MsgSeq) (connection : ℕ)
    → find peer c.node_connections ≡ some connection
    → (connect_to attempt peer c ≡ (c, some connection))
      × (find other (drop_connection_to peer c).node_connections
          ≡ (if same peer other then none else find other c.node_connections))
unfolding connect_to get_connection_to drop_connection_to
connect_to-reuses unreachable c peer other connection h =
    ground (arith, find-erase other peer c.node_connections)
connect_to-reuses (shakes result) c peer other connection h =
    ground (arith, find-erase other peer c.node_connections)
