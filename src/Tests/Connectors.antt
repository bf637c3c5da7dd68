-- ===== src/Tests/Connectors.antt =====
-- Connections to two nodes (impl/node_connector.cpp).
use tinch_pp.Prelude.{Bool, list_beq, bytes_eq, ◌≡◌, refl, true, false, [], ◌∷◌, some, none}
use tinch_pp.Types.{MsgSeq}
use tinch_pp.Maps.{find, insert, place, bytes_lt, name_key}
use tinch_pp.Connector.{Connector, shakes, connect_to, handshake_success}
use tinch_pp.Connector.Reuse.{connect_to_new}
use tinch_pp.Connector.Schedules.{new_session, asks_for, reports, wakes, run}
use tinch_pp.Connector.Crossing.{handshake_results_cross}

abbrev first_node : MsgSeq
first_node = b'p' ∷ b'@' ∷ b'h' ∷ []

abbrev second_node : MsgSeq
second_node = b'q' ∷ b'@' ∷ b'h' ∷ []

abbrev one_connection : Connector
one_connection = record {
  node_connections = (first_node, 4) ∷ [];
  handshake_done = none;
  accepting = none;
  created = 5;
}

connect_to_new_example :
    let (c, connection) = connect_to (shakes true) second_node one_connection in
    (connection ≡ some 5)
    × ((c.handshake_done ≡ none) × (find second_node c.node_connections ≡ some 5))
unfolding find bytes_lt connect_to handshake_success
connect_to_new_example =
    connect_to_new (shakes true) one_connection second_node second_node refl refl

-- The handshake with the second node succeeds, any other fails.
abbrev handshake_with : MsgSeq → Bool
handshake_with peer = bytes_eq.beq peer second_node

handshake_results_cross_example :
    let s = run (new_session one_connection) (
      asks_for true (b'r' ∷ [])
      ∷ asks_for true second_node
      ∷ reports true
      ∷ wakes 0
      ∷ reports false
      ∷ wakes 0
      ∷ []) in
    (s.results ≡ (b'r' ∷ [], some 5) ∷ (second_node, none) ∷ [])
    × (s.connector.node_connections ≡ (first_node, 4) ∷ (b'r' ∷ [], 5) ∷ [])
unfolding find bytes_lt insert place list_beq
handshake_results_cross_example =
    handshake_results_cross one_connection (b'r' ∷ []) second_node handshake_with refl refl refl
