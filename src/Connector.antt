-- ===== src/Connector.antt =====
-- impl/node_connector.h and impl/node_connector.cpp: the connections of a node to other nodes.
-- `node_connections_mutex` makes each operation one step, but `handshake_success_as_B` and
-- `handle_accept` take no lock, and are steps only where no other thread is in the connector at the
-- time. A thread that waits for the result of a handshake gives the lock away, and its check is a step
-- of its own. A connection is a number, in the
-- order of creation. Whether the port mapper and the socket answer is an argument of a request.
pub mod Schedules
pub mod Names
pub mod Crossing
pub mod Reuse
use tinch_pp.Prelude.{ℕ, ◌+◌, Bool, true, false, List, [], Option, none, some, if◌then◌else◌}
use tinch_pp.Types.{MsgSeq}
use tinch_pp.Maps.{find, insert, erase, keys, name_key}

pub record Connector : Type 0 where
  pub node_connections : List (MsgSeq × ℕ)
  pub handshake_done : Option Bool
  -- The connection that `async_accept` was given, while it waits.
  pub accepting : Option ℕ
  -- How many connections were created.
  pub created : ℕ

abbrev pub new_connector : Connector
new_connector = record {
  node_connections = [];
  handshake_done = none;
  accepting = none;
  created = 0;
}

-- How a call of `get_connection_to` stands: it has returned or thrown, or its thread waits.
pub data Progress : Type 0 where
  returns : ℕ → Progress
  throws : Progress
  waits : ℕ → Progress

unfoldable pub trigger_accept : Connector → Connector
trigger_accept c = record c { accepting = some c.created; created = c.created + 1 }

-- The end of `make_new_connection`.
unfoldable pub after_handshake : MsgSeq → ℕ → Bool → Connector → Connector × Progress
after_handshake peer_node_name new_connection success c =
    if success
    then (
      record c { node_connections = insert peer_node_name new_connection c.node_connections },
      returns new_connection,
    )
    else (c, throws)

-- The loop's test, when the thread has the lock; the result is taken away.
unfoldable pub wait_for_handshake_result : MsgSeq → ℕ → Connector → Connector × Progress
unfolding after_handshake
wait_for_handshake_result peer_node_name new_connection c = elim c.handshake_done [
  | none ↦ (c, waits new_connection)
  | some result ↦
      after_handshake peer_node_name new_connection result (record c { handshake_done = none })
]

-- `request_node_connection` throws where the peer cannot be reached.
unfoldable pub make_new_connection : Bool → MsgSeq → Connector → Connector × Progress
unfolding wait_for_handshake_result
make_new_connection reachable peer_node_name c =
    if reachable
    then wait_for_handshake_result peer_node_name c.created (record c { created = c.created + 1 })
    else (c, throws)

unfoldable pub get_connection_to : Bool → MsgSeq → Connector → Connector × Progress
unfolding make_new_connection
get_connection_to reachable peer_node_name c = elim (find peer_node_name c.node_connections) [
  | none ↦ make_new_connection reachable peer_node_name c
  | some existing ↦ (c, returns existing)
]

unfoldable pub drop_connection_to : MsgSeq → Connector → Connector
drop_connection_to node_name c = record c { node_connections = erase node_name c.node_connections }

abbrev pub connected_nodes : Connector → List MsgSeq
connected_nodes c = keys c.node_connections

-- The callback has no argument that tells the connections apart.
unfoldable pub handshake_success : Bool → Connector → Connector
handshake_success handshake_result c = record c { handshake_done = some handshake_result }

-- Without the lock. The peer's name is `none` where `peer_node_name` throws, before the next accept
-- is triggered.
unfoldable pub handshake_success_as_B : ℕ → Option MsgSeq → Bool → Connector → Connector
unfolding trigger_accept
handshake_success_as_B potentially_connected peer_node_name false c = trigger_accept c
handshake_success_as_B potentially_connected none true c = c
handshake_success_as_B potentially_connected (some peer_node_name) true c =
    trigger_accept
      record c { node_connections = insert peer_node_name potentially_connected c.node_connections }

-- Without an error the handshake begins, and the next accept is triggered when it is done.
unfoldable pub handle_accept : Bool → Connector → Connector
unfolding trigger_accept
handle_accept error c = if error then trigger_accept c else record c { accepting = none }

-- What the network answers to an attempt to connect, where the handshake is signalled at all: a callback
-- that throws during the handshake leaves the calling thread waiting for ever, and is no `Attempt`.
pub data Attempt : Type 0 where
  unreachable : Attempt
  shakes : Bool → Attempt

abbrev pub is_reachable : Attempt → Bool
is_reachable unreachable = false
is_reachable (shakes result) = true

abbrev pub answer : Attempt → Connector → Connector
answer unreachable c = c
answer (shakes result) c = handshake_success result c

-- The rest of a call whose thread may wait: the handshake ends, and the thread checks once more.
abbrev pub finish : Attempt → MsgSeq → Connector × Progress → Connector × Progress
finish attempt peer (c, waits connection) =
    wait_for_handshake_result peer connection (answer attempt c)
finish attempt peer (c, returns connection) = (c, returns connection)
finish attempt peer (c, throws) = (c, throws)

abbrev pub connection_of : Connector × Progress → Connector × Option ℕ
connection_of (c, returns connection) = (c, some connection)
connection_of (c, throws) = (c, none)
connection_of (c, waits connection) = (c, none)

-- A whole call of `get_connection_to` that returns or throws, while no other thread connects; `none` is
-- the exception.
unfoldable pub connect_to : Attempt → MsgSeq → Connector → Connector × Option ℕ
unfolding get_connection_to wait_for_handshake_result
connect_to attempt peer c =
    connection_of (finish attempt peer (get_connection_to (is_reachable attempt) peer c))
