-- ===== src/Connector/Crossing.antt =====
-- impl/node_connector.cpp: two threads that connect at the same time share one result.
use tinch_pp.Prelude.{
  ℕ, ◌+◌, ◌≡◌, refl, Bool, true, List, [], ◌∷◌, Option, none, some, arith, if◌then◌else◌,
  Bool-cases, inl, inr,
}
use tinch_pp.Types.{MsgSeq}
use tinch_pp.Maps.{find, insert, name_key}
use tinch_pp.Connector.{
  Connector, waits, get_connection_to, make_new_connection, after_handshake,
  wait_for_handshake_result, handshake_success,
}
use tinch_pp.Connector.Schedules.{new_session, asks_for, reports, wakes, step, run}

get_connection_to-waits :
    (c : Connector) (peer : MsgSeq)
    → c.handshake_done ≡ none
    → find peer c.node_connections ≡ none
    → get_connection_to true peer c ≡ (record c { created = c.created + 1 }, waits c.created)
unfolding get_connection_to make_new_connection wait_for_handshake_result
get_connection_to-waits c peer h e = ground arith

-- A thread that waited has returned with its connection, or thrown.
abbrev result_of : Bool → ℕ → Option ℕ
result_of success connection = if success then some connection else none

-- The connections after a thread has taken a result.
abbrev entered : Bool → MsgSeq → ℕ → List (MsgSeq × ℕ) → List (MsgSeq × ℕ)
entered success peer connection m = if success then insert peer connection m else m

-- Two threads wait for two peers that are not connected. Whatever the handshake with each peer gives,
-- if the one with the second peer is over first and the first thread wakes, and then the one with the
-- first peer is over and the second thread wakes, each thread takes the result of the handshake with
-- the other's peer, and enters its own peer by that result.
pub handshake_results_cross :
    (c : Connector) (first second : MsgSeq) (handshake_with : MsgSeq → Bool)
    → c.handshake_done ≡ none
    → find first c.node_connections ≡ none
    → find second c.node_connections ≡ none
    → let s = run (new_session c) (
        asks_for true first
        ∷ asks_for true second
        ∷ reports (handshake_with second)
        ∷ wakes 0
        ∷ reports (handshake_with first)
        ∷ wakes 0
        ∷ []) in
      (s.results
        ≡ (first, result_of (handshake_with second) c.created)
          ∷ (second, result_of (handshake_with first) (c.created + 1))
          ∷ [])
      × (s.connector.node_connections
          ≡ entered
              (handshake_with first)
              second
              (c.created + 1)
              (entered (handshake_with second) first c.created c.node_connections))
unfolding run step get_connection_to make_new_connection wait_for_handshake_result after_handshake
    handshake_success
handshake_results_cross c first second handshake_with h e f =
    rw
      (
        get_connection_to-waits c first h e,
        get_connection_to-waits (record c { created = c.created + 1 }) second h f,
      )
      elim (Bool-cases (handshake_with first)) [
        | inl a ↦ elim (Bool-cases (handshake_with second)) [
          | inl b ↦ rw (a, b) (refl, refl)
          | inr b ↦ rw (a, b) (refl, refl)
        ]
        | inr a ↦ elim (Bool-cases (handshake_with second)) [
          | inl b ↦ rw (a, b) (refl, refl)
          | inr b ↦ rw (a, b) (refl, refl)
        ]
      ]
