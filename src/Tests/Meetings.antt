-- ===== src/Tests/Meetings.antt =====
-- Two nodes, "a" and "b", with the same cookie (impl/node_connection_state.cpp,
-- impl/node_connection.cpp).
use tinch_pp.Prelude.{
  ℕ, zero, suc, All, ◌≡◌, refl, inl, inr, arith, List, [], ◌∷◌, none, some, false, replicate,
}
use tinch_pp.Spirit.Reference.{reference}
use tinch_pp.Types.{MsgSeq, serializable_string}
use tinch_pp.Lexer.{add, has_complete_msg, next_message, read_handshake_size}
use tinch_pp.Handshake.{
  capabilities, send_name, send_name_p, receive_status_g, send_challenge_g, challenge_reply,
  send_challenge_ack_g,
}
use tinch_pp.Connection.{Environment, Connection, new_connection, steps, connected_tcp}
use tinch_pp.Connection.States.{calculate_digest, to_sending_status, call_read, on_name}
use tinch_pp.Connection.Steps.{
  Event, starts_as_B, reads, run, step, start_handshake_as_B, checked_read,
}
use tinch_pp.Connection.Known.{peer_node_name, accepted_knows_peer}
use tinch_pp.Connection.Pairs.{Pair, PairEvent, a_writes, a_reads, b_writes, b_reads, pair_run}
use tinch_pp.Connection.Phases.{a_write, a_read, b_write, b_read, IsRound, all_rounds}
use tinch_pp.Connection.Rounds.{start, HasMet, nodes_connect}

abbrev env : Environment
env = record {
  name = [];
  cookie = b'c' ∷ [];
  md5 = λ s. replicate 16 1;
  lexical_cast = λ n. b'0' ∷ [];
  char_is_signed = false;
}

abbrev env_a : Environment
env_a = record env { name = b'a' ∷ [] }

abbrev env_b : Environment
env_b = record env { name = b'b' ∷ [] }

abbrev the_start : Pair
the_start =
    start reference env 7 9 b'a' b'b' [] [] none (λ s. refl) (omega arith) (omega arith)
      (omega arith) (omega arith)

-- A round in which each read delivers one byte.
abbrev round : List PairEvent
round = b_reads 0 ∷ a_writes ∷ b_writes ∷ a_reads 0 ∷ []

round-IsRound : IsRound round
round-IsRound b_read = inl refl
round-IsRound a_write = inr (inl refl)
round-IsRound b_write = inr (inr (inl refl))
round-IsRound a_read = inr (inr (inr (inl refl)))

all_replicate-IsRound : (n : ℕ) → All IsRound (replicate n round)
all_replicate-IsRound zero = tt
all_replicate-IsRound (suc n) = (round-IsRound, all_replicate-IsRound n)

abbrev rounds : List (List PairEvent)
rounds = replicate 100 round

nodes_connect_example :
    (l : Pair) × (pair_run reference env_a env_b (all_rounds rounds) the_start ≡ some l)
    × HasMet (b'a' ∷ []) l
unfolding send_name receive_status_g send_challenge_g challenge_reply send_challenge_ack_g
    calculate_digest
nodes_connect_example =
    nodes_connect reference env 7 9 b'a' b'b' [] [] none (λ s. refl) (omega arith) (omega arith)
      (omega arith) (omega arith) rounds (all_replicate-IsRound 100) (omega arith)

-- A connection that was accepted, and has read the name of its peer.
abbrev named : Connection
named =
    to_sending_status reference env_b
      (record (new_connection none) { own_challenge = 9; peer_name = some (b'a' ∷ []) })

abbrev name_events : List Event
name_events =
    starts_as_B 9 ∷ reads false (send_name reference (serializable_string (b'a' ∷ []))) ∷ []

name-read : run reference env_b name_events (new_connection none) ≡ steps named
unfolding run step start_handshake_as_B checked_read call_read on_name to_sending_status send_name
    add has_complete_msg next_message send_name_p read_handshake_size capabilities
name-read = refl

sending-named : ¬ (named.state ≡ connected_tcp)
unfolding to_sending_status
sending-named e = absurd (cc e)

accepted_knows_peer_example : (n : MsgSeq) × (peer_node_name named ≡ some n)
accepted_knows_peer_example =
    accepted_knows_peer reference env_b name_events named refl name-read (inl sending-named)
