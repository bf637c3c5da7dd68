-- ===== src/Connection/Phases.antt =====
-- The order in which the handshake of impl/node_connection_state.cpp goes on between two nodes,
-- without their data: where it is, and what events it waits for.
use tinch_pp.Prelude.{◌≡◌, ◌⊎◌, refl, Bool, true, false, List, [], ◌∷◌, ◌++◌}
use tinch_pp.Connection.Pairs.{PairEvent, a_writes, a_reads, b_writes, b_reads}

-- What the next of the handshake's messages is, and where it is.
pub data Phase : Type 0 where
  name_queued name_sent : Phase
  status_queued status_sent challenge_queued challenge_sent : Phase
  both_sent : Phase
  reply_queued reply_sent ack_queued ack_sent finished : Phase

-- Which completion an event is.
pub data Completion : Type 0 where
  a_write a_read b_write b_read : Completion

abbrev pub completion : PairEvent → Completion
completion a_writes = a_write
completion b_writes = b_write
completion (a_reads n) = a_read
completion (b_reads n) = b_read

-- Which completions get the handshake further.
abbrev pub helps : Completion → Phase → Bool
helps a_write name_queued = true
helps a_write reply_queued = true
helps b_read name_sent = true
helps b_read reply_sent = true
helps b_write status_queued = true
helps b_write status_sent = true
helps b_write challenge_queued = true
helps b_write ack_queued = true
helps a_read status_sent = true
helps a_read challenge_sent = true
helps a_read both_sent = true
helps a_read ack_sent = true
helps _ _ = false

abbrev pub is_read : Phase → Bool
is_read name_sent = true
is_read status_sent = true
is_read both_sent = true
is_read challenge_sent = true
is_read reply_sent = true
is_read ack_sent = true
is_read _ = false

abbrev pub Occurs : Completion → List PairEvent → Type 0
Occurs k [] = ⊥
Occurs k (e ∷ es) = (completion e ≡ k) ⊎ Occurs k es

-- Each side completes a write and a read at least once, if it has one.
abbrev pub IsRound : List PairEvent → Type 0
IsRound es = (k : Completion) → Occurs k es

-- Where no completion helps, the handshake is over.
pub stuck_finished : (p : Phase) → ((k : Completion) → helps k p ≡ false) → p ≡ finished
stuck_finished name_queued h = absurd (cc (h a_write))
stuck_finished name_sent h = absurd (cc (h b_read))
stuck_finished status_queued h = absurd (cc (h b_write))
stuck_finished status_sent h = absurd (cc (h a_read))
stuck_finished challenge_queued h = absurd (cc (h b_write))
stuck_finished challenge_sent h = absurd (cc (h a_read))
stuck_finished both_sent h = absurd (cc (h a_read))
stuck_finished reply_queued h = absurd (cc (h a_write))
stuck_finished reply_sent h = absurd (cc (h b_read))
stuck_finished ack_queued h = absurd (cc (h b_write))
stuck_finished ack_sent h = absurd (cc (h a_read))
stuck_finished finished h = refl

-- Rounds one after the other.
unfoldable pub all_rounds : List (List PairEvent) → List PairEvent
all_rounds [] = []
all_rounds (round ∷ rounds) = round ++ all_rounds rounds
