-- ===== src/Connection/Pairs.antt =====
-- Two nodes of the program that connect to each other: the connection that starts the handshake, the
-- connection that was accepted, and the bytes between them (impl/node_connection_state.cpp,
-- impl/node_async_tcp_ip.cpp). What one side has written arrives at the other in order; a read that
-- is in progress completes with any number of the bytes that have arrived, from one to 128.
use tinch_pp.Prelude.{
  ℕ, suc, take, drop, ltb, if◌then◌else◌, false, List, [], ◌∷◌, ◌++◌, Option, none, some,
}
use tinch_pp.Types.{MsgSeq}
use tinch_pp.Spirit.{Spirit}
use tinch_pp.Connection.{
  Connection, Environment, Stepped, steps, throws_in, undefined_behaviour, never_ends,
}
use tinch_pp.Connection.Steps.{checked_read, checked_write}

-- The two connections, and the bytes that have been written and not read.
pub record Pair : Type 0 where
  pub a : Connection
  pub b : Connection
  pub to_a : MsgSeq
  pub to_b : MsgSeq

-- The read in progress of a side completes with up to one more byte than the number.
pub data PairEvent : Type 0 where
  a_writes b_writes : PairEvent
  a_reads b_reads : ℕ → PairEvent

-- `read_buffer_size` limits what one read delivers.
abbrev pub read_buffer_size : ℕ
read_buffer_size = 128

abbrev pub amount : ℕ → ℕ
amount n = if ltb n read_buffer_size then suc n else read_buffer_size

-- A step that ends normally.
abbrev pub normally : {A : Type 0} → Stepped → (Connection → A) → Option A
normally (steps c) k = some (k c)
normally (throws_in c) k = none
normally undefined_behaviour k = none
normally never_ends k = none

module _ (sp : Spirit) (env : Environment) where
  -- The completion of the write at the front of the queue: its bytes are on their way.
  unfoldable pub writes_to : Connection → MsgSeq → Option (Connection × MsgSeq)
  writes_to c sent = elim c.write_queue [
    | [] ↦ some (c, sent)
    | (msg, callback) ∷ rest ↦ normally (checked_write sp env false c) (λ c'. (c', sent ++ msg))
  ]

  -- The completion of the read in progress, with the next bytes that have arrived.
  unfoldable pub reads_from : ℕ → Connection → MsgSeq → Option (Connection × MsgSeq)
  reads_from n c [] = some (c, [])
  reads_from n c (b ∷ bs) = elim c.reading [
    | none ↦ some (c, b ∷ bs)
    | some ignore ↦
        normally (checked_read sp env false (take (amount n) (b ∷ bs)) c)
          (λ c'. (c', drop (amount n) (b ∷ bs)))
  ]

module _ (sp : Spirit) (env_a env_b : Environment) where
  -- `none` if a side throws or does not come back.
  unfoldable pub pair_step : PairEvent → Pair → Option Pair
  unfolding writes_to reads_from
  pair_step a_writes l = elim (writes_to sp env_a l.a l.to_b) [
    | none ↦ none
    | some (c, sent) ↦ some (record l { a = c; to_b = sent })
  ]
  pair_step (a_reads n) l = elim (reads_from sp env_a n l.a l.to_a) [
    | none ↦ none
    | some (c, left) ↦ some (record l { a = c; to_a = left })
  ]
  pair_step b_writes l = elim (writes_to sp env_b l.b l.to_a) [
    | none ↦ none
    | some (c, sent) ↦ some (record l { b = c; to_a = sent })
  ]
  pair_step (b_reads n) l = elim (reads_from sp env_b n l.b l.to_b) [
    | none ↦ none
    | some (c, left) ↦ some (record l { b = c; to_b = left })
  ]

  -- The events of a schedule, one after the other.
  unfoldable pub pair_run : List PairEvent → Pair → Option Pair
  unfolding pair_step
  pair_run [] l = some l
  pair_run (e ∷ es) l = elim (pair_step e l) [ none ↦ none | some l' ↦ pair_run es l' ]
