-- ===== src/Connection/Known.antt =====
-- impl/node_connection.cpp: `peer_node_name`, and when a connection knows the name of its peer.
use tinch_pp.Prelude.{
  ◌≡◌, refl, ap, sym, ◌∙◌, not, ◌&&◌, Bool, true, false, ◌||◌, Option, none, some, arith, List, [],
  ◌∷◌, ◌++◌, ◌⊎◌, inl, inr,
}
use tinch_pp.Types.{MsgSeq}
use tinch_pp.Spirit.{Spirit}
use tinch_pp.Connection.{
  Connection, Environment, Stepped, steps, throws_in, undefined_behaviour, never_ends, State,
  connected_tcp, new_connection, ReadCallback, name_read, WriteCallback,
}
use tinch_pp.Connection.Steps.{
  Event, starts_as_A, starts_as_B, reads, writes, requests, step, run, start_handshake_as_B,
  request, checked_read, checked_write,
}
use tinch_pp.Connection.States.{
  on_name, on_status, on_challenge, on_challenge_ack, on_reply, on_msg, receive_challenge,
  call_read, to_sending_status, call_written, handle_io_error, report_failure,
}

-- `none` is the exception.
abbrev pub peer_node_name : Connection → Option MsgSeq
peer_node_name c = c.peer_name

abbrev is_known : Option MsgSeq → Bool
is_known none = false
is_known (some _) = true

abbrev knows : Stepped → Bool
knows (steps c) = is_known (peer_node_name c)
knows (throws_in c) = is_known (peer_node_name c)
knows undefined_behaviour = true
knows never_ends = true

abbrev is_as_A : Event → Bool
is_as_A (starts_as_A _) = true
is_as_A _ = false

abbrev starts_only_as_B : List Event → Bool
starts_only_as_B [] = true
starts_only_as_B (e ∷ es) = not (is_as_A e) && starts_only_as_B es

-- The peer is known, or nothing but the name of the peer is awaited and nothing is written.
abbrev awaits_name : State → List (MsgSeq × WriteCallback) → Option (ReadCallback × Bool) → Bool
awaits_name connected_tcp [] none = true
awaits_name connected_tcp [] (some (name_read, _)) = true
awaits_name _ _ _ = false

-- Whether the connector was told that the handshake succeeded.
abbrev has_success : List Bool → Bool
has_success [] = false
has_success (success ∷ rest) = success || has_success rest

has_success-append :
    (signals : List Bool) → has_success (signals ++ (false ∷ [])) ≡ has_success signals
has_success-append [] = refl
has_success-append (success ∷ signals) = rw (has_success-append signals) refl

abbrev is_waiting : Connection → Bool
is_waiting c = awaits_name c.state c.write_queue c.reading && not (has_success c.handshake_success)

abbrev introduced : Connection → Bool
introduced c = is_known c.peer_name || is_waiting c

abbrev lasts : Stepped → Bool
lasts (steps c) = introduced c
lasts (throws_in c) = introduced c
lasts undefined_behaviour = true
lasts never_ends = true

introduced-knows :
    (c : Connection)
    → introduced c ≡ true
    → (¬ (c.state ≡ connected_tcp)) ⊎ (has_success c.handshake_success ≡ true)
    → is_known c.peer_name ≡ true
introduced-knows c i (inl other) = ground (arith, other)
introduced-knows c i (inr success) = ground (arith, success)

module _ (sp : Spirit) (env : Environment) where
  call_read-knows :
      (callback : ReadCallback) (u : Bool) (c : Connection)
      → is_known c.peer_name ≡ true
      → knows (call_read sp env callback u c) ≡ true
  unfolding call_read on_name on_status on_challenge on_challenge_ack on_reply on_msg
      receive_challenge
  call_read-knows callback true c h = ground arith
  call_read-knows callback false c h = ground arith

  call_written-knows :
      (callback : WriteCallback) (c : Connection)
      → is_known c.peer_name ≡ true
      → is_known (call_written sp env callback c).peer_name ≡ true
  unfolding call_written
  call_written-knows callback c h = ground arith

  checked_read-knows :
      (error : Bool) (bytes : MsgSeq) (c : Connection)
      → is_known c.peer_name ≡ true
      → knows (checked_read sp env error bytes c) ≡ true
  unfolding checked_read handle_io_error
  checked_read-knows error bytes c h = grind (arith, call_read-knows)

  checked_write-knows :
      (error : Bool) (c : Connection)
      → is_known c.peer_name ≡ true
      → knows (checked_write sp env error c) ≡ true
  unfolding checked_write handle_io_error
  checked_write-knows error c h = grind (arith, call_written-knows)

  step-knows :
      (e : Event) (c : Connection) → is_known c.peer_name ≡ true → knows (step sp env e c) ≡ true
  unfolding step
  step-knows (starts_as_A challenge) c h = ground arith
  step-knows (starts_as_B challenge) c h = ground arith
  step-knows (reads error bytes) c h = checked_read-knows error bytes c h
  step-knows (writes error) c h = checked_write-knows error c h
  step-knows (requests op) c h = ground arith

  knows-lasts : (s : Stepped) → knows s ≡ true → lasts s ≡ true
  knows-lasts s h = ground arith

  call_read-lasts :
      (u : Bool) (c : Connection)
      → is_waiting c ≡ true
      → lasts (call_read sp env name_read u c) ≡ true
  unfolding call_read on_name to_sending_status report_failure
  call_read-lasts true c h = ground (arith, has_success-append c.handshake_success)
  call_read-lasts false c h = ground (arith, has_success-append c.handshake_success)

  checked_read-lasts :
      (error : Bool) (bytes : MsgSeq) (c : Connection)
      → is_waiting c ≡ true
      → lasts (checked_read sp env error bytes c) ≡ true
  unfolding checked_read handle_io_error report_failure
  checked_read-lasts error bytes c h =
      grind (arith, call_read-lasts, has_success-append c.handshake_success)

  step-awaits :
      (e : Event) (c : Connection)
      → is_as_A e ≡ false
      → is_waiting c ≡ true
      → lasts (step sp env e c) ≡ true
  unfolding step start_handshake_as_B checked_write request
  step-awaits (starts_as_A challenge) c a h = ground arith
  step-awaits (starts_as_B challenge) c a h = ground arith
  step-awaits (reads error bytes) c a h = checked_read-lasts error bytes c h
  step-awaits (writes error) c a h = ground arith
  step-awaits (requests op) c a h = ground arith

  step-lasts :
      (e : Event) (c : Connection)
      → is_as_A e ≡ false
      → introduced c ≡ true
      → lasts (step sp env e c) ≡ true
  step-lasts e c a h =
      grind (arith, knows-lasts (step sp env e c), step-knows e c, step-awaits e c a)

  run-knows :
      (es : List Event) (c : Connection)
      → is_known c.peer_name ≡ true
      → knows (run sp env es c) ≡ true
  unfolding run
  run-knows [] c h = h
  run-knows (e ∷ es) c h = grind (arith, run-knows es, step-knows e c h)

  run-lasts :
      (es : List Event) (c : Connection)
      → starts_only_as_B es ≡ true
      → introduced c ≡ true
      → lasts (run sp env es c) ≡ true
  unfolding run
  run-lasts [] c a h = h
  run-lasts (e ∷ es) c a h = grind (arith, run-lasts es, step-lasts e c)

  known_name : (name : Option MsgSeq) → is_known name ≡ true → (n : MsgSeq) × (name ≡ some n)
  known_name none h = absurd (cc h)
  known_name (some n) h = (n, refl)

  -- A connection that was made to a peer knows a name of its peer after any events that all end
  -- normally.
  made_knows_peer :
      (name : MsgSeq) (es : List Event) (c : Connection)
      → run sp env es (new_connection (some name)) ≡ steps c
      → (n : MsgSeq) × (peer_node_name c ≡ some n)
  made_knows_peer name es c e =
      known_name c.peer_name (sym (ap knows e) ∙ run-knows es (new_connection (some name)) refl)

  -- A connection that was accepted, so that its peer is not known at first, and that never starts a
  -- handshake as A: whatever is read, written and requested, and in whatever order, as long as every
  -- step ends normally, once its state is another than `connected_tcp` or it has told the connector
  -- that the handshake succeeded, it knows the name of its peer, so that `peer_node_name` does not
  -- throw.
  pub accepted_knows_peer :
      (es : List Event) (c : Connection)
      → starts_only_as_B es ≡ true
      → run sp env es (new_connection none) ≡ steps c
      → (¬ (c.state ≡ connected_tcp)) ⊎ (has_success c.handshake_success ≡ true)
      → (n : MsgSeq) × (peer_node_name c ≡ some n)
  accepted_knows_peer es c a e told =
      let i : introduced c ≡ true = sym (ap lasts e) ∙ run-lasts es (new_connection none) a refl in
      known_name c.peer_name (introduced-knows c i told)
