-- ===== src/Connector/Schedules.antt =====
-- impl/node_connector.cpp: threads that connect at the same time, under any schedule.
-- Each thread that waits holds its peer and its connection; the callback of a handshake and the
-- threads' checks come in any order, and a check may find nothing, as after a spurious wake-up.
use tinch_pp.Prelude.{ℕ, zero, suc, Bool, List, [], ◌∷◌, ◌++◌, Option, none, some, bytes_eq}
use tinch_pp.Types.{MsgSeq}
use tinch_pp.Maps.{name_key}
use tinch_pp.Connector.{
  Connector, Progress, returns, throws, waits, get_connection_to, wait_for_handshake_result,
  drop_connection_to, handshake_success, handshake_success_as_B, handle_accept,
}

-- The connector, the threads that wait, and what the others got, in order.
pub record Session : Type 0 where
  pub connector : Connector
  pub waiting : List (MsgSeq × ℕ)
  pub results : List (MsgSeq × Option ℕ)

abbrev pub new_session : Connector → Session
new_session c = record { connector = c; waiting = []; results = [] }

pub data Event : Type 0 where
  asks_for : Bool → MsgSeq → Event
  reports : Bool → Event
  wakes : ℕ → Event
  drops : MsgSeq → Event
  reports_as_B : ℕ → Option MsgSeq → Bool → Event
  accepts : Bool → Event

abbrev pub progressed : Session → MsgSeq → Connector × Progress → Session
progressed s peer (c, returns connection) = record s {
  connector = c;
  results = s.results ++ ((peer, some connection) ∷ []);
}
progressed s peer (c, throws) = record s {
  connector = c;
  results = s.results ++ ((peer, none) ∷ []);
}
progressed s peer (c, waits connection) = record s {
  connector = c;
  waiting = s.waiting ++ ((peer, connection) ∷ []);
}

-- The thread at a position of the list, and the others.
abbrev pub pick {ℓ} : {A : Type ℓ} → ℕ → List A → Option (A × List A)
pick n [] = none
pick zero (x ∷ xs) = some (x, xs)
pick (suc n) (x ∷ xs) = elim (pick n xs) [ none ↦ none | some (y, ys) ↦ some (y, x ∷ ys) ]

abbrev pub check : Session → Option ((MsgSeq × ℕ) × List (MsgSeq × ℕ)) → Session
check s none = s
check s (some ((peer, connection), others)) =
    progressed (record s { waiting = others }) peer
      (wait_for_handshake_result peer connection s.connector)

unfoldable pub step : Session → Event → Session
unfolding wait_for_handshake_result
step s (asks_for reachable peer) = progressed s peer (get_connection_to reachable peer s.connector)
step s (reports result) = record s { connector = handshake_success result s.connector }
step s (wakes n) = check s (pick n s.waiting)
step s (drops name) = record s { connector = drop_connection_to name s.connector }
step s (reports_as_B connection name succeeded) = record s {
  connector = handshake_success_as_B connection name succeeded s.connector;
}
step s (accepts error) = record s { connector = handle_accept error s.connector }

unfoldable pub run : Session → List Event → Session
run s [] = s
run s (e ∷ es) = run (step s e) es
