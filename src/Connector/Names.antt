-- ===== src/Connector/Names.antt =====
-- impl/node_connector.cpp: the names of the connected nodes under any schedule.
use tinch_pp.Prelude.{
  subst, ℕ, ◌+◌, ◌≡◌, refl, Bool, true, false, List, [], ◌∷◌, Option, none, some, arith,
  if◌then◌else◌, count, bytes_eq, inl, inr, Option-cases, ◌==◌, nat_eq,
}
use tinch_pp.Types.{MsgSeq}
use tinch_pp.Maps.{
  find, place, insert, erase, keys, same, name_key, find-place, find-erase, bytes_same,
}
use tinch_pp.Connector.{
  Connector, new_connector, Progress, returns, throws, waits, get_connection_to,
  make_new_connection, after_handshake, wait_for_handshake_result, drop_connection_to,
  handshake_success, handshake_success_as_B, trigger_accept, handle_accept, connected_nodes,
}
use tinch_pp.Connector.Schedules.{
  Session, new_session, Event, asks_for, reports, wakes, drops, reports_as_B, accepts, progressed,
  pick, check, step, run,
}

-- The key of a map of names, as an equality test.
same_name : (a b : MsgSeq) → same a b ≡ (a == b)
same_name a b = ground (arith, bytes_same a b, bytes_eq.beq_iff a b)

count-keys-place :
    (name k : MsgSeq) (v : ℕ) (m : List (MsgSeq × ℕ))
    → count name (keys (place k v m)) ≡ count name (keys m) + (if k == name then 1 else 0)
unfolding count place
count-keys-place name k v [] = ground arith
count-keys-place name k v ((k', v') ∷ m) = ground (arith, count-keys-place name k v m)

count-keys-erase :
    (name k : MsgSeq) (m : List (MsgSeq × ℕ))
    → count name (keys (erase k m)) ≡ (if k == name then 0 else count name (keys m))
unfolding count erase
count-keys-erase name k [] = ground arith
count-keys-erase name k ((k', v') ∷ m) = ground (
  arith,
  count-keys-erase name k m,
  same_name k k',
  bytes_eq.beq_iff k k',
  bytes_eq.beq_iff k name,
  bytes_eq.beq_iff k' name,
)

abbrev pub occurrences : Option ℕ → ℕ
occurrences none = 0
occurrences (some x) = 1

-- Each name that is entered stands in the map once.
abbrev Once : List (MsgSeq × ℕ) → Type 0
Once m = (name : MsgSeq) → count name (keys m) ≡ occurrences (find name m)

insert-Once : (k : MsgSeq) (v : ℕ) (m : List (MsgSeq × ℕ)) → Once m → Once (insert k v m)
unfolding insert
insert-Once k v m h name = elim (Option-cases (find k m)) [
  | inl e ↦ ground (
    arith,
    h name,
    h k,
    find-place name k v m e,
    count-keys-place name k v m,
    same_name k name,
    bytes_eq.beq_iff k name,
  )
  | inr (w, e) ↦ ground (arith, h name)
]

erase-Once : (k : MsgSeq) (m : List (MsgSeq × ℕ)) → Once m → Once (erase k m)
erase-Once k m h name =
    ground (arith, h name, find-erase name k m, count-keys-erase name k m, same_name k name)

abbrev OnceIn : Connector → Type 0
OnceIn c = Once c.node_connections

after_handshake-Once :
    (peer : MsgSeq) (n : ℕ) (result : Bool) (c : Connector)
    → OnceIn c
    → OnceIn (after_handshake peer n result c).0
unfolding after_handshake
after_handshake-Once peer n true c h = insert-Once peer n c.node_connections h
after_handshake-Once peer n false c h = h

wait-Once :
    (peer : MsgSeq) (n : ℕ) (c : Connector)
    → OnceIn c
    → OnceIn (wait_for_handshake_result peer n c).0
unfolding wait_for_handshake_result
wait-Once peer n c h =
    elim c.handshake_done
      as (λ o.
        OnceIn
          (elim o as (λ x. Connector × Progress) [
            | none ↦ (c, waits n)
            | some r ↦ after_handshake peer n r (record c { handshake_done = none })
          ]).0) [
            | none ↦ h
            | some result ↦
                after_handshake-Once peer n result (record c { handshake_done = none }) h
          ]

make_new_connection-Once :
    (reachable : Bool) (peer : MsgSeq) (c : Connector)
    → OnceIn c
    → OnceIn (make_new_connection reachable peer c).0
unfolding make_new_connection
make_new_connection-Once true peer c h =
    wait-Once peer c.created (record c { created = c.created + 1 }) h
make_new_connection-Once false peer c h = h

get_connection_to-Once :
    (reachable : Bool) (peer : MsgSeq) (c : Connector)
    → OnceIn c
    → OnceIn (get_connection_to reachable peer c).0
unfolding get_connection_to
get_connection_to-Once reachable peer c h = elim (Option-cases (find peer c.node_connections)) [
  | inr (w, e) ↦ subst OnceIn {x = c} {y = (get_connection_to reachable peer c).0} (ground arith) h
  | inl e ↦
      subst (λ r. OnceIn r.0) {x = make_new_connection reachable peer c}
        {y = get_connection_to reachable peer c} (ground arith)
        (make_new_connection-Once reachable peer c h)
]

as_B-Once :
    (n : ℕ) (name : Option MsgSeq) (succeeded : Bool) (c : Connector)
    → OnceIn c
    → OnceIn (handshake_success_as_B n name succeeded c)
unfolding handshake_success_as_B trigger_accept
as_B-Once n name false c h = h
as_B-Once n none true c h = h
as_B-Once n (some name) true c h = insert-Once name n c.node_connections h

progressed-Once :
    (s : Session) (peer : MsgSeq) (r : Connector × Progress)
    → OnceIn r.0
    → OnceIn (progressed s peer r).connector
progressed-Once s peer (c, returns n) h = h
progressed-Once s peer (c, throws) h = h
progressed-Once s peer (c, waits n) h = h

check-Once :
    (s : Session) (picked : Option ((MsgSeq × ℕ) × List (MsgSeq × ℕ)))
    → OnceIn s.connector
    → OnceIn (check s picked).connector
check-Once s none h = h
check-Once s (some ((peer, n), others)) h =
    progressed-Once (record s { waiting = others }) peer
      (wait_for_handshake_result peer n s.connector) (wait-Once peer n s.connector h)

step-Once : (s : Session) (e : Event) → OnceIn s.connector → OnceIn (step s e).connector
unfolding step drop_connection_to handshake_success handle_accept trigger_accept
step-Once s (asks_for reachable peer) h =
    progressed-Once s peer (get_connection_to reachable peer s.connector)
      (get_connection_to-Once reachable peer s.connector h)
step-Once s (reports result) h = h
step-Once s (wakes n) h = check-Once s (pick n s.waiting) h
step-Once s (drops name) h = erase-Once name s.connector.node_connections h
step-Once s (reports_as_B n name succeeded) h = as_B-Once n name succeeded s.connector h
step-Once s (accepts true) h = h
step-Once s (accepts false) h = h

run-Once : (s : Session) (es : List Event) → OnceIn s.connector → OnceIn (run s es).connector
unfolding run
run-Once s [] h = h
run-Once s (e ∷ es) h = run-Once (step s e) es (step-Once s e h)

-- Under any schedule of threads, callbacks and dropped connections, the list of connected nodes that
-- the connector returns names a node once if a connection is entered for it, and not at all otherwise.
pub connected_nodes-once :
    (es : List Event) (name : MsgSeq)
    → let c = (run (new_session new_connector) es).connector in
      count name (connected_nodes c) ≡ occurrences (find name c.node_connections)
unfolding find count
connected_nodes-once es name = run-Once (new_session new_connector) es (λ n. refl) name
