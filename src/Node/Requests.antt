-- ===== src/Node/Requests.antt =====
-- impl/actual_node.cpp, impl/link_policies.cpp: the notices that a closing mailbox sends to other nodes.
use tinch_pp.Prelude.{
  ℕ, ◌<◌, ◌≡◌, true, false, not, List, [], ◌∷◌, ◌++◌, none, some, arith, if◌then◌else◌, inl, inr,
  Option-cases, Bool-cases, ap, ◌∙◌, ◌==◌, bytes_eq, count, subst, sym, append_assoc, append-nil,
}
use tinch_pp.Types.{MsgSeq, EPid, pid_eq}
use tinch_pp.Maps.{pid_key}
use tinch_pp.Control.{ControlMsg, control_msg_exit2}
use tinch_pp.Connector.{Attempt}
use tinch_pp.Node.{Node, Ending, done, fetch_mailbox, incoming_exit, incoming_exit2}
use tinch_pp.Node.Policies.{exits2, dispatcher_for, notify_all, on_remote_node}
use tinch_pp.Node.Arrival.{request-done}
use tinch_pp.Node.Notices.{exit2-done, incoming_exit-looks_up}
use tinch_pp.Node.Closing.{andthen-done, notices}

-- An operation was handed to some connection.
abbrev pub Asked : Node → ControlMsg → Type 0
Asked n op =
    (before : List (ℕ × ControlMsg)) × ((c : ℕ) × ((after : List (ℕ × ControlMsg)) × (n.requested
          ≡ before ++ ((c, op) ∷ after))))

-- Requests are only added.
abbrev Grows : Node → Node → Type 0
Grows n n' = (more : List (ℕ × ControlMsg)) × (n'.requested ≡ n.requested ++ more)

trans-Grows : (n m l : Node) → Grows n m → Grows m l → Grows n l
trans-Grows n m l (a, e) (b, f) = (a ++ b, f ∙ ap (λ r. r ++ b) e ∙ append_assoc n.requested a b)

-- Of a request that was added last, and what came later.
add-Asked :
    (n m l : Node) (c : ℕ) (op : ControlMsg)
    → m.requested ≡ n.requested ++ ((c, op) ∷ [])
    → Grows m l
    → Asked l op
add-Asked n m l c op e (more, f) = (
  n.requested,
  (c, (more, f ∙ ap (λ r. r ++ more) e ∙ append_assoc n.requested ((c, op) ∷ []) more)),
)

incoming_exit-requested :
    (from to : EPid) (reason : MsgSeq) (n : Node)
    → (incoming_exit from to reason n).0.requested ≡ n.requested
incoming_exit-requested from to reason n =
    elim (Option-cases (fetch_mailbox to n.mailboxes n.objects).1) [
      | inl e ↦ ap (λ r. r.0.requested) (incoming_exit-looks_up from to reason n none e)
      | inr (i, e) ↦ ap (λ r. r.0.requested) (incoming_exit-looks_up from to reason n (some i) e)
    ]

module _ (attempt : MsgSeq → Attempt) where
  exit2-requests :
      (from to : EPid) (reason : MsgSeq) (n : Node)
      → (dispatcher_for attempt (exits2 from to reason) n).1 ≡ done
      → Grows n (dispatcher_for attempt (exits2 from to reason) n).0
        × ((to.node_name == n.node_name) ≡ false
            → (c : ℕ) × ((dispatcher_for attempt (exits2 from to reason) n).0.requested
                ≡ n.requested ++ ((c, control_msg_exit2 from to reason) ∷ [])))
  unfolding dispatcher_for on_remote_node incoming_exit2
  exit2-requests from to reason n =
      elim (to.node_name == n.node_name)
        as (λ b.
          (if not b
              then on_remote_node attempt (exits2 from to reason) n
              else incoming_exit from to reason n).1
            ≡ done
          → Grows n
              (if not b
                then on_remote_node attempt (exits2 from to reason) n
                else incoming_exit from to reason n).0
            × (b ≡ false
                → (c : ℕ) × ((if not b
                      then on_remote_node attempt (exits2 from to reason) n
                      else incoming_exit from to reason n).0.requested
                    ≡ n.requested ++ ((c, control_msg_exit2 from to reason) ∷ [])))) [
                      | true ↦ λ h. (
                        (
                          [],
                          incoming_exit-requested from to reason n ∙ sym (append-nil n.requested),
                        ),
                        λ e. absurd (ground arith),
                      )
                      | false ↦ λ h.
                          let (c, e) =
                            request-done attempt (control_msg_exit2 from to reason) to.node_name n
                              h in
                          (((c, control_msg_exit2 from to reason) ∷ [], e), λ _. (c, e))
                    ]

  -- Every peer on another node is asked to be told.
  pub notify_all-requests :
      (id : EPid) (reason : MsgSeq) (peers : List EPid) (n : Node)
      → (notify_all attempt (notices id reason peers) n).1 ≡ done
      → Grows n (notify_all attempt (notices id reason peers) n).0
        × ((peer : EPid)
            → (peer.node_name == n.node_name) ≡ false
            → 0 < count peer peers
            → Asked
                (notify_all attempt (notices id reason peers) n).0
                (control_msg_exit2 id peer reason))
  unfolding notify_all count
  notify_all-requests id reason [] n h =
      (([], sym (append-nil n.requested)), λ peer e c. absurd (omega (arith, c)))
  notify_all-requests id reason (x ∷ xs) n h =
      let first : Node × Ending = dispatcher_for attempt (exits2 id x reason) n in
      let last : Node = (notify_all attempt (notices id reason xs) first.0).0 in
      let (d, (e, d')) = andthen-done first (notify_all attempt (notices id reason xs)) h in
      let (s, _) = exit2-done attempt id x reason n d in
      let (g, r) = exit2-requests id x reason n d in
      let (g', r') = notify_all-requests id reason xs first.0 d' in
      (
        subst (λ z. Grows n z.0) (sym e) (trans-Grows n first.0 last g g'),
        λ peer q c.
            subst (λ z. Asked z.0 (control_msg_exit2 id peer reason)) (sym e)
              (elim (Bool-cases (x == peer)) [
                | inl same_pid ↦
                    let equal = (pid_eq.beq_iff x peer).0 same_pid in
                    let (k, a) =
                      r (subst (λ p. (p.node_name == n.node_name) ≡ false) (sym equal) q) in
                    subst (λ p. Asked last (control_msg_exit2 id p reason)) equal
                      (add-Asked n first.0 last k (control_msg_exit2 id x reason) a g')
                | inr other ↦
                    r' peer (subst (λ a. (peer.node_name == a) ≡ false) (sym s.0.1.1) q)
                      (ground arith)
              ]),
      )
