-- ===== src/Node/Closing.antt =====
-- impl/actual_node.cpp, impl/linker.cpp: what closing a mailbox does to its peers and to the maps.
use tinch_pp.Prelude.{
  ℕ, All, ◌<◌, ◌≡◌, refl, true, List, [], ◌∷◌, map, none, some, arith, if◌then◌else◌, inl, inr,
  Bool-cases, ap, ◌∙◌, ◌==◌, bytes_eq, count, subst, sym,
}
use tinch_pp.Types.{MsgSeq, EPid, pid_eq}
use tinch_pp.Maps.{keys, find, same, pid_key, name_key, find-erase}
use tinch_pp.Linker.{
  Request, request_exit2, close_links_for_local, on_broken_links, remove_links_from, link_count,
}
use tinch_pp.Linker.Counts.{count-remove_links_from}
use tinch_pp.Connector.{Attempt}
use tinch_pp.Node.{Node, Ending, done, throws, ◌andthen◌}
use tinch_pp.Node.Policies.{exits2, dispatcher_for, notify_all}
use tinch_pp.Node.Mailboxes.{remove, close_mailbox}
use tinch_pp.Node.Notices.{reports, Steady, trans-Steady, Reported, exit2-done}

-- The second of two operations is reached, and ends, only if the first ends.
pub andthen-done :
    (r : Node × Ending) (k : Node → Node × Ending)
    → (r andthen k).1 ≡ done
    → (r.1 ≡ done) × ((r andthen k ≡ k r.0) × ((k r.0).1 ≡ done))
andthen-done (n, done) k h = (refl, (refl, h))
andthen-done (n, throws) k h = absurd (cc h)

later-Reported :
    (id : EPid) (reason : MsgSeq) (peer : EPid) (mailboxes : List (EPid × ℕ)) (n n' : Node)
    → Steady n n'
    → Reported n id reason mailboxes peer
    → Reported n' id reason mailboxes peer
later-Reported id reason peer mailboxes n n' s (i, (f, g)) = (i, (f, s.1 i reason id g))

abbrev pub notices : EPid → MsgSeq → List EPid → List Request
notices id reason peers = map (λ peer. request_exit2 id peer reason) peers

-- All pids of a map have one serial number.
abbrev pub HaveSerial : ℕ → List (EPid × ℕ) → Type 0
HaveSerial serial m = All (λ pid. pid.serial ≡ serial) (keys m)

module _ (attempt : MsgSeq → Attempt) where
  -- All notices are sent: every peer on the same node has its report.
  pub notify_all-done :
      (id : EPid) (reason : MsgSeq) (peers : List EPid) (n : Node)
      → (notify_all attempt (notices id reason peers) n).1 ≡ done
      → Steady n (notify_all attempt (notices id reason peers) n).0
        × ((peer : EPid)
            → (peer.node_name == n.node_name) ≡ true
            → 0 < count peer peers
            → Reported
                (notify_all attempt (notices id reason peers) n).0
                id
                reason
                n.mailboxes
                peer)
  unfolding notify_all count
  notify_all-done id reason [] n h =
      (((refl, (refl, refl)), λ i r p g. g), λ peer e c. absurd (omega (arith, c)))
  notify_all-done id reason (x ∷ xs) n h =
      let first : Node × Ending = dispatcher_for attempt (exits2 id x reason) n in
      let (d, (e, d')) = andthen-done first (notify_all attempt (notices id reason xs)) h in
      let (s, r) = exit2-done attempt id x reason n d in
      let (s', r') = notify_all-done id reason xs first.0 d' in
      (
        subst (λ z. Steady n z.0) (sym e)
            (trans-Steady n first.0 (notify_all attempt (notices id reason xs) first.0).0 s s'),
        λ peer q c.
            subst (λ z. Reported z.0 id reason n.mailboxes peer) (sym e)
              elim (Bool-cases (x == peer)) [
                | inl same_pid ↦
                    let equal = (pid_eq.beq_iff x peer).0 same_pid in
                    later-Reported id reason peer n.mailboxes first.0
                      (notify_all attempt (notices id reason xs) first.0).0 s'
                      (subst (λ p. Reported first.0 id reason n.mailboxes p) equal
                        (r (subst (λ p. (p.node_name == n.node_name) ≡ true) (sym equal) q)))
                | inr other ↦
                    subst
                      (λ m.
                        Reported (notify_all attempt (notices id reason xs) first.0).0 id reason m
                          peer)
                      s.0.0
                      (r' peer (subst (λ a. (peer.node_name == a) ≡ true) (sym s.0.1.1) q)
                        (ground arith))
              ],
      )

  -- Closing a mailbox, where it is done, reports the broken link with its reason to every mailbox on
  -- the same node that it was linked to.
  pub close_mailbox-reports :
      (id : EPid) (name reason : MsgSeq) (n : Node) (peer : EPid)
      → (close_mailbox attempt id name reason n).1 ≡ done
      → (peer.node_name == n.node_name) ≡ true
      → 0 < link_count n.mailbox_linker id peer
      → (i : ℕ) × ((find peer n.mailboxes ≡ some i)
          × (reports (close_mailbox attempt id name reason n).0.objects i reason id ≡ true))
  unfolding close_mailbox close_links_for_local on_broken_links remove
  close_mailbox-reports id name reason n peer h q c =
      let peers = (remove_links_from n.mailbox_linker id).1 in
      let n1 : Node = record n { mailbox_linker = (remove_links_from n.mailbox_linker id).0 } in
      let (d, (e, d')) =
        andthen-done (notify_all attempt (notices id reason peers) n1) (remove id name) h in
      let (i, (f, g)) =
        (notify_all-done id reason peers n1 d).1 peer q
          (omega (arith, count-remove_links_from id n.mailbox_linker peer, c)) in
      (i, (f, subst (λ z. reports z.0.objects i reason id ≡ true) (sym e) g))

  -- Closing a mailbox, where it is done, removes its pid and its name, and no other, from the maps of
  -- mailboxes, where all entered pids and the one that is asked for have the serial number of the
  -- closed one, so that `operator <` orders them.
  pub close_mailbox-forgets :
      (id : EPid) (name reason : MsgSeq) (n : Node) (pid : EPid) (other : MsgSeq)
      → HaveSerial id.serial n.mailboxes
      → pid.serial ≡ id.serial
      → (close_mailbox attempt id name reason n).1 ≡ done
      → let n' = (close_mailbox attempt id name reason n).0 in
        (find pid n'.mailboxes ≡ (if same id pid then none else find pid n.mailboxes))
        × (find other n'.registered_mailboxes
            ≡ (if same name other then none else find other n.registered_mailboxes))
  unfolding close_mailbox close_links_for_local on_broken_links remove
  close_mailbox-forgets id name reason n pid other one_serial q h =
      let peers = (remove_links_from n.mailbox_linker id).1 in
      let n1 : Node = record n { mailbox_linker = (remove_links_from n.mailbox_linker id).0 } in
      let (d, (e, d')) =
        andthen-done (notify_all attempt (notices id reason peers) n1) (remove id name) h in
      let s = (notify_all-done id reason peers n1 d).0 in
      let m = (notify_all attempt (notices id reason peers) n1).0 in
      (
        ap (λ z. find pid z.0.mailboxes) e
            ∙ find-erase pid id m.mailboxes
            ∙ ap (λ a. if same id pid then none else find pid a) s.0.0,
        ap (λ z. find other z.0.registered_mailboxes) e
            ∙ find-erase other name m.registered_mailboxes
            ∙ ap (λ a. if same name other then none else find other a) s.0.1.0,
      )
