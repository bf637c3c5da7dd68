-- ===== src/Linker/Refinement.antt =====
-- The linker of impl/linker.cpp against its contract: a symmetric relation between processes.
use tinch_pp.Prelude.{
  ℕ, ◌+◌, ◌≡◌, refl, Bool, false, ◌&&◌, ◌||◌, not, List, [], ◌∷◌, arith, ◌==◌, map, length,
  if◌then◌else◌, count, ◌∙◌, bytes_eq,
}
use tinch_pp.Types.{EPid, MsgSeq, pid_eq}
use tinch_pp.Linker.{
  Linker, new_linker, same_link, link_count, link, unlink, remove_links_from, Request, request_exit,
  request_exit2, on_broken_links, break_links_for_local, close_links_for_local,
}
use tinch_pp.Linker.Counts.{
  link_count-link, link_count-unlink, link_count-remove_links_from, count-remove_links_from,
}

-- The operations that the node and the connections call.
pub data Op : Type 0 where
  links unlinks : EPid → EPid → Op
  breaks : EPid → Op
  closes : EPid → MsgSeq → Op

abbrev pub apply : Linker → Op → Linker
apply l (links a b) = link l a b
apply l (unlinks a b) = unlink l a b
apply l (breaks d) = (break_links_for_local l d).0
apply l (closes d reason) = (close_links_for_local l d reason).0

unfoldable pub run : Linker → List Op → Linker
run l [] = l
run l (op ∷ ops) = run (apply l op) ops

-- The contract: a relation on processes, with no list and no order.
abbrev pub Relation : Type 0
Relation = EPid → EPid → Bool

abbrev pub apply_spec : Relation → Op → Relation
apply_spec r (links a b) p q = same_link a b p q || r p q
apply_spec r (unlinks a b) p q = not (same_link a b p q) && r p q
apply_spec r (breaks d) p q = not (d == p || d == q) && r p q
apply_spec r (closes d reason) p q = not (d == p || d == q) && r p q

unfoldable pub run_spec : Relation → List Op → Relation
run_spec r [] = r
run_spec r (op ∷ ops) = run_spec (apply_spec r op) ops

-- A linked pair stands in the list once, an unlinked pair not at all.
abbrev pub Implements : Linker → Relation → Type 0
Implements l r = (p q : EPid) → link_count l p q ≡ (if r p q then 1 else 0)

apply-Implements :
    (l : Linker) (r : Relation) (op : Op)
    → Implements l r
    → Implements (apply l op) (apply_spec r op)
unfolding break_links_for_local close_links_for_local on_broken_links
apply-Implements l r (links a b) h p q = ground (arith, link_count-link l a b p q, h p q)
apply-Implements l r (unlinks a b) h p q = ground (arith, link_count-unlink l a b p q, h p q)
apply-Implements l r (breaks d) h p q = ground (arith, link_count-remove_links_from d l p q, h p q)
apply-Implements l r (closes d reason) h p q =
    ground (arith, link_count-remove_links_from d l p q, h p q)

run-Implements :
    (l : Linker) (r : Relation) (ops : List Op)
    → Implements l r
    → Implements (run l ops) (run_spec r ops)
unfolding run run_spec
run-Implements l r [] h = h
run-Implements l r (op ∷ ops) h =
    run-Implements (apply l op) (apply_spec r op) ops (apply-Implements l r op h)

-- After any sequence of operations from the empty linker, two processes stand in the list of links
-- exactly once, in one order or the other, if the relation that the operations describe holds of
-- them, and not at all if it does not.
pub run_refines :
    (ops : List Op) (p q : EPid)
    → link_count (run new_linker ops) p q ≡ (if run_spec (λ _ _. false) ops p q then 1 else 0)
unfolding link_count count
run_refines ops = run-Implements new_linker (λ _ _. false) ops (λ p q. ground arith)

-- How often an EXIT2 from one process to another, for the given reason, stands in a list.
unfoldable pub count_exit2 : EPid → EPid → MsgSeq → List Request → ℕ
count_exit2 from to reason [] = 0
count_exit2 from to reason (request_exit f t r ∷ rest) = count_exit2 from to reason rest
count_exit2 from to reason (request_exit2 f t r ∷ rest) =
    (if from == f && (t == to && reason == r) then 1 else 0) + count_exit2 from to reason rest

count_exit2-map :
    (d q : EPid) (reason : MsgSeq) (peers : List EPid)
    → count_exit2 d q reason (map (λ peer. request_exit2 d peer reason) peers) ≡ count q peers
unfolding count_exit2 count
count_exit2-map d q reason [] = refl
count_exit2-map d q reason (x ∷ peers) =
    ground
      (arith, count_exit2-map d q reason peers, pid_eq.beq_iff d d, bytes_eq.beq_iff reason reason)

length-map_requests : (f : EPid → Request) (peers : List EPid) → length (map f peers) ≡ length peers
length-map_requests f [] = refl
length-map_requests f (x ∷ peers) = omega (arith, length-map_requests f peers)

-- Closing the links of a process, after any sequence of operations, sends one EXIT2 with the given
-- reason to each process that is linked to it and none to any other, and leaves no link of the
-- process behind.
pub close_notifies_once :
    (ops : List Op) (d q : EPid) (reason : MsgSeq)
    → let (l, requests) = close_links_for_local (run new_linker ops) d reason in
      (count_exit2 d q reason requests ≡ (if run_spec (λ _ _. false) ops d q then 1 else 0))
      × (link_count l d q ≡ 0)
unfolding close_links_for_local on_broken_links
close_notifies_once ops d q reason = (
  count_exit2-map d q reason (remove_links_from (run new_linker ops) d).1
      ∙ count-remove_links_from d (run new_linker ops) q
      ∙ run_refines ops d q,
  ground (arith, link_count-remove_links_from d (run new_linker ops) d q, pid_eq.beq_iff d d),
)
