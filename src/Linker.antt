-- ===== src/Linker.antt =====
-- impl/linker.h and impl/linker.cpp: the bidirectional links between processes.
-- `links_lock` makes each operation one step. The notifications run after the lock is released, on
-- a local copy of the peers, so an operation returns the requests in the order in which they run.
pub mod Counts
pub mod Refinement
use tinch_pp.Prelude.{
  ℕ, ◌+◌, Bool, ◌&&◌, ◌||◌, List, [], ◌∷◌, ◌++◌, map, ◌==◌, if◌then◌else◌, remove, count,
}
use tinch_pp.Types.{EPid, MsgSeq, pid_eq, link_eq}

-- The callbacks of `mailbox_controller_type`: the dying process, its peer and the reason.
pub data Request : Type 0 where
  request_exit : EPid → EPid → MsgSeq → Request
  request_exit2 : EPid → EPid → MsgSeq → Request

pub record Linker : Type 0 where
  pub established_links : List (EPid × EPid)

abbrev pub new_linker : Linker
new_linker = record { established_links = [] }

unfoldable pub establish_link_between : Linker → EPid → EPid → Linker
establish_link_between l pid1 pid2 = record {
  established_links = l.established_links ++ ((pid1, pid2) ∷ []);
}

unfoldable pub remove_link_between : Linker → EPid → EPid → Linker
remove_link_between l pid1 pid2 = record {
  established_links = remove (pid2, pid1) (remove (pid1, pid2) l.established_links);
}

unfoldable pub link : Linker → EPid → EPid → Linker
link l from to = establish_link_between (remove_link_between l from to) from to

unfoldable pub unlink : Linker → EPid → EPid → Linker
unlink l from to = remove_link_between l from to

-- The loop of `remove_links_from`: the links that stay, and the peers of those that go.
unfoldable pub remove_links_loop : EPid → List (EPid × EPid) → List (EPid × EPid) × List EPid
remove_links_loop dying [] = ([], [])
remove_links_loop dying ((first, second) ∷ links) =
    let (kept, removed) = remove_links_loop dying links in
    if dying == first
    then (kept, second ∷ removed)
    else (if dying == second then (kept, first ∷ removed) else ((first, second) ∷ kept, removed))

unfoldable pub remove_links_from : Linker → EPid → Linker × List EPid
unfolding remove_links_loop
remove_links_from l dying =
    let (kept, removed) = remove_links_loop dying l.established_links in
    (record { established_links = kept }, removed)

unfoldable pub on_broken_links : (EPid → Request) → Linker → EPid → Linker × List Request
unfolding remove_links_from
on_broken_links notification l dying =
    let (l', closed_links) = remove_links_from l dying in (l', map notification closed_links)

-- "error"
abbrev pub exit_reason : MsgSeq
exit_reason = b'e' ∷ b'r' ∷ b'r' ∷ b'o' ∷ b'r' ∷ []

unfoldable pub break_links_for_local : Linker → EPid → Linker × List Request
unfolding on_broken_links
break_links_for_local l dying =
    on_broken_links (λ peer. request_exit dying peer exit_reason) l dying

unfoldable pub close_links_for_local : Linker → EPid → MsgSeq → Linker × List Request
unfolding on_broken_links
close_links_for_local l dying reason =
    on_broken_links (λ peer. request_exit2 dying peer reason) l dying

-- Two ordered pairs name the same unordered pair of processes.
abbrev pub same_link : EPid → EPid → EPid → EPid → Bool
same_link a b p q = (a == p && b == q) || (a == q && b == p)

-- How often the unordered pair of two processes stands in the list.
unfoldable pub link_count : Linker → EPid → EPid → ℕ
link_count l p q =
    count (p, q) l.established_links + (if p == q then 0 else count (q, p) l.established_links)
