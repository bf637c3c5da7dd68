-- ===== src/Tests/Links.antt =====
-- Links between three processes (impl/linker.cpp).
use tinch_pp.Prelude.{ℕ, list_beq, ◌≡◌, List, [], ◌∷◌}
use tinch_pp.Types.{EPid, pid_beq}
use tinch_pp.Linker.{new_linker, link_count, close_links_for_local}
use tinch_pp.Linker.Refinement.{
  Op, links, unlinks, run, run_spec, run_refines, close_notifies_once, count_exit2,
}

abbrev pid_of : ℕ → EPid
pid_of n = record { node_name = b'a' ∷ []; id = n; serial = 0; creation = 1 }

-- Two links to the first process, one of them made twice, and one that is broken again.
abbrev some_ops : List Op
some_ops =
    links (pid_of 1) (pid_of 2)
    ∷ links (pid_of 2) (pid_of 1)
    ∷ links (pid_of 3) (pid_of 1)
    ∷ links (pid_of 2) (pid_of 4)
    ∷ unlinks (pid_of 4) (pid_of 2)
    ∷ []

run_refines_example : link_count (run new_linker some_ops) (pid_of 1) (pid_of 2) ≡ 1
unfolding run_spec pid_beq list_beq
run_refines_example = run_refines some_ops (pid_of 1) (pid_of 2)

close_notifies_once_example :
    (count_exit2
        (pid_of 1)
        (pid_of 3)
        (b'x' ∷ [])
        (close_links_for_local (run new_linker some_ops) (pid_of 1) (b'x' ∷ [])).1
      ≡ 1)
    × (link_count
          (close_links_for_local (run new_linker some_ops) (pid_of 1) (b'x' ∷ [])).0
          (pid_of 1)
          (pid_of 3)
        ≡ 0)
unfolding run_spec pid_beq list_beq
close_notifies_once_example = close_notifies_once some_ops (pid_of 1) (pid_of 3) (b'x' ∷ [])
