-- ===== src/Tests/Creation.antt =====
-- Pids of one node (impl/actual_node.cpp).
use tinch_pp.Prelude.{◌≢◌, ◌+◌, arith, [], ◌∷◌}
use tinch_pp.Pids.{initial_fields, nth_pid}
use tinch_pp.Pids.Uniqueness.{nth_pid_unique}

nth_pid_unique_example :
    nth_pid (b'a' ∷ []) initial_fields 3 ≢ nth_pid (b'a' ∷ []) initial_fields (3 + 40000)
nth_pid_unique_example = nth_pid_unique (b'a' ∷ []) 3 40000 (omega arith) (omega arith)
