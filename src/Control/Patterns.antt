-- ===== src/Control/Patterns.antt =====
-- The tuple of each operation, and the pattern by which impl/ctrl_msg_dispatcher.cpp matches it.
use tinch_pp.Prelude.{ℕ, ◌^◌, ◌<◌, false, [], ◌∷◌, arith}
use tinch_pp.Types.{MsgSeq, EPid}
use tinch_pp.Spirit.{Spirit}
use tinch_pp.Terms.RoundTrip.{FitsPid, FitsAtom}
use tinch_pp.Values.{
  bound_pid, bound_atom, bound_bytes, Terms, int_, pid, atom, nil, cons, serialize,
}
use tinch_pp.Control.{ctrl_msg_send, ctrl_msg_reg_send}
use tinch_pp.Control.Dispatcher.{linkage_pattern, exit_pattern, send_pattern, reg_send_pattern}
use tinch_pp.Control.Chain.{
  Matches, Matches-nil, Matches-cons, int_value-Reads, pid_assign-Reads, atom_assign-Reads,
  atom_any-Reads,
}

module _ (sp : Spirit) where
  abbrev pub linkage_terms : ℕ → EPid → EPid → Terms
  linkage_terms request from to = cons (int_ request) (cons (pid from) (cons (pid to) nil))

  abbrev pub exit_terms : ℕ → EPid → EPid → MsgSeq → Terms
  exit_terms request from to reason =
      cons (int_ request) (cons (pid from) (cons (pid to) (cons (atom reason) nil)))

  abbrev pub send_terms : EPid → Terms
  send_terms to = cons (int_ ctrl_msg_send) (cons (atom []) (cons (pid to) nil))

  abbrev pub reg_send_terms : EPid → MsgSeq → Terms
  reg_send_terms from name =
      cons (int_ ctrl_msg_reg_send) (cons (pid from) (cons (atom []) (cons (atom name) nil)))

  pub Matches-linkage :
      (request : ℕ) (from to : EPid)
      → request < 2 ^ 32
      → FitsPid from
      → FitsPid to
      → Matches sp false
          (linkage_pattern sp false request)
          (linkage_terms request from to)
          (bound_pid from ∷ bound_pid to ∷ [])
  Matches-linkage request from to r f t = Matches-cons sp false (int_value-Reads sp false r) (
      Matches-cons sp false (pid_assign-Reads sp false f)
        (Matches-cons sp false (pid_assign-Reads sp false t) (Matches-nil sp false)))

  pub Matches-exit :
      (request : ℕ) (from to : EPid) (reason : MsgSeq)
      → request < 2 ^ 32
      → FitsPid from
      → FitsPid to
      → FitsAtom reason
      → Matches sp false
          (exit_pattern sp false request)
          (exit_terms request from to reason)
          (bound_pid from ∷ bound_pid to ∷ bound_atom reason ∷ [])
  Matches-exit request from to reason r f t a = Matches-cons sp false (int_value-Reads sp false r) (
      Matches-cons sp false (pid_assign-Reads sp false f) (
        Matches-cons sp false (pid_assign-Reads sp false t)
          (Matches-cons sp false (atom_assign-Reads sp false a) (Matches-nil sp false))))

  pub Matches-send :
      (to : EPid)
      → FitsPid to
      → Matches sp false
          (send_pattern sp false)
          (send_terms to)
          (bound_bytes (serialize sp (atom [])) ∷ bound_pid to ∷ [])
  Matches-send to t = Matches-cons sp false (int_value-Reads sp false (omega arith)) (
      Matches-cons sp false (atom_any-Reads sp false [] (omega arith))
        (Matches-cons sp false (pid_assign-Reads sp false t) (Matches-nil sp false)))

  pub Matches-reg_send :
      (from : EPid) (name : MsgSeq)
      → FitsPid from
      → FitsAtom name
      → Matches sp false
          (reg_send_pattern sp false)
          (reg_send_terms from name)
          (bound_pid from ∷ bound_bytes (serialize sp (atom [])) ∷ bound_atom name ∷ [])
  Matches-reg_send from name f a = Matches-cons sp false (int_value-Reads sp false (omega arith)) (
      Matches-cons sp false (pid_assign-Reads sp false f) (
        Matches-cons sp false (atom_any-Reads sp false [] (omega arith))
          (Matches-cons sp false (atom_assign-Reads sp false a) (Matches-nil sp false))))
