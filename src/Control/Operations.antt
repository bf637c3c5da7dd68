-- ===== src/Control/Operations.antt =====
-- The chain of handlers of impl/ctrl_msg_dispatcher.cpp on the tuple of each operation.
use tinch_pp.Prelude.{
  ℕ, ◌<◌, ◌≡◌, ◌≢◌, ◌∙◌, refl, false, List, [], ◌∷◌, ◌++◌, Option, some, arith, append-nil,
}
use tinch_pp.Types.{MsgSeq, EPid}
use tinch_pp.Spirit.{Spirit}
use tinch_pp.Terms.RoundTrip.{FitsPid, FitsAtom}
use tinch_pp.Values.{
  Patterns, int_value, and_then, Bound, Terms, int_, e_tuple, cons, serialize, count_terms,
}
use tinch_pp.Control.{
  magic_version, ctrl_msg_link, ctrl_msg_send, ctrl_msg_exit, ctrl_msg_unlink, ctrl_msg_reg_send,
  ctrl_msg_exit2,
}
use tinch_pp.Control.Dispatcher.{
  NodeCall, receive_incoming, receive_incoming_name, incoming_link, incoming_unlink, incoming_exit,
  incoming_exit2, Outcome, returns, check_term_version, with_payload, send_action, reg_send_action,
  linkage_action, exit_action, run_chain, operations_chain, handle, link_handler, unlink_handler,
  exit_handler, exit2_handler,
}
use tinch_pp.Control.Chain.{Matches, run_chain-passes, run_chain-handles}
use tinch_pp.Control.Patterns.{
  linkage_terms, exit_terms, send_terms, reg_send_terms, Matches-linkage, Matches-exit,
  Matches-send, Matches-reg_send,
}

module _ (sp : Spirit) where
  few_linkage :
      (request : ℕ) (from to : EPid) → count_terms (linkage_terms sp request from to) < 256
  unfolding count_terms
  few_linkage request from to = omega arith

  few_exit :
      (request : ℕ) (from to : EPid) (reason : MsgSeq)
      → count_terms (exit_terms sp request from to reason) < 256
  unfolding count_terms
  few_exit request from to reason = omega arith

  pub chain_send :
      (to : EPid) (payload : MsgSeq)
      → FitsPid to
      → run_chain sp false
          (operations_chain sp false)
          (serialize sp (e_tuple (send_terms sp to)) ++ (magic_version ∷ payload))
        ≡ returns (receive_incoming payload to)
  unfolding with_payload check_term_version
  chain_send to payload t =
      run_chain-handles sp false (send_action sp false) _ (magic_version ∷ payload)
        (unfold count_terms in omega arith) (Matches-send sp to t) refl

  pub chain_reg_send :
      (from : EPid) (name payload : MsgSeq)
      → FitsPid from
      → FitsAtom name
      → run_chain sp false
          (operations_chain sp false)
          (serialize sp (e_tuple (reg_send_terms sp from name)) ++ (magic_version ∷ payload))
        ≡ returns (receive_incoming_name payload name)
  unfolding with_payload check_term_version
  chain_reg_send from name payload f a =
      let few : count_terms (reg_send_terms sp from name) < 256 =
        unfold count_terms in omega arith in
      run_chain-passes sp false _ _ _ _ _ _ (magic_version ∷ payload) (omega arith) (omega arith)
        few
      ∙ run_chain-handles sp false (reg_send_action sp false) _ (magic_version ∷ payload) few
          (Matches-reg_send sp from name f a) refl

  -- Every handler before the one for the operation passes it on.
  passes :
      (v m : ℕ) (ps : Patterns) (action : List Bound → MsgSeq → Outcome (Option NodeCall))
      (next : List (MsgSeq → Outcome (Option NodeCall))) (ts : Terms)
      → m < 256
      → m ≢ v
      → count_terms (cons (int_ m) ts) < 256
      → run_chain sp false
          (handle sp false (and_then (int_value v) ps) action ∷ next)
          (serialize sp (e_tuple (cons (int_ m) ts)))
        ≡ run_chain sp false next (serialize sp (e_tuple (cons (int_ m) ts)))
  passes v m ps action next ts h ne few =
      rw append-nil at (run_chain-passes sp false v m ps action next ts [] (omega arith) ne few)

  -- Neither of the two handlers of messages takes another operation.
  passes_sends :
      (m : ℕ) (ts : Terms)
      → m < 256
      → m ≢ ctrl_msg_send
      → m ≢ ctrl_msg_reg_send
      → count_terms (cons (int_ m) ts) < 256
      → run_chain sp false (operations_chain sp false) (serialize sp (e_tuple (cons (int_ m) ts)))
        ≡ run_chain sp false
            (link_handler sp false
              ∷ unlink_handler sp false
              ∷ exit_handler sp false
              ∷ exit2_handler sp false
              ∷ [])
            (serialize sp (e_tuple (cons (int_ m) ts)))
  passes_sends m ts h s r few = passes _ m _ _ _ ts h s few ∙ passes _ m _ _ _ ts h r few

  -- Neither do the two handlers of links.
  passes_links :
      (m : ℕ) (ts : Terms)
      → m < 256
      → m ≢ ctrl_msg_link
      → m ≢ ctrl_msg_unlink
      → count_terms (cons (int_ m) ts) < 256
      → run_chain sp false
          (link_handler sp false
            ∷ unlink_handler sp false
            ∷ exit_handler sp false
            ∷ exit2_handler sp false
            ∷ [])
          (serialize sp (e_tuple (cons (int_ m) ts)))
        ≡ run_chain sp false
            (exit_handler sp false ∷ exit2_handler sp false ∷ [])
            (serialize sp (e_tuple (cons (int_ m) ts)))
  passes_links m ts h l u few = passes _ m _ _ _ ts h l few ∙ passes _ m _ _ _ ts h u few

  handles :
      {ps : Patterns} {ts : Terms} {bounds : List Bound}
      (action : List Bound → MsgSeq → Outcome (Option NodeCall))
      (next : List (MsgSeq → Outcome (Option NodeCall))) {call : NodeCall}
      → count_terms ts < 256
      → Matches sp false ps ts bounds
      → action bounds [] ≡ returns (some call)
      → run_chain sp false (handle sp false ps action ∷ next) (serialize sp (e_tuple ts))
        ≡ returns call
  handles action next few h e = rw append-nil at (run_chain-handles sp false action next [] few h e)

  pub chain_link :
      (from to : EPid)
      → FitsPid from
      → FitsPid to
      → run_chain sp false
          (operations_chain sp false)
          (serialize sp (e_tuple (linkage_terms sp ctrl_msg_link from to)))
        ≡ returns (incoming_link from to)
  chain_link from to f t =
      let few = few_linkage ctrl_msg_link from to in
      passes_sends _ _ (omega arith) (omega arith) (omega arith) few
      ∙ handles (linkage_action sp false incoming_link) _ few
          (Matches-linkage sp ctrl_msg_link from to (omega arith) f t) refl

  pub chain_unlink :
      (from to : EPid)
      → FitsPid from
      → FitsPid to
      → run_chain sp false
          (operations_chain sp false)
          (serialize sp (e_tuple (linkage_terms sp ctrl_msg_unlink from to)))
        ≡ returns (incoming_unlink from to)
  chain_unlink from to f t =
      let few = few_linkage ctrl_msg_unlink from to in
      passes_sends _ _ (omega arith) (omega arith) (omega arith) few
      ∙ passes _ _ _ _ _ _ (omega arith) (omega arith) few
      ∙ handles (linkage_action sp false incoming_unlink) _ few
          (Matches-linkage sp ctrl_msg_unlink from to (omega arith) f t) refl

  pub chain_exit :
      (from to : EPid) (reason : MsgSeq)
      → FitsPid from
      → FitsPid to
      → FitsAtom reason
      → run_chain sp false
          (operations_chain sp false)
          (serialize sp (e_tuple (exit_terms sp ctrl_msg_exit from to reason)))
        ≡ returns (incoming_exit from to reason)
  chain_exit from to reason f t a =
      let few = few_exit ctrl_msg_exit from to reason in
      passes_sends _ _ (omega arith) (omega arith) (omega arith) few
      ∙ passes_links _ _ (omega arith) (omega arith) (omega arith) few
      ∙ handles (exit_action sp false incoming_exit) _ few
          (Matches-exit sp ctrl_msg_exit from to reason (omega arith) f t a) refl

  pub chain_exit2 :
      (from to : EPid) (reason : MsgSeq)
      → FitsPid from
      → FitsPid to
      → FitsAtom reason
      → run_chain sp false
          (operations_chain sp false)
          (serialize sp (e_tuple (exit_terms sp ctrl_msg_exit2 from to reason)))
        ≡ returns (incoming_exit2 from to reason)
  chain_exit2 from to reason f t a =
      let few = few_exit ctrl_msg_exit2 from to reason in
      passes_sends _ _ (omega arith) (omega arith) (omega arith) few
      ∙ passes_links _ _ (omega arith) (omega arith) (omega arith) few
      ∙ passes _ _ _ _ _ _ (omega arith) (omega arith) few
      ∙ handles (exit_action sp false incoming_exit2) _ few
          (Matches-exit sp ctrl_msg_exit2 from to reason (omega arith) f t a) refl
