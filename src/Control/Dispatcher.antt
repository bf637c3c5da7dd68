-- ===== src/Control/Dispatcher.antt =====
-- impl/ctrl_msg_dispatcher.cpp: a received message as a call on the node.
-- Whether `char` is a signed type is the platform's choice, and an argument here.
use tinch_pp.Prelude.{ℕ, Bool, List, [], ◌∷◌, Option, none, some, nat_beq, if◌then◌else◌}
use tinch_pp.Types.{MsgSeq, EPid}
use tinch_pp.Spirit.{Spirit, ◌>>◌}
use tinch_pp.Strings.{char_to_int}
use tinch_pp.Values.{
  Patterns, int_value, pid_assign, atom_any, atom_assign, tuple_of, none_left, and_then, Bound,
  bound_pid, bound_atom, match,
}
use tinch_pp.Control.{
  magic_version, pass_through, ctrl_msg_link, ctrl_msg_send, ctrl_msg_exit, ctrl_msg_unlink,
  ctrl_msg_reg_send, ctrl_msg_exit2,
}

-- What a dispatched message calls on the node, through the connection.
pub data NodeCall : Type 0 where
  receive_incoming : MsgSeq → EPid → NodeCall
  receive_incoming_name : MsgSeq → MsgSeq → NodeCall
  incoming_link incoming_unlink : EPid → EPid → NodeCall
  incoming_exit incoming_exit2 : EPid → EPid → MsgSeq → NodeCall

-- A `tinch_pp_exception` may be thrown, and the end of the message may be dereferenced, which the
-- language leaves undefined.
pub data Outcome (A : Type 0) : Type 0 where
  returns : A → Outcome A
  throws : Outcome A
  reads_past_end : Outcome A

abbrev pub and_with : {A B : Type 0} → Outcome A → (A → Outcome B) → Outcome B
and_with (returns a) k = k a
and_with throws k = throws
and_with reads_past_end k = reads_past_end

module _ (sp : Spirit) (char_is_signed : Bool) where
  -- `*first++` is a `char`, which is compared as an `int`.
  unfoldable pub check_term_version : MsgSeq → Outcome MsgSeq
  check_term_version [] = reads_past_end
  check_term_version (term_version ∷ first) =
      if nat_beq magic_version (char_to_int char_is_signed term_version)
      then returns first
      else throws

  unfoldable pub parse_header : MsgSeq → Outcome MsgSeq
  unfolding check_term_version
  parse_header first = elim ((sp.big_dword >> sp.byte_lit pass_through) first) [
    | none ↦ throws
    | some (b, rest) ↦ check_term_version rest
  ]

  -- A handler returns what it calls, or `none` if it does not handle the message.
  abbrev pub Handler : Type 0
  Handler = MsgSeq → Outcome (Option NodeCall)

  -- The pattern of an operation, and what is done with its variables and the rest of the message.
  unfoldable pub handle : Patterns → (List Bound → MsgSeq → Outcome (Option NodeCall)) → Handler
  handle pattern action f = elim (match sp char_is_signed (tuple_of pattern) f) [
    | none ↦ returns none
    | some (bounds, rest) ↦ action bounds rest
  ]

  -- `check_term_version`, and the rest is the payload.
  unfoldable pub with_payload : MsgSeq → (MsgSeq → NodeCall) → Outcome (Option NodeCall)
  unfolding check_term_version
  with_payload f call = and_with (check_term_version f) λ payload. returns (some (call payload))

  -- A list of stored values has the form of its pattern; the last clause of an action is not reached.
  abbrev pub send_action : List Bound → MsgSeq → Outcome (Option NodeCall)
  send_action (cookie ∷ bound_pid to_pid ∷ []) f =
      with_payload f λ payload. receive_incoming payload to_pid
  send_action _ f = returns none

  abbrev pub reg_send_action : List Bound → MsgSeq → Outcome (Option NodeCall)
  reg_send_action (from_pid ∷ cookie ∷ bound_atom to_name ∷ []) f =
      with_payload f λ payload. receive_incoming_name payload to_name
  reg_send_action _ f = returns none

  abbrev pub linkage_action :
      (EPid → EPid → NodeCall) → List Bound → MsgSeq → Outcome (Option NodeCall)
  linkage_action call (bound_pid from_pid ∷ bound_pid to_pid ∷ []) f =
      returns (some (call from_pid to_pid))
  linkage_action call _ f = returns none

  abbrev pub exit_action :
      (EPid → EPid → MsgSeq → NodeCall) → List Bound → MsgSeq → Outcome (Option NodeCall)
  exit_action call (bound_pid from_pid ∷ bound_pid to_pid ∷ bound_atom reason ∷ []) f =
      returns (some (call from_pid to_pid reason))
  exit_action call _ f = returns none

  abbrev pub linkage_pattern : ℕ → Patterns
  linkage_pattern request =
      and_then (int_value request) (and_then pid_assign (and_then pid_assign none_left))

  abbrev pub exit_pattern : ℕ → Patterns
  exit_pattern request =
      and_then (int_value request)
        (and_then pid_assign (and_then pid_assign (and_then atom_assign none_left)))

  abbrev pub send_pattern : Patterns
  send_pattern =
      and_then (int_value ctrl_msg_send) (and_then atom_any (and_then pid_assign none_left))

  abbrev pub reg_send_pattern : Patterns
  reg_send_pattern =
      and_then (int_value ctrl_msg_reg_send)
        (and_then pid_assign (and_then atom_any (and_then atom_assign none_left)))

  abbrev pub send_handler : Handler
  send_handler = handle send_pattern send_action

  abbrev pub reg_send_handler : Handler
  reg_send_handler = handle reg_send_pattern reg_send_action

  abbrev pub link_handler : Handler
  link_handler = handle (linkage_pattern ctrl_msg_link) (linkage_action incoming_link)

  abbrev pub unlink_handler : Handler
  unlink_handler = handle (linkage_pattern ctrl_msg_unlink) (linkage_action incoming_unlink)

  abbrev pub exit_handler : Handler
  exit_handler = handle (exit_pattern ctrl_msg_exit) (exit_action incoming_exit)

  abbrev pub exit2_handler : Handler
  exit2_handler = handle (exit_pattern ctrl_msg_exit2) (exit_action incoming_exit2)

  -- `operation_dispatcher::dispatch` along the chain: each handler starts where the first one did.
  unfoldable pub run_chain : List Handler → MsgSeq → Outcome NodeCall
  run_chain [] f = throws
  run_chain (handler ∷ next) f =
      and_with (handler f)
        λ handled. elim handled [ none ↦ run_chain next f | some call ↦ returns call ]

  abbrev pub operations_chain : List Handler
  operations_chain =
      send_handler ∷ reg_send_handler ∷ link_handler ∷ unlink_handler ∷ exit_handler ∷ exit2_handler
      ∷ []

  unfoldable pub dispatch : MsgSeq → Outcome NodeCall
  unfolding parse_header run_chain
  dispatch msg = and_with (parse_header msg) λ first. run_chain operations_chain first
