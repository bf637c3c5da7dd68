-- ===== src/Rpc/Replies.antt =====
-- The replies that impl/rpc.cpp accepts.
use tinch_pp.Prelude.{◌≡◌, refl, ap, Bool, List, [], ◌∷◌, ◌++◌, arith, append-nil, bytes_eq, nat_eq}
use tinch_pp.Types.{MsgSeq}
use tinch_pp.Spirit.{Spirit}
use tinch_pp.Spirit.Laws.{Reads, Reads-bind, Reads-last}
use tinch_pp.Terms.RoundTrip.{small_tuple_head-Reads, atom_ext-Reads, FitsAtom}
use tinch_pp.Values.{
  Term, atom, e_tuple, nil, cons, Pattern, Patterns, and_then, none_left, atom_value, any_term,
  Bound, bound_bytes, count_terms, count_patterns, serialize, match, match_all,
}
use tinch_pp.Values.RoundTrip.{match_value-Reads, when_equal-Reads}
use tinch_pp.Mailbox.{message}
use tinch_pp.Wildcards.{any_match}
use tinch_pp.Wildcards.Matching.{Listless}
use tinch_pp.Wildcards.Takes.{any_match-serialize}
use tinch_pp.Rpc.{rex, reply_pattern, reply_part, bound_reply, receive_rpc_reply}

module _ (sp : Spirit) (char_is_signed : Bool) where
  any_match-Reads : (t : Term) → Listless t → Reads (any_match sp) (serialize sp t) (serialize sp t)
  any_match-Reads t h = record { at = λ rest. any_match-serialize sp t rest h }

  and_then-Reads :
      (p : Pattern) (ps : Patterns) {g g' : MsgSeq} {b bs : List Bound}
      → Reads (match sp char_is_signed p) g b
      → Reads (match_all sp char_is_signed ps) g' bs
      → Reads (match_all sp char_is_signed (and_then p ps)) (g ++ g') (b ++ bs)
  unfolding match
  and_then-Reads p ps {b = b} h k = Reads-bind _ h (Reads-last (λ bs. b ++ bs) k)

  none_left-Reads : Reads (match_all sp char_is_signed none_left) [] []
  unfolding match
  none_left-Reads = record { at = λ rest. refl }

  reply-Reads :
      (t : Term)
      → Listless t
      → Reads
          (match sp char_is_signed reply_pattern)
          (serialize sp (e_tuple (cons (atom rex) (cons t nil))))
          (bound_bytes (serialize sp t) ∷ [])
  unfolding match serialize count_patterns count_terms
  reply-Reads t h =
      let fits : FitsAtom rex = omega arith in
      Reads-bind _ (small_tuple_head-Reads sp {n = 2} (omega arith)) (
        when_equal-Reads {m = 2} {n = 2} refl (
          and_then-Reads (atom_value rex) (and_then any_term none_left)
            (match_value-Reads {a = rex} bytes_eq (atom_ext-Reads sp fits))
            (and_then-Reads any_term none_left
              (Reads-last (λ bytes. bound_bytes bytes ∷ []) (any_match-Reads t h))
              none_left-Reads)))

  -- From a reply with a term without lists whose values fit the format, a remote call returns exactly
  -- the bytes of that term.
  pub receive_rpc_reply-serialize :
      (t : Term)
      → Listless t
      → receive_rpc_reply sp char_is_signed
          (message (serialize sp (e_tuple (cons (atom rex) (cons t nil)))))
        ≡ reply_part (serialize sp t)
  unfolding receive_rpc_reply
  receive_rpc_reply-serialize t h = ap bound_reply (rw append-nil at ((reply-Reads t h).at []))
