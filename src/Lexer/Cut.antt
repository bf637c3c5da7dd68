-- ===== src/Lexer/Cut.antt =====
-- A reference for `msg_lexer` of impl/utils.cpp: a function that cuts a stream into messages.
use tinch_pp.Prelude.{
  ℕ, zero, suc, ◌<◌, ◌≡◌, inl, inr, refl, List, [], ◌∷◌, ◌++◌, Option, none, some, ltb, nat_beq,
  if◌then◌else◌, length, take, drop, arith, append_assoc, append-nil, Option-cases,
}
use tinch_pp.Types.{MsgSeq}
use tinch_pp.Lexer.{Lexer, extract_msg, strip_incomplete, handle_new_condition}

abbrev pub Cut : Type 0
Cut = Option (List MsgSeq × MsgSeq)

abbrev pub in_front : MsgSeq → Cut → Cut
in_front m none = none
in_front m (some (ms, r)) = some (m ∷ ms, r)

-- The lexer that a list of messages and a rest stand for.
abbrev pub behind : List MsgSeq → Cut → Option Lexer
behind ms none = none
behind ms (some (ns, r)) = some (record { incomplete = r; msgs = ms ++ ns })

behind-in_front :
    (ms : List MsgSeq) (m : MsgSeq) (c : Cut) → behind (ms ++ (m ∷ [])) c ≡ behind ms (in_front m c)
behind-in_front ms m none = refl
behind-in_front ms m (some (ns, r)) = rw append_assoc

module _ (read_msg_size : MsgSeq → Option ℕ) where
  -- The messages at the front of a stream, and what is left: the reference for the lexer.
  unfoldable pub cut : ℕ → MsgSeq → Cut
  cut zero s = none
  cut (suc fuel) s = elim (read_msg_size s) [
    | none ↦ some ([], s)
    | some n ↦
        let rest = in_front (take n s) (cut fuel (drop n s)) in
        if nat_beq (length s) n
        then some (s ∷ [], [])
        else (if ltb n (length s) then rest else some ([], s))
  ]

  pub handle-eq-cut :
      (f : ℕ) (l : Lexer)
      → handle_new_condition read_msg_size f l ≡ behind l.msgs (cut f l.incomplete)
  unfolding handle_new_condition cut
  handle-eq-cut zero l = refl
  handle-eq-cut (suc f) l = elim (Option-cases (read_msg_size l.incomplete)) [
    | inl e ↦ ground (arith, append-nil l.msgs)
    | inr (n, e) ↦ ground (
      arith,
      handle-eq-cut f (strip_incomplete (extract_msg l n) n),
      behind-in_front l.msgs (take n l.incomplete) (cut f (drop n l.incomplete)),
      append-nil l.msgs,
    )
  ]

  pub cut-whole :
      (f : ℕ) (s : MsgSeq) → read_msg_size s ≡ some (length s) → cut (suc f) s ≡ some (s ∷ [], [])
  unfolding cut
  cut-whole f s e = rw (e, cut) (ground arith)

  pub cut-message :
      (f n : ℕ) (s : MsgSeq) (ms : List MsgSeq) (r : MsgSeq)
      → read_msg_size s ≡ some n
      → n < length s
      → cut f (drop n s) ≡ some (ms, r)
      → cut (suc f) s ≡ some (take n s ∷ ms, r)
  unfolding cut
  cut-message f n s ms r e lt h = rw (e, cut, h) (ground arith)
