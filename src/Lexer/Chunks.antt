-- ===== src/Lexer/Chunks.antt =====
-- How the messages that `msg_lexer` cuts depend on the pieces in which the stream arrives.
use tinch_pp.Prelude.{
  ℕ, zero, suc, ◌+◌, ◌≤◌, ◌<◌, ◌≡◌, inl, inr, ◌∙◌, refl, ap, subst, false, List, [], ◌∷◌, ◌++◌,
  Option, none, some, ltb, nat_beq, if◌then◌else◌, length, take, drop, arith, append-nil,
  length-append, take-append_le, drop-append_le, Option-cases, Bool-cases, take-append_length,
  drop-append_length,
}
use tinch_pp.Types.{MsgSeq}
use tinch_pp.Lexer.Cut.{Cut, in_front, cut, cut-whole, cut-message}

module _ (read_msg_size : MsgSeq → Option ℕ) where
  -- What one round has found, if the recursion ends.
  pub data Round (f : ℕ) (s : MsgSeq) (ms : List MsgSeq) (r : MsgSeq) : Type 0 where
    short :
        ((g : ℕ) → cut read_msg_size (suc g) s ≡ some ([], s)) → ms ≡ [] → r ≡ s → Round f s ms r
    whole : read_msg_size s ≡ some (length s) → ms ≡ s ∷ [] → r ≡ [] → Round f s ms r
    message :
        (n : ℕ) (ms' : List MsgSeq)
        → read_msg_size s ≡ some n
        → n < length s
        → cut read_msg_size f (drop n s) ≡ some (ms', r)
        → ms ≡ take n s ∷ ms'
        → Round f s ms r

  round_short :
      (g n : ℕ) (s : MsgSeq)
      → read_msg_size s ≡ some n
      → nat_beq (length s) n ≡ false
      → ltb n (length s) ≡ false
      → cut read_msg_size (suc g) s ≡ some ([], s)
  unfolding cut
  round_short g n s e part ge = rw (e, cut, part, ge)

  Round-sized :
      (f n : ℕ) (s : MsgSeq) (c : Cut) (ms : List MsgSeq) (r : MsgSeq)
      → read_msg_size s ≡ some n
      → cut read_msg_size f (drop n s) ≡ c
      → (if nat_beq (length s) n
          then some (s ∷ [], [])
          else (if ltb n (length s) then in_front (take n s) c else some ([], s)))
        ≡ some (ms, r)
      → Round f s ms r
  Round-sized f n s c ms r e d h = elim (Bool-cases (nat_beq (length s) n)) [
    | inl all ↦ whole (e ∙ ap some (ground arith)) (ground arith) (ground arith)
    | inr part ↦ elim (Bool-cases (ltb n (length s))) [
      | inl lt ↦ elim (Option-cases c) [
        | inl q ↦ absurd (ground arith)
        | inr ((ms', r'), q) ↦ message n ms' e (ground arith) (d ∙ ground arith) (ground arith)
      ]
      | inr ge ↦ short (λ g. round_short g n s e part ge) (ground arith) (ground arith)
    ]
  ]

  pub round :
      (f : ℕ) (s : MsgSeq) (ms : List MsgSeq) (r : MsgSeq)
      → cut read_msg_size (suc f) s ≡ some (ms, r)
      → Round f s ms r
  unfolding cut
  round f s ms r h = elim (Option-cases (read_msg_size s)) [
    | inl e ↦ short (λ g. rw (e, cut)) (ground arith) (ground arith)
    | inr (n, e) ↦ Round-sized f n s (cut read_msg_size f (drop n s)) ms r e refl (rw (e, cut) at h)
  ]

  cut-more_fuel-Round :
      (f g : ℕ) (s : MsgSeq) (ms : List MsgSeq) (r : MsgSeq)
      → ((s' : MsgSeq) (ms' : List MsgSeq)
          → cut read_msg_size f s' ≡ some (ms', r)
          → cut read_msg_size g s' ≡ some (ms', r))
      → Round f s ms r
      → cut read_msg_size (suc g) s ≡ some (ms, r)
  unfolding cut
  cut-more_fuel-Round f g s ms r ih (short all em er) = rw (em, er) (all g)
  cut-more_fuel-Round f g s ms r ih (whole e em er) = rw (em, er) (cut-whole read_msg_size g s e)
  cut-more_fuel-Round f g s ms r ih (message n ms' e lt c em) =
      rw em (cut-message read_msg_size g n s ms' r e lt (ih (drop n s) ms' c))

  -- The fuel does not matter once it is enough.
  pub cut-more_fuel :
      (f g : ℕ) (s : MsgSeq) (ms : List MsgSeq) (r : MsgSeq)
      → cut read_msg_size f s ≡ some (ms, r)
      → f ≤ g
      → cut read_msg_size g s ≡ some (ms, r)
  cut-more_fuel zero g s ms r h k = unfold cut in cc h
  cut-more_fuel (suc f) zero s ms r h k = absurd (omega arith)
  cut-more_fuel (suc f) (suc g) s ms r h k =
      cut-more_fuel-Round f g s ms r (λ s' ms' c. cut-more_fuel f g s' ms' r c (omega arith))
        (round f s ms r h)

  -- The length that is read does not change when more bytes arrive.
  abbrev pub IsStable : Type 0
  IsStable =
      (s more : MsgSeq) (n : ℕ) → read_msg_size s ≡ some n → read_msg_size (s ++ more) ≡ some n

  pub cut-nil :
      read_msg_size [] ≡ none
      → (g : ℕ) (ms : List MsgSeq) (r : MsgSeq) → cut read_msg_size g [] ≡ some (ms, r)
      → (ms ≡ []) × (r ≡ [])
  unfolding cut
  cut-nil nothing zero ms r h = cc
  cut-nil nothing (suc g) ms r h = ground arith

  cut-append_whole :
      IsStable
      → read_msg_size [] ≡ none
      → (f g : ℕ) (s t : MsgSeq) (ns : List MsgSeq) (r' : MsgSeq)
      → read_msg_size s ≡ some (length s)
      → cut read_msg_size g t ≡ some (ns, r')
      → cut read_msg_size (suc (f + g)) (s ++ t) ≡ some (s ∷ ns, r')
  cut-append_whole stable nothing f g s [] ns r' e k =
      let (en, er) = cut-nil nothing g ns r' k in
      rw (append-nil s, en, er) (cut-whole read_msg_size (f + g) s e)
  cut-append_whole stable nothing f g s (x ∷ t) ns r' e k =
      subst (λ m. cut read_msg_size (suc (f + g)) (s ++ (x ∷ t)) ≡ some (m ∷ ns, r'))
        (take-append_length s (x ∷ t))
        (cut-message read_msg_size (f + g) (length s) (s ++ (x ∷ t)) ns r'
          (stable s (x ∷ t) (length s) e) (omega (arith, length-append s (x ∷ t)))
          (rw (drop-append_length s (x ∷ t))
            (cut-more_fuel g (f + g) (x ∷ t) ns r' k (omega arith))))

  cut-append-Round :
      IsStable
      → read_msg_size [] ≡ none
      → (f g : ℕ) (s t : MsgSeq) (ms ns : List MsgSeq) (r r' : MsgSeq)
      → ((s' : MsgSeq) (ms' : List MsgSeq)
          → cut read_msg_size f s' ≡ some (ms', r)
          → cut read_msg_size (f + g) (s' ++ t) ≡ some (ms' ++ ns, r'))
      → cut read_msg_size g (r ++ t) ≡ some (ns, r')
      → Round f s ms r
      → cut read_msg_size (suc (f + g)) (s ++ t) ≡ some (ms ++ ns, r')
  cut-append-Round stable nothing f g s t ms ns r r' ih k (short all em er) =
      rw em (cut-more_fuel g (suc (f + g)) (s ++ t) ns r' (rw er at k) (omega arith))
  cut-append-Round stable nothing f g s t ms ns r r' ih k (whole e em er) =
      rw em (cut-append_whole stable nothing f g s t ns r' e (rw er at k))
  cut-append-Round stable nothing f g s t ms ns r r' ih k (message n ms' e lt c em) = rw em (
      subst (λ m. cut read_msg_size (suc (f + g)) (s ++ t) ≡ some (m ∷ (ms' ++ ns), r'))
        (take-append_le n s t (omega arith))
        (cut-message read_msg_size (f + g) n (s ++ t) (ms' ++ ns) r' (stable s t n e)
          (omega (arith, length-append s t))
          (rw (drop-append_le n s t (omega arith)) (ih (drop n s) ms' c))))

  -- Cutting a stream and then what was left with more bytes behind it gives the messages and the
  -- rest of cutting it all at once.
  pub cut-append :
      IsStable
      → read_msg_size [] ≡ none
      → (f g : ℕ) (s t : MsgSeq) (ms ns : List MsgSeq) (r r' : MsgSeq)
      → cut read_msg_size f s ≡ some (ms, r)
      → cut read_msg_size g (r ++ t) ≡ some (ns, r')
      → cut read_msg_size (f + g) (s ++ t) ≡ some (ms ++ ns, r')
  cut-append stable nothing zero g s t ms ns r r' h k = unfold cut in cc h
  cut-append stable nothing (suc f) g s t ms ns r r' h k =
      subst (λ x. cut read_msg_size x (s ++ t) ≡ some (ms ++ ns, r')) {x = suc (f + g)}
        (omega arith)
        (cut-append-Round stable nothing f g s t ms ns r r'
          (λ s' ms' c. cut-append stable nothing f g s' t ms' ns r r' c k) k (round f s ms r h))
