-- ===== src/Lexer/Termination.antt =====
-- When the recursion of `handle_new_condition` of impl/utils.cpp ends, and a stream that is fed to
-- the lexer piece by piece.
use tinch_pp.Prelude.{
  ℕ, zero, suc, ◌+◌, ◌<◌, ◌≡◌, inl, inr, refl, List, ◌++◌, Option, none, some, length, drop, arith,
  length-append, length-drop, drop-append_le, Option-cases,
}
use tinch_pp.Types.{MsgSeq}
use tinch_pp.Lexer.Cut.{cut, cut-whole, cut-message}
use tinch_pp.Lexer.Chunks.{IsStable, Round, short, whole, message, round}

module _ (read_msg_size : MsgSeq → Option ℕ) where
  -- A message of no bytes in front of some bytes: nothing is taken away, and the recursion goes on
  -- for ever.
  pub cut_zero_size :
      (f : ℕ) (s : MsgSeq) → read_msg_size s ≡ some 0 → 0 < length s → cut read_msg_size f s ≡ none
  unfolding cut
  cut_zero_size zero s e h = refl
  cut_zero_size (suc f) s e h = rw (e, cut) (ground (arith, cut_zero_size f s e h))

  cut-enough-Round :
      (f k : ℕ) (s : MsgSeq) (ms : List MsgSeq) (r : MsgSeq)
      → length s < f
      → ((g : ℕ) (s' : MsgSeq) (ms' : List MsgSeq)
          → cut read_msg_size k s' ≡ some (ms', r)
          → length s' < g
          → cut read_msg_size g s' ≡ some (ms', r))
      → Round read_msg_size k s ms r
      → cut read_msg_size f s ≡ some (ms, r)
  cut-enough-Round zero k s ms r h ih d = absurd (omega arith)
  cut-enough-Round (suc f) k s ms r h ih (short all em er) = rw (em, er) (all f)
  cut-enough-Round (suc f) k s ms r h ih (whole e em er) =
      rw (em, er) (cut-whole read_msg_size f s e)
  cut-enough-Round (suc f) k s ms r h ih (message zero ms' e lt c em) =
      absurd (cc (cut_zero_size k s e lt, c))
  cut-enough-Round (suc f) k s ms r h ih (message (suc n) ms' e lt c em) = rw em (
      cut-message read_msg_size f (suc n) s ms' r e lt
        (ih f (drop (suc n) s) ms' c (omega (arith, length-drop (suc n) s))))

  -- One round more than there are bytes is enough, if any number of rounds is.
  pub cut-enough :
      (k f : ℕ) (s : MsgSeq) (ms : List MsgSeq) (r : MsgSeq)
      → cut read_msg_size k s ≡ some (ms, r)
      → length s < f
      → cut read_msg_size f s ≡ some (ms, r)
  cut-enough zero f s ms r h lt = unfold cut in cc h
  cut-enough (suc k) f s ms r h lt =
      cut-enough-Round f k s ms r lt (λ g s' ms' c l. cut-enough k g s' ms' r c l)
        (round read_msg_size k s ms r h)

  round_none :
      (f : ℕ) (s : MsgSeq)
      → cut read_msg_size (suc f) s ≡ none
      → (n : ℕ) × (read_msg_size s ≡ some n)
        × (n < length s)
        × (cut read_msg_size f (drop n s) ≡ none)
  unfolding cut
  round_none f s h = elim (Option-cases (read_msg_size s)) [
    | inl e ↦ absurd (ground arith)
    | inr (n, e) ↦ elim (Option-cases (cut read_msg_size f (drop n s))) [
      | inl q ↦ (n, e, ground arith, q)
      | inr (c, q) ↦ absurd (ground arith)
    ]
  ]

  cut-none_message :
      (f n : ℕ) (s : MsgSeq)
      → read_msg_size s ≡ some n
      → n < length s
      → cut read_msg_size f (drop n s) ≡ none
      → cut read_msg_size (suc f) s ≡ none
  unfolding cut
  cut-none_message f n s e lt h = rw (e, cut, h) (ground arith)

  -- If the recursion does not end on the front of a stream, it does not end on the stream.
  pub cut_prefix_none :
      IsStable read_msg_size
      → (f : ℕ) (s t : MsgSeq) → length s < f
      → cut read_msg_size f s ≡ none
      → (k : ℕ) → cut read_msg_size k (s ++ t) ≡ none
  cut_prefix_none stable zero s t lt h k = absurd (omega arith)
  cut_prefix_none stable (suc f) s t lt h zero = unfold cut in refl
  cut_prefix_none stable (suc f) s t lt h (suc k) =
      go (λ s' l q. cut_prefix_none stable f s' t l q k) (round_none f s h)
    where
      longer : length (s ++ t) ≡ length s + length t
      longer = length-append s t

      go :
          ((s' : MsgSeq)
            → length s' < f
            → cut read_msg_size f s' ≡ none
            → cut read_msg_size k (s' ++ t) ≡ none)
          → (n : ℕ) × (read_msg_size s ≡ some n)
            × (n < length s)
            × (cut read_msg_size f (drop n s) ≡ none)
          → cut read_msg_size (suc k) (s ++ t) ≡ none
      go ih (zero, e, l, q) =
          cut_zero_size (suc k) (s ++ t) (stable s t 0 e) (omega (arith, longer))
      go ih (suc n, e, l, q) =
          cut-none_message k (suc n) (s ++ t) (stable s t (suc n) e) (omega (arith, longer)) (
            rw (drop-append_le (suc n) s t (omega arith))
              (ih (drop (suc n) s) (omega (arith, length-drop (suc n) s)) q))
