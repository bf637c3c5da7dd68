-- ===== src/Lexer/Pieces.antt =====
-- A stream of messages that is fed to `msg_lexer` of impl/utils.cpp piece by piece, as the reads from
-- a socket deliver it.
use tinch_pp.Prelude.{
  ℕ, zero, suc, ◌+◌, ◌<◌, ◌≡◌, inl, inr, ◌∙◌, ap, sym, subst, List, [], ◌∷◌, ◌++◌, Option, none,
  some, length, take, drop, arith, append_assoc, append-nil, length-append, take-append_le,
  drop-append_le, Option-cases, take-append_length, drop-append_length, All,
}
use tinch_pp.Types.{MsgSeq}
use tinch_pp.Lexer.{Lexer, new_lexer, add}
use tinch_pp.Lexer.Cut.{behind, cut, cut-whole, handle-eq-cut}
use tinch_pp.Lexer.Chunks.{IsStable, Round, short, whole, message, round, cut-more_fuel, cut-append}
use tinch_pp.Lexer.Termination.{cut-enough, cut_prefix_none}

-- The bytes of a list of pieces, in order.
unfoldable pub concat : List MsgSeq → MsgSeq
concat [] = []
concat (s ∷ ss) = s ++ concat ss

module _ (read_msg_size : MsgSeq → Option ℕ) where
  -- One `add` for each piece.
  unfoldable pub add_all : Lexer → List MsgSeq → Option Lexer
  add_all l [] = some l
  add_all l (piece ∷ pieces) = elim (add read_msg_size l piece) [
    | none ↦ none
    | some l' ↦ add_all l' pieces
  ]

  cut-message_inv :
      (k n : ℕ) (s : MsgSeq) (ms : List MsgSeq) (r : MsgSeq)
      → read_msg_size s ≡ some n
      → n < length s
      → cut read_msg_size k s ≡ some (ms, r)
      → (ms' : List MsgSeq) × (cut read_msg_size k (drop n s) ≡ some (ms', r))
        × (ms ≡ take n s ∷ ms')
  unfolding cut
  cut-message_inv zero n s ms r e lt h = absurd (cc)
  cut-message_inv (suc k) n s ms r e lt h = elim (Option-cases (cut read_msg_size k (drop n s))) [
    | inl q ↦ absurd (ground arith)
    | inr ((ms', r'), q) ↦ (
      ms',
      cut-more_fuel read_msg_size k (suc k) (drop n s) ms' r (q ∙ ground arith) (omega arith),
      ground arith,
    )
  ]

  -- What is left of the stream behind the front that has been cut.
  abbrev Left : ℕ → MsgSeq → MsgSeq → List MsgSeq → List MsgSeq → MsgSeq → Type 0
  Left k r1 t ms ms1 r =
      (ms2 : List MsgSeq) × (cut read_msg_size k (r1 ++ t) ≡ some (ms2, r)) × (ms ≡ ms1 ++ ms2)

  split_whole :
      read_msg_size [] ≡ none
      → IsStable read_msg_size
      → (k : ℕ) (s t : MsgSeq) (ms : List MsgSeq) (r : MsgSeq) → read_msg_size s ≡ some (length s)
      → cut read_msg_size k (s ++ t) ≡ some (ms, r)
      → Left k [] t ms (s ∷ []) r
  split_whole nothing stable zero s [] ms r e w = absurd (unfold cut in cc w)
  split_whole nothing stable (suc k) s [] ms r e w =
      let once = cut-whole read_msg_size k s e in
      let w' : cut read_msg_size (suc k) s ≡ some (ms, r) = rw append-nil at w in
      ([], unfold cut in rw (nothing, cut) (ground arith), ground arith)
  split_whole nothing stable k s (x ∷ t) ms r e w =
      let (ms', c, em) =
        cut-message_inv k (length s) (s ++ (x ∷ t)) ms r (stable s (x ∷ t) (length s) e)
          (omega (arith, length-append s (x ∷ t))) w in
      (ms', rw drop-append_length at c, rw take-append_length at em)

  split-Round :
      IsStable read_msg_size
      → read_msg_size [] ≡ none
      → (f k : ℕ) (s t : MsgSeq) (ms ms1 : List MsgSeq) (r r1 : MsgSeq)
      → ((s' : MsgSeq) (ns ns1 : List MsgSeq)
          → cut read_msg_size f s' ≡ some (ns1, r1)
          → cut read_msg_size k (s' ++ t) ≡ some (ns, r)
          → Left k r1 t ns ns1 r)
      → cut read_msg_size k (s ++ t) ≡ some (ms, r)
      → Round read_msg_size f s ms1 r1
      → Left k r1 t ms ms1 r
  split-Round stable nothing f k s t ms ms1 r r1 ih w (short all em er) = (ms, rw er w, rw em)
  split-Round stable nothing f k s t ms ms1 r r1 ih w (whole e em er) =
      rw (em, er) (split_whole nothing stable k s t ms r e w)
  split-Round stable nothing f k s t ms ms1 r r1 ih w (message n ms' e lt c em) =
      let (ms'', d, em') =
        cut-message_inv k n (s ++ t) ms r (stable s t n e) (omega (arith, length-append s t)) w in
      let (ms2, q, e2) = ih (drop n s) ms'' ms' c (rw (drop-append_le n s t (omega arith)) at d) in
      (ms2, q, cc (em, em', e2, take-append_le n s t (omega arith)))

  -- What is cut from a stream is what is cut from its front, and then from the rest of that with the
  -- end of the stream behind it.
  cut-split :
      IsStable read_msg_size
      → read_msg_size [] ≡ none
      → (f k : ℕ) (s t : MsgSeq) (ms ms1 : List MsgSeq) (r r1 : MsgSeq)
      → cut read_msg_size f s ≡ some (ms1, r1)
      → cut read_msg_size k (s ++ t) ≡ some (ms, r)
      → Left k r1 t ms ms1 r
  cut-split stable nothing zero k s t ms ms1 r r1 h w = absurd (unfold cut in cc h)
  cut-split stable nothing (suc f) k s t ms ms1 r r1 h w =
      split-Round stable nothing f k s t ms ms1 r r1
        (λ s' ns ns1 c d. cut-split stable nothing f k s' t ns ns1 r r1 c d) w
        (round read_msg_size f s ms1 r1 h)

  -- A rest is cut no further.
  cut-rest :
      read_msg_size [] ≡ none
      → (f k : ℕ) (s : MsgSeq) (ms : List MsgSeq) (r : MsgSeq)
      → cut read_msg_size f s ≡ some (ms, r)
      → cut read_msg_size (suc k) r ≡ some ([], r)
  cut-rest nothing zero k s ms r h = absurd (unfold cut in cc h)
  cut-rest nothing (suc f) k s ms r h =
      go (λ s' ms' c. cut-rest nothing f k s' ms' r c) (round read_msg_size f s ms r h)
    where
      go :
          ((s' : MsgSeq) (ms' : List MsgSeq)
            → cut read_msg_size f s' ≡ some (ms', r)
            → cut read_msg_size (suc k) r ≡ some ([], r))
          → Round read_msg_size f s ms r
          → cut read_msg_size (suc k) r ≡ some ([], r)
      go ih (short all em er) = rw er (all k)
      go ih (whole e em er) = rw er (unfold cut in rw (nothing, cut))
      go ih (message n ms' e lt c em) = ih (drop n s) ms' c

  pub add-eq-cut :
      (l : Lexer) (piece : MsgSeq)
      → add read_msg_size l piece
        ≡ behind l.msgs
            (cut read_msg_size (suc (length (l.incomplete ++ piece))) (l.incomplete ++ piece))
  unfolding add
  add-eq-cut l piece =
      handle-eq-cut read_msg_size (suc (length (l.incomplete ++ piece)))
        (record l { incomplete = l.incomplete ++ piece })

  add_all-cons :
      (l l' : Lexer) (piece : MsgSeq) (pieces : List MsgSeq)
      → add read_msg_size l piece ≡ some l'
      → add_all l (piece ∷ pieces) ≡ add_all l' pieces
  unfolding add_all
  add_all-cons l l' piece pieces h = rw (add_all, h)

  -- Feeding the pieces one by one cuts the stream as cutting it all at once does.
  add_all-eq-cut :
      IsStable read_msg_size
      → read_msg_size [] ≡ none
      → (k : ℕ) (l : Lexer) (pieces ms : List MsgSeq) (r : MsgSeq)
      → cut read_msg_size 1 l.incomplete ≡ some ([], l.incomplete)
      → cut read_msg_size k (l.incomplete ++ concat pieces) ≡ some (ms, r)
      → add_all l pieces ≡ some (record { incomplete = r; msgs = l.msgs ++ ms })
  unfolding add_all concat
  add_all-eq-cut stable nothing k l [] ms r h w =
      let n = suc (length l.incomplete) in
      let w' : cut read_msg_size k l.incomplete ≡ some (ms, r) = rw append-nil at w in
      let a = cut-enough read_msg_size k n l.incomplete ms r w' (omega arith) in
      let b = cut-more_fuel read_msg_size 1 n l.incomplete [] l.incomplete h (omega arith) in
      ground (arith, append-nil l.msgs)
  add_all-eq-cut stable nothing k l (p ∷ ps) ms r h w =
      let s : MsgSeq = l.incomplete ++ p in
      let w' : cut read_msg_size k (s ++ concat ps) ≡ some (ms, r) = rw append_assoc w in
      elim (Option-cases (cut read_msg_size (suc (length s)) s)) [
        | inl q ↦ absurd (
            cc (
              cut_prefix_none read_msg_size stable (suc (length s)) s (concat ps) (omega arith) q k,
              w',
            ))
        | inr ((ms1, r1), q) ↦
            let (ms2, c, e) =
              cut-split stable nothing (suc (length s)) k s (concat ps) ms ms1 r r1 q w' in
            let l' : Lexer = record { incomplete = r1; msgs = l.msgs ++ ms1 } in
            add_all-cons l l' p ps (add-eq-cut l p ∙ ap (behind l.msgs) q)
            ∙ add_all-eq-cut stable nothing k l' ps ms2 r
                (cut-rest nothing (suc (length s)) 0 s ms1 r1 q) c
            ∙ ap (λ x. some (record { incomplete = r; msgs = x }))
                (append_assoc l.msgs ms1 ms2 ∙ ap (λ x. l.msgs ++ x) (sym e))
      ]

  -- A complete message, and the front of one.
  abbrev pub IsFrame : MsgSeq → Type 0
  IsFrame m = read_msg_size m ≡ some (length m)

  abbrev pub IsPartial : MsgSeq → Type 0
  IsPartial s = (n : ℕ) → read_msg_size s ≡ some n → length s < n

  cut-partial : (s : MsgSeq) → IsPartial s → cut read_msg_size 1 s ≡ some ([], s)
  unfolding cut
  cut-partial s h = elim (Option-cases (read_msg_size s)) [
    | inl e ↦ rw (e, cut)
    | inr (n, e) ↦ rw (e, cut) (ground (arith, h n e))
  ]

  cut-frames :
      IsStable read_msg_size
      → read_msg_size [] ≡ none
      → (frames : List MsgSeq) (tail : MsgSeq) → All IsFrame frames
      → IsPartial tail
      → cut read_msg_size (suc (length frames)) (concat frames ++ tail) ≡ some (frames, tail)
  unfolding concat
  cut-frames stable nothing [] tail h p = cut-partial tail p
  cut-frames stable nothing (m ∷ frames) tail h p = rw append_assoc (
      subst (λ x. cut read_msg_size x (m ++ (concat frames ++ tail)) ≡ some (m ∷ frames, tail))
        {x = 1 + suc (length frames)} (omega arith)
        (cut-append read_msg_size stable nothing 1 (suc (length frames)) m (concat frames ++ tail)
          (m ∷ []) frames [] tail (cut-whole read_msg_size 0 m h.0)
          (cut-frames stable nothing frames tail h.1 p)))

  -- However a stream of complete messages, with the front of a last one behind them, is split into
  -- pieces, the lexer hands out exactly those messages in order and keeps that front.
  pub add_all-frames :
      IsStable read_msg_size
      → read_msg_size [] ≡ none
      → (frames pieces : List MsgSeq) (tail : MsgSeq) → All IsFrame frames
      → IsPartial tail
      → concat pieces ≡ concat frames ++ tail
      → add_all new_lexer pieces ≡ some (record { incomplete = tail; msgs = frames })
  add_all-frames stable nothing frames pieces tail h p e =
      add_all-eq-cut stable nothing (suc (length frames)) new_lexer pieces frames tail
        (unfold cut in rw (nothing, cut)) (rw e (cut-frames stable nothing frames tail h p))
