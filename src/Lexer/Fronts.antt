-- ===== src/Lexer/Fronts.antt =====
-- The lexer of impl/utils.cpp, when one message comes in several pieces.
use tinch_pp.Prelude.{
  ℕ, suc, ◌<◌, ◌≡◌, ◌∙◌, ap, [], ◌∷◌, ◌++◌, Option, some, inl, inr, Option-cases, length,
  length-append, arith,
}
use tinch_pp.Types.{MsgSeq}
use tinch_pp.Lexer.{add}
use tinch_pp.Lexer.Cut.{cut, cut-whole, behind}
use tinch_pp.Lexer.Chunks.{IsStable}
use tinch_pp.Lexer.Pieces.{IsFrame, IsPartial, add-eq-cut}

module _ (read_msg_size : MsgSeq → Option ℕ) where
  -- The front of a message is no message yet.
  pub front-IsPartial :
      IsStable read_msg_size
      → (s t : MsgSeq) → IsFrame read_msg_size (s ++ t)
      → 0 < length t
      → IsPartial read_msg_size s
  front-IsPartial stable s t f l n e =
      let q : n ≡ length (s ++ t) = ground (arith, stable s t n e, f) in
      omega (arith, q, length-append s t, l)

  cut-front :
      (k : ℕ) (s : MsgSeq) → IsPartial read_msg_size s → cut read_msg_size (suc k) s ≡ some ([], s)
  unfolding cut
  cut-front k s h = elim (Option-cases (read_msg_size s)) [
    | inl e ↦ rw (e, cut)
    | inr (n, e) ↦ rw (e, cut) (ground (arith, h n e))
  ]

  -- A piece that does not complete the message is kept.
  pub add-front :
      (s piece : MsgSeq)
      → IsPartial read_msg_size (s ++ piece)
      → add read_msg_size (record { incomplete = s; msgs = [] }) piece
        ≡ some (record { incomplete = s ++ piece; msgs = [] })
  add-front s piece h =
      add-eq-cut read_msg_size (record { incomplete = s; msgs = [] }) piece
      ∙ ap (behind []) (cut-front (length (s ++ piece)) (s ++ piece) h)

  -- A piece that completes it hands it out.
  pub add-completes :
      (s piece : MsgSeq)
      → IsFrame read_msg_size (s ++ piece)
      → add read_msg_size (record { incomplete = s; msgs = [] }) piece
        ≡ some (record { incomplete = []; msgs = (s ++ piece) ∷ [] })
  add-completes s piece h =
      add-eq-cut read_msg_size (record { incomplete = s; msgs = [] }) piece
      ∙ ap (behind []) (cut-whole read_msg_size (length (s ++ piece)) (s ++ piece) h)
