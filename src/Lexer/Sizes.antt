-- ===== src/Lexer/Sizes.antt =====
-- The two lexers of impl/utils.cpp: for the handshake and for connected nodes.
use tinch_pp.Prelude.{
  ℕ, ◌-◌, ◌^◌, ◌<◌, ◌≡◌, ◌∙◌, ap, List, [], ◌∷◌, ◌++◌, Option, none, some, length, arith, All, map,
}
use tinch_pp.Types.{MsgSeq}
use tinch_pp.Spirit.{Spirit}
use tinch_pp.Spirit.Laws.{big_word-big_word_g, big_dword-big_dword_g}
use tinch_pp.Lexer.{new_lexer, handle_new_condition, read_handshake_size, read_connected_size}
use tinch_pp.Lexer.Cut.{handle-eq-cut, behind}
use tinch_pp.Lexer.Chunks.{IsStable}
use tinch_pp.Lexer.Termination.{cut_zero_size}
use tinch_pp.Lexer.Pieces.{add_all, concat, IsFrame, IsPartial, add_all-frames}

module _ (sp : Spirit) where
  pub handshake-IsStable : IsStable (read_handshake_size sp)
  unfolding read_handshake_size
  handshake-IsStable [] more n e = cc (sp.big_word-short [] (omega arith))
  handshake-IsStable (a ∷ []) more n e = cc (sp.big_word-short (a ∷ []) (omega arith))
  handshake-IsStable (a ∷ b ∷ s) more n e =
      ground (arith, sp.big_word-cons a b s, sp.big_word-cons a b (s ++ more))

  pub connected-IsStable : IsStable (read_connected_size sp)
  unfolding read_connected_size
  connected-IsStable [] more n e = ground (arith, sp.big_dword-short [] (omega arith))
  connected-IsStable (a ∷ []) more n e = ground (arith, sp.big_dword-short (a ∷ []) (omega arith))
  connected-IsStable (a ∷ b ∷ []) more n e =
      ground (arith, sp.big_dword-short (a ∷ b ∷ []) (omega arith))
  connected-IsStable (a ∷ b ∷ c ∷ []) more n e =
      ground (arith, sp.big_dword-short (a ∷ b ∷ c ∷ []) (omega arith))
  connected-IsStable (a ∷ b ∷ c ∷ d ∷ s) more n e =
      ground (arith, sp.big_dword-cons a b c d s, sp.big_dword-cons a b c d (s ++ more))

  pub read_handshake_size-nil : read_handshake_size sp [] ≡ none
  unfolding read_handshake_size
  read_handshake_size-nil = ground (arith, sp.big_word-short [] (omega arith))

  pub read_connected_size-nil : read_connected_size sp [] ≡ none
  unfolding read_connected_size
  read_connected_size-nil = ground (arith, sp.big_dword-short [] (omega arith))

  -- A message between connected nodes: a 32-bit length, and as many bytes.
  unfoldable pub connected_frame : MsgSeq → MsgSeq
  connected_frame body = sp.big_dword_g (length body) ++ body

  -- A message of the handshake: a 16-bit length, and as many bytes.
  unfoldable pub handshake_frame : MsgSeq → MsgSeq
  handshake_frame body = sp.big_word_g (length body) ++ body

  pub connected_frame-IsFrame :
      (body : MsgSeq)
      → length body < 2 ^ 32 - 4
      → IsFrame (read_connected_size sp) (connected_frame body)
  unfolding read_connected_size connected_frame
  connected_frame-IsFrame body h =
      rw
        (
          read_connected_size,
          big_dword-big_dword_g sp (length body) body (omega arith),
          sp.big_dword_g_lem (length body),
        )
        (ap some (omega arith))

  pub handshake_frame-IsFrame :
      (body : MsgSeq)
      → length body < 2 ^ 16
      → IsFrame (read_handshake_size sp) (handshake_frame body)
  unfolding read_handshake_size handshake_frame
  handshake_frame-IsFrame body h =
      rw
        (
          read_handshake_size,
          big_word-big_word_g sp (length body) body h,
          sp.big_word_g_lem (length body),
        )
        (ap some (omega arith))

  all_frames :
      (read : MsgSeq → Option ℕ) (frame : MsgSeq → MsgSeq) (limit : ℕ)
      → ((body : MsgSeq) → length body < limit → IsFrame read (frame body))
      → (bodies : List MsgSeq) → All (λ b. length b < limit) bodies
      → All (IsFrame read) (map frame bodies)
  all_frames read frame limit f [] h = tt
  all_frames read frame limit f (b ∷ bodies) h = (f b h.0, all_frames read frame limit f bodies h.1)

  -- Between connected nodes: from a stream of messages with bodies of fewer than 2 ^ 32 - 4 bytes,
  -- split into pieces anywhere, with the front of a further message behind them, the lexer returns
  -- with exactly those messages, in order, and that front.
  pub connected_reassembles :
      (bodies pieces : List MsgSeq) (tail : MsgSeq)
      → All (λ b. length b < 2 ^ 32 - 4) bodies
      → IsPartial (read_connected_size sp) tail
      → concat pieces ≡ concat (map connected_frame bodies) ++ tail
      → add_all (read_connected_size sp) new_lexer pieces
        ≡ some (record { incomplete = tail; msgs = map connected_frame bodies })
  connected_reassembles bodies pieces tail h p e =
      add_all-frames (read_connected_size sp) connected-IsStable read_connected_size-nil
        (map connected_frame bodies) pieces tail
        (all_frames (read_connected_size sp) connected_frame (2 ^ 32 - 4) connected_frame-IsFrame
          bodies h)
        p e

  -- During the handshake: from a stream of messages with bodies of fewer than 2 ^ 16 bytes, split into
  -- pieces anywhere, with the front of a further message behind them, the lexer returns with exactly
  -- those messages, in order, and that front.
  pub handshake_reassembles :
      (bodies pieces : List MsgSeq) (tail : MsgSeq)
      → All (λ b. length b < 2 ^ 16) bodies
      → IsPartial (read_handshake_size sp) tail
      → concat pieces ≡ concat (map handshake_frame bodies) ++ tail
      → add_all (read_handshake_size sp) new_lexer pieces
        ≡ some (record { incomplete = tail; msgs = map handshake_frame bodies })
  handshake_reassembles bodies pieces tail h p e =
      add_all-frames (read_handshake_size sp) handshake-IsStable read_handshake_size-nil
        (map handshake_frame bodies) pieces tail
        (all_frames (read_handshake_size sp) handshake_frame (2 ^ 16) handshake_frame-IsFrame bodies
          h)
        p e

  -- A length field of 2 ^ 32 - 4: the size of the message wraps to 0, and the recursion of the lexer
  -- does not end for any number of rounds, whatever follows the field.
  pub connected_never_ends :
      (fuel : ℕ) (body : MsgSeq) (msgs : List MsgSeq)
      → handle_new_condition
          (read_connected_size sp)
          fuel
          (record { incomplete = sp.big_dword_g (2 ^ 32 - 4) ++ body; msgs = msgs })
        ≡ none
  connected_never_ends fuel body msgs =
      let s : MsgSeq = sp.big_dword_g (2 ^ 32 - 4) ++ body in
      handle-eq-cut (read_connected_size sp) fuel (record { incomplete = s; msgs = msgs })
      ∙ ap (behind msgs) (cut_zero_size (read_connected_size sp) fuel s wrapped long)
    where
      wrapped : read_connected_size sp (sp.big_dword_g (2 ^ 32 - 4) ++ body) ≡ some 0
      wrapped =
          unfold read_connected_size in
          rw (read_connected_size, big_dword-big_dword_g sp (2 ^ 32 - 4) body (omega arith))

      long : 0 < length (sp.big_dword_g (2 ^ 32 - 4) ++ body)
      long = rw (sp.big_dword_g_lem (2 ^ 32 - 4)) (omega arith)
