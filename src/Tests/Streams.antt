-- ===== src/Tests/Streams.antt =====
-- Streams that are cut into messages (impl/utils.cpp).
use tinch_pp.Prelude.{◌≡◌, refl, arith, [], ◌∷◌, none, some}
use tinch_pp.Types.{MsgSeq}
use tinch_pp.Spirit.Reference.{reference}
use tinch_pp.Lexer.{new_lexer, handle_new_condition, read_connected_size, read_handshake_size}
use tinch_pp.Lexer.Pieces.{add_all, concat, IsPartial}
use tinch_pp.Lexer.Sizes.{
  connected_frame, handshake_frame, connected_reassembles, handshake_reassembles,
  connected_never_ends,
}

abbrev tail : MsgSeq
tail = 0 ∷ []

tail-IsPartial : IsPartial (read_connected_size reference) tail
unfolding read_connected_size
tail-IsPartial n h = absurd (cc h)

tail-IsPartial_handshake : IsPartial (read_handshake_size reference) tail
unfolding read_handshake_size
tail-IsPartial_handshake n h = absurd (cc h)

connected_reassembles_example :
    add_all
      (read_connected_size reference)
      new_lexer
      ((0 ∷ 0 ∷ []) ∷ (0 ∷ 2 ∷ 7 ∷ 8 ∷ 0 ∷ 0 ∷ []) ∷ (0 ∷ 0 ∷ 0 ∷ []) ∷ [])
    ≡ some (record {
      incomplete = tail;
      msgs = (0 ∷ 0 ∷ 0 ∷ 2 ∷ 7 ∷ 8 ∷ []) ∷ (0 ∷ 0 ∷ 0 ∷ 0 ∷ []) ∷ [];
    })
unfolding concat connected_frame
connected_reassembles_example =
    connected_reassembles reference ((7 ∷ 8 ∷ []) ∷ [] ∷ [])
      ((0 ∷ 0 ∷ []) ∷ (0 ∷ 2 ∷ 7 ∷ 8 ∷ 0 ∷ 0 ∷ []) ∷ (0 ∷ 0 ∷ 0 ∷ []) ∷ []) tail
      (omega arith, (omega arith, tt)) tail-IsPartial refl

handshake_reassembles_example :
    add_all (read_handshake_size reference) new_lexer ((0 ∷ []) ∷ (1 ∷ 9 ∷ 0 ∷ []) ∷ [])
    ≡ some (record { incomplete = tail; msgs = (0 ∷ 1 ∷ 9 ∷ []) ∷ [] })
unfolding concat handshake_frame
handshake_reassembles_example =
    handshake_reassembles reference ((9 ∷ []) ∷ []) ((0 ∷ []) ∷ (1 ∷ 9 ∷ 0 ∷ []) ∷ []) tail
      (omega arith, tt) tail-IsPartial_handshake refl

connected_never_ends_example :
    handle_new_condition
      (read_connected_size reference)
      3
      (record { incomplete = 255 ∷ 255 ∷ 255 ∷ 252 ∷ 1 ∷ []; msgs = [] })
    ≡ none
connected_never_ends_example = connected_never_ends reference 3 (1 ∷ []) []
