-- ===== src/Lexer.antt =====
-- impl/utils.h and impl/utils.cpp: `msg_lexer`, which cuts a TCP/IP stream into messages.
-- The size of a message with its length field is read by a virtual function, an argument here.
-- `handle_new_condition` calls itself on what is left after a message, and takes fuel: `none` means
-- that the fuel ran out. `add` gives one round more than there are bytes, since each round removes a
-- message, which is not empty unless its size wraps to 0.
pub mod Cut
pub mod Chunks
pub mod Termination
pub mod Sizes
pub mod Pieces
pub mod Fronts
use tinch_pp.Prelude.{
  ℕ, zero, suc, ◌+◌, ◌%◌, ◌^◌, Bool, true, false, not, List, [], ◌∷◌, ◌++◌, Option, none, some, ltb,
  nat_beq, if◌then◌else◌, length, take, drop,
}
use tinch_pp.Types.{MsgSeq}
use tinch_pp.Spirit.{Spirit}

pub record Lexer : Type 0 where
  pub incomplete : MsgSeq
  pub msgs : List MsgSeq

abbrev pub new_lexer : Lexer
new_lexer = record { incomplete = []; msgs = [] }

unfoldable pub extract_msg : Lexer → ℕ → Lexer
extract_msg l msg_size = record l { msgs = l.msgs ++ (take msg_size l.incomplete ∷ []) }

unfoldable pub strip_incomplete : Lexer → ℕ → Lexer
strip_incomplete l start = record l { incomplete = drop start l.incomplete }

unfoldable pub has_complete_msg : Lexer → Bool
has_complete_msg l = elim l.msgs [ [] ↦ false | m ∷ ms ↦ true ]

unfoldable pub next_message : Lexer → Option MsgSeq × Lexer
next_message l = elim l.msgs [ [] ↦ (none, l) | m ∷ ms ↦ (some m, record l { msgs = ms }) ]

module _ (read_msg_size : MsgSeq → Option ℕ) where
  unfoldable pub handle_new_condition : ℕ → Lexer → Option Lexer
  unfolding extract_msg strip_incomplete
  handle_new_condition zero l = none
  handle_new_condition (suc fuel) l = elim (read_msg_size l.incomplete) [
    | none ↦ some l
    | some msg_and_header_size ↦
        let left = length l.incomplete in
        let rest =
          handle_new_condition fuel
            (strip_incomplete (extract_msg l msg_and_header_size) msg_and_header_size) in
        if nat_beq left msg_and_header_size
        then some (record { incomplete = []; msgs = l.msgs ++ (l.incomplete ∷ []) })
        else (if ltb msg_and_header_size left then rest else some l)
  ]

  unfoldable pub add : Lexer → MsgSeq → Option Lexer
  unfolding handle_new_condition
  add l msg =
      let l' = record l { incomplete = l.incomplete ++ msg } in
      handle_new_condition (suc (length l'.incomplete)) l'

module _ (sp : Spirit) where
  -- `msg_lexer_handshake::read_msg_size`: a 16-bit length; the sum is computed in `int`.
  unfoldable pub read_handshake_size : MsgSeq → Option ℕ
  read_handshake_size msg = elim (sp.big_word msg) [
    | none ↦ none
    | some (msg_size, f) ↦ some (2 + msg_size)
  ]

  -- `msg_lexer_connected::read_msg_size`: a 32-bit length; the sum is computed in `uint32_t`.
  unfoldable pub read_connected_size : MsgSeq → Option ℕ
  read_connected_size msg = elim (sp.big_dword msg) [
    | none ↦ none
    | some (msg_size, f) ↦ some ((4 + msg_size) % 2 ^ 32)
  ]
