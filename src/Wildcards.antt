-- ===== src/Wildcards.antt =====
-- impl/erl_any.cpp: `any`, the pattern that takes whatever term comes, and keeps its bytes.
-- The value of the parser is what `save_matched_bytes` collects, in order, for a wildcard that is
-- matched once; a failed match is `none`. The table calls itself for the elements of a tuple and of
-- a list, and takes fuel: `any_match` gives one round for each byte, since a term around another
-- has bytes of its own.
pub mod Compounds
pub mod Matching
pub mod Takes
pub mod Ranges
pub mod Objects
pub mod Agreement
pub mod Reuse
use tinch_pp.Prelude.{
  ℕ, zero, suc, ◌-◌, Bool, ◌||◌, List, [], ◌∷◌, ◌++◌, Option, none, some, length, take, nat_beq,
  if◌then◌else◌,
}
use tinch_pp.Types.{MsgSeq}
use tinch_pp.Spirit.{Spirit, Parser, ◌>>=◌, attribute}
use tinch_pp.Strings.{assign_matched_string}
use tinch_pp.Terms.{
  tag_small_integer, tag_integer, tag_atom_ext, tag_small_tuple, tag_list, tag_string_ext, tag_pid,
  tag_new_reference_ext, tag_float_ext, tag_binary_ext, tag_bit_binary_ext, integer, atom_ext,
  small_tuple_head_ext, list_head_ext, pid_ext, new_reference_ext_p, float_ext,
}
use tinch_pp.Binaries.{any_binary}

-- `save_matched_bytes(msg_seq(start, f))` after a match.
abbrev pub saved : {A : Type 0} → Parser A → Parser MsgSeq
saved p s = elim (p s) [ none ↦ none | some (ignore, f) ↦ some (take (length s - length f) s, f) ]

-- The loop over the elements, with the rounds left.
unfoldable pub element_loop : Parser MsgSeq → ℕ → Parser MsgSeq
element_loop p zero = attribute []
element_loop p (suc i) = p >>= λ bytes. element_loop p i >>= λ rest. attribute (bytes ++ rest)

-- The head is saved, and then the elements.
unfoldable pub compound : Parser ℕ → Parser MsgSeq → Parser MsgSeq
unfolding element_loop
compound head p s = elim (head s) [
  | none ↦ none
  | some (parsed_length, f) ↦
      (element_loop p parsed_length >>= λ elements.
      attribute (take (length s - length f) s ++ elements))
        f
]

module _ (sp : Spirit) where
  -- `dynamic_element_matcher`, by the tag.
  unfoldable pub dynamic_element_matcher : Parser MsgSeq → ℕ → Parser MsgSeq
  unfolding compound any_binary
  dynamic_element_matcher instance_match tag s =
      if nat_beq tag tag_small_integer || nat_beq tag tag_integer
      then saved (integer sp) s
      else if nat_beq tag tag_atom_ext
      then saved (atom_ext sp) s
      else if nat_beq tag tag_small_tuple
      then compound (small_tuple_head_ext sp) instance_match s
      else if nat_beq tag tag_list
      then compound (list_head_ext sp) instance_match s
      else if nat_beq tag tag_string_ext
      then saved (assign_matched_string sp) s
      else if nat_beq tag tag_pid
      then saved (pid_ext sp) s
      else if nat_beq tag tag_new_reference_ext
      then saved (new_reference_ext_p sp) s
      else if nat_beq tag tag_float_ext
      then saved (float_ext sp) s
      else if nat_beq tag tag_binary_ext || nat_beq tag tag_bit_binary_ext
      then saved (any_binary sp) s
      else none

  -- `match_dynamically`: without a tag, or with one that the table lacks, there is no match.
  unfoldable pub match_dynamically : ℕ → Parser MsgSeq
  unfolding dynamic_element_matcher
  match_dynamically zero s = none
  match_dynamically (suc fuel) [] = none
  match_dynamically (suc fuel) (tag ∷ s) =
      dynamic_element_matcher (match_dynamically fuel) tag (tag ∷ s)

  -- `any::match`.
  unfoldable pub any_match : Parser MsgSeq
  any_match s = match_dynamically (length s) s
