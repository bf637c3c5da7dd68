-- ===== src/Wildcards/Objects.antt =====
-- impl/erl_any.cpp and impl/matchable_seq.cpp: `any` as the object that it is, whose bytes stay from
-- one match to the next, and the message that it assigns.
-- Where a match fails, the position in the message is not read any more, and is left out.
use tinch_pp.Prelude.{
  ℕ, zero, suc, ◌-◌, Bool, ◌||◌, List, [], ◌∷◌, ◌++◌, Option, none, some, length, take, nat_beq,
  if◌then◌else◌,
}
use tinch_pp.Types.{MsgSeq}
use tinch_pp.Spirit.{Spirit, Parser}
use tinch_pp.Strings.{assign_matched_string}
use tinch_pp.Terms.{
  tag_small_integer, tag_integer, tag_atom_ext, tag_small_tuple, tag_list, tag_string_ext, tag_pid,
  tag_new_reference_ext, tag_float_ext, tag_binary_ext, tag_bit_binary_ext, integer, atom_ext,
  small_tuple_head_ext, list_head_ext, pid_ext, new_reference_ext_p, float_ext,
}
use tinch_pp.Binaries.{any_binary}
use tinch_pp.Values.{Pattern, Bound, match}

-- `any`: the bytes that it has saved, and the message in `*to_assign`, if one was assigned.
pub record Any : Type 0 where
  pub matched_raw_bytes : MsgSeq
  pub to_assign : Option MsgSeq

abbrev pub new_any : Any
new_any = record { matched_raw_bytes = []; to_assign = none }

-- A match on the object: the bytes that are left, or `none` where it fails, and the object after it.
abbrev pub AnyMatch : Type 0
AnyMatch = MsgSeq → Any → Option MsgSeq × Any

abbrev pub save_matched_bytes : MsgSeq → Any → Any
save_matched_bytes raw_msg_part a = record a {
  matched_raw_bytes = a.matched_raw_bytes ++ raw_msg_part;
}

-- `match_any_pid` and the other functions that are given an `any`.
unfoldable pub match_into : {A : Type 0} → Parser A → AnyMatch
match_into p s a = elim (p s) [
  | none ↦ (none, a)
  | some (ignore, f) ↦ (some f, save_matched_bytes (take (length s - length f) s) a)
]

-- The loop over the elements, with the rounds left.
unfoldable pub match_elements_into : AnyMatch → ℕ → AnyMatch
match_elements_into instance_match zero s a = (some s, a)
match_elements_into instance_match (suc i) s a =
    let (left, a') = instance_match s a in
    elim left [ none ↦ (none, a') | some f ↦ match_elements_into instance_match i f a' ]

unfoldable pub compound_into : Parser ℕ → AnyMatch → AnyMatch
unfolding match_elements_into
compound_into head instance_match s a = elim (head s) [
  | none ↦ (none, a)
  | some (parsed_length, f) ↦
      match_elements_into instance_match parsed_length f
        (save_matched_bytes (take (length s - length f) s) a)
]

-- `to_assign->reset(new matchable_seq(matched_raw_bytes))`, after a match of any outcome.
abbrev pub assign_bytes : Option MsgSeq × Any → Option MsgSeq × Any
assign_bytes (left, a) = (left, record a { to_assign = some a.matched_raw_bytes })

module _ (sp : Spirit) where
  -- `dynamic_element_matcher`, by the tag.
  unfoldable pub element_matcher_into : AnyMatch → ℕ → AnyMatch
  unfolding match_into compound_into any_binary
  element_matcher_into instance_match tag s a =
      if nat_beq tag tag_small_integer || nat_beq tag tag_integer
      then match_into (integer sp) s a
      else if nat_beq tag tag_atom_ext
      then match_into (atom_ext sp) s a
      else if nat_beq tag tag_small_tuple
      then compound_into (small_tuple_head_ext sp) instance_match s a
      else if nat_beq tag tag_list
      then compound_into (list_head_ext sp) instance_match s a
      else if nat_beq tag tag_string_ext
      then match_into (assign_matched_string sp) s a
      else if nat_beq tag tag_pid
      then match_into (pid_ext sp) s a
      else if nat_beq tag tag_new_reference_ext
      then match_into (new_reference_ext_p sp) s a
      else if nat_beq tag tag_float_ext
      then match_into (float_ext sp) s a
      else if nat_beq tag tag_binary_ext || nat_beq tag tag_bit_binary_ext
      then match_into (any_binary sp) s a
      else (none, a)

  -- `any::match` with the rounds left: the elements of a term are matched by the same object.
  unfoldable pub match_object : ℕ → AnyMatch
  unfolding element_matcher_into
  match_object zero s a = (none, a)
  match_object (suc fuel) [] a = assign_bytes (none, a)
  match_object (suc fuel) (tag ∷ s) a =
      assign_bytes (element_matcher_into (match_object fuel) tag (tag ∷ s) a)

  -- `any::match`, with a round for each byte and one for the call itself.
  unfoldable pub match_any_object : AnyMatch
  match_any_object s = match_object (suc (length s)) s

module _ (sp : Spirit) (char_is_signed : Bool) where
  -- `matchable_seq::match`: from the first byte of the message, without regard to what is left.
  unfoldable pub matchable_match : Pattern → MsgSeq → Option (List Bound)
  matchable_match pattern matchable_msg = elim (match sp char_is_signed pattern matchable_msg) [
    | none ↦ none
    | some (bounds, first) ↦ some bounds
  ]

  -- The message that an `any` assigned, matched further.
  unfoldable pub match_assigned : Pattern → Any → Option (List Bound)
  unfolding matchable_match
  match_assigned pattern a = elim a.to_assign [
    | none ↦ none
    | some message ↦ matchable_match pattern message
  ]
