-- ===== src/Lists.antt =====
-- tinch_pp/erl_list.h and impl/list_matcher.h: the assignment of a whole list, and the lists of
-- integers, which come packed as a string where all elements are bytes.
-- An assigned list is taken to be empty before. The first byte of a message is read without a test
-- for the end; a message without bytes is taken as one that is not packed.
pub mod Packing
pub mod Elements
use tinch_pp.Prelude.{
  ℕ, zero, suc, Bool, false, List, [], ◌∷◌, Option, none, some, nat_beq, if◌then◌else◌,
}
use tinch_pp.Types.{MsgSeq}
use tinch_pp.Spirit.{Spirit, Parser, ◌>>=◌, ◌>>◌, attribute}
use tinch_pp.Strings.{
  IntObject, int_of, int_to, int_with_any, match_elements, assign_matched_string,
}
use tinch_pp.Terms.{integer, list_head_ext, tag_nil_ext, tag_string_ext}
use tinch_pp.Values.{
  Term, Terms, int_, list, nil, cons, Pattern, Patterns, int_value, int_assign, int_any, list_of,
  none_left, and_then, Bound, serialize, match,
}

-- The loop of `list_matcher::assign_match`, with the rounds left: a fresh variable for each element.
unfoldable pub assign_elements : {A : Type 0} → Parser A → ℕ → Parser (List A)
assign_elements assigner zero = attribute []
assign_elements assigner (suc i) = assigner >>= λ matched_value.
    assign_elements assigner i >>= λ rest. attribute (matched_value ∷ rest)

-- `make_list` on the integers to write, and on those to match.
unfoldable pub int_terms : List ℕ → Terms
int_terms [] = nil
int_terms (n ∷ ns) = cons (int_ n) (int_terms ns)

abbrev pub int_pattern : IntObject → Pattern
int_pattern (int_of val) = int_value val
int_pattern int_to = int_assign
int_pattern int_with_any = int_any

unfoldable pub int_patterns : List IntObject → Patterns
int_patterns [] = none_left
int_patterns (n ∷ ns) = and_then (int_pattern n) (int_patterns ns)

abbrev pub is_packed_as_string : MsgSeq → Bool
is_packed_as_string [] = false
is_packed_as_string (b ∷ bs) = nat_beq tag_string_ext b

module _ (sp : Spirit) where
  -- `list_matcher::assign_match`: here the empty tail is needed.
  unfoldable pub assign_list : {A : Type 0} → Parser A → Parser (List A)
  unfolding assign_elements
  assign_list assigner = list_head_ext sp >>= λ parsed_length.
      assign_elements assigner parsed_length >>= λ val.
      sp.byte_lit tag_nil_ext >>= λ b. attribute val

  -- `list<int_>::serialize`.
  unfoldable pub serialize_ints : List ℕ → MsgSeq
  unfolding int_terms
  serialize_ints val = serialize sp (list (int_terms val))

  -- `list<int_>::match_value`.
  unfoldable pub match_ints : Bool → List IntObject → Parser (List Bound)
  unfolding int_patterns
  match_ints char_is_signed val f =
      if is_packed_as_string f
      then (match_elements sp val >>= λ _. attribute []) f
      else match sp char_is_signed (list_of (int_patterns val)) f

  -- `list<int_>::assign_matched`.
  unfoldable pub assign_ints : Parser (List ℕ)
  unfolding assign_list
  assign_ints f =
      if is_packed_as_string f then assign_matched_string sp f else assign_list (integer sp) f
