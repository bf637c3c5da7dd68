-- ===== src/Strings.antt =====
-- impl/erl_string.cpp and impl/string_matcher.h: strings, which Erlang packs as a list of bytes.
-- Whether `char` is a signed type is the platform's choice, and an argument here.
pub mod Matching
pub mod Ranges
pub mod Packed
use tinch_pp.Prelude.{
  ℕ, zero, suc, ◌+◌, ◌-◌, ◌^◌, Bool, true, false, ◌&&◌, List, [], ◌∷◌, Option, none, some, leb,
  nat_beq, if◌then◌else◌, length, map,
}
use tinch_pp.Types.{MsgSeq}
use tinch_pp.Spirit.{Spirit, Parser, ◌>>=◌, attribute}
use tinch_pp.Terms.{string_head_ext}

-- The bit pattern of the 32-bit integer to which a `char` is converted.
abbrev pub char_to_int : Bool → ℕ → ℕ
char_to_int char_is_signed c = if char_is_signed && leb 128 c then c + (2 ^ 32 - 256) else c

-- `int_`, an element of a packed list: with a value, with a variable, or with `any`.
pub data IntObject : Type 0 where
  int_of : ℕ → IntObject
  int_to int_with_any : IntObject

-- `val`, which is 0 where the constructor is not given one.
abbrev pub val_of : IntObject → ℕ
val_of (int_of val) = val
val_of _ = 0

abbrev pub should_assign : IntObject → Bool
should_assign int_to = true
should_assign _ = false

-- `create_int` for each character.
abbrev pub create_ints : Bool → MsgSeq → List IntObject
create_ints char_is_signed = map (λ c. int_of (char_to_int char_is_signed c))

module _ (sp : Spirit) where
  -- `int_::match_string_element`, and where it leaves `f`. What it assigns is left out, since a match
  -- that assigns an element fails.
  unfoldable pub match_string_element : IntObject → MsgSeq → Bool × MsgSeq
  match_string_element element f = elim (sp.byte_ f) [
    | none ↦ (false, f)
    | some (res, rest) ↦
        (if should_assign element then true else nat_beq (val_of element) res, rest)
  ]

  -- `val.end() == std::find_if(val.begin(), val.end(), match_string_element)`: the search stops at
  -- the first element that matches.
  unfoldable pub find_if_at_end : List IntObject → Parser (Unit {0})
  unfolding match_string_element
  find_if_at_end [] f = some (tt, f)
  find_if_at_end (v ∷ vs) f =
      let (matched, rest) = match_string_element v f in
      if matched then none else find_if_at_end vs rest

  -- `string_matcher::match`.
  unfoldable pub match_elements : List IntObject → Parser (Unit {0})
  match_elements val = string_head_ext sp >>= λ parsed_length f.
      if nat_beq (length val) parsed_length then find_if_at_end val f else none

  -- The loop of `string_matcher::assign_match`, with the rounds left.
  unfoldable pub assign_loop : ℕ → Parser MsgSeq
  assign_loop zero = attribute []
  assign_loop (suc i) = sp.byte_ >>= λ matched. assign_loop i >>= λ rest. attribute (matched ∷ rest)

  unfoldable pub assign_matched_string : Parser MsgSeq
  assign_matched_string = string_head_ext sp >>= λ parsed_length. assign_loop parsed_length

  unfoldable pub match_string_value : {B : Type 0} → Bool → MsgSeq → Parser (List B)
  match_string_value char_is_signed val =
      match_elements (create_ints char_is_signed val) >>= λ _. attribute []
