-- ===== src/Values.antt =====
-- impl/erlang_value_types.cpp, tinch_pp/erl_tuple.h, tinch_pp/erl_list.h and impl/list_matcher.h:
-- Erlang terms, how they are written, and how patterns match them.
-- `list` is `list<T>` for any class but `int_`, whose list is also read from a packed string and is
-- not modelled. A pattern is a value, a variable to assign, or `any`. What a successful match stores,
-- in order, is the value of the parser; a failed match is `none`, and its partial assignments are not
-- modelled: the assigned variables of the program's own patterns are fresh in each attempt. A variable
-- that is assigned is taken to hold its default value before.
pub mod RoundTrip
pub mod Expected
pub mod Refusals
pub mod Agreement
pub mod Typing
use tinch_pp.Prelude.{
  ℕ, suc, ◌+◌, ◌-◌, ◌<◌, Bool, true, false, List, [], ◌∷◌, ◌++◌, Option, none, some, ltb, leb, Eq,
  nat_eq, bytes_eq, if◌then◌else◌, length, take,
}
use tinch_pp.Types.{
  MsgSeq, EPid, BinaryValue, NewReference, pid_eq, binary_eq, reference_eq, serializable_string,
  serializable_e_pid, serializable_bit_seq, new_reference_g_type,
}
use tinch_pp.Spirit.{Spirit, Parser, ◌>>=◌, ◌>>◌, attribute, alternative}
use tinch_pp.Binaries.{any_binary}
use tinch_pp.Wildcards.{saved, any_match}
use tinch_pp.Strings.{match_string_value, assign_matched_string}
use tinch_pp.Terms.{
  small_integer_g, integer_ext_g, integer, atom_ext, atom_ext_g, pid_ext, pid_ext_g,
  new_reference_ext_p, new_reference_ext_g, small_tuple_head_ext, small_tuple_head_g, list_head_ext,
  list_head_g, binary_ext, binary_ext_g, bit_binary_ext, bit_binary_ext_g, string_ext_g,
  tag_nil_ext,
}

-- The objects that hold a value. An integer is the bit pattern of an `int32_t`.
mutual
  pub data Term : Type 0 where
    int_ : ℕ → Term
    pid : EPid → Term
    atom : MsgSeq → Term
    binary : BinaryValue → Term
    ref : NewReference → Term
    e_string : MsgSeq → Term
    e_tuple : Terms → Term
    list : Terms → Term

  pub data Terms : Type 0 where
    nil : Terms
    cons : Term → Terms → Terms

-- What a match stores: the value of a variable, or the bytes that `any` keeps.
pub data Bound : Type 0 where
  bound_int : ℕ → Bound
  bound_pid : EPid → Bound
  bound_atom : MsgSeq → Bound
  bound_binary : BinaryValue → Bound
  bound_ref : NewReference → Bound
  bound_string : MsgSeq → Bound
  bound_bytes : MsgSeq → Bound

-- The objects as patterns: `_value` compares, `_assign` stores, `_any` keeps the bytes, and `any_term` is
-- `any` itself.
mutual
  pub data Pattern : Type 0 where
    int_value : ℕ → Pattern
    int_assign int_any : Pattern
    pid_value : EPid → Pattern
    pid_assign pid_any : Pattern
    atom_value : MsgSeq → Pattern
    atom_assign atom_any : Pattern
    binary_value : BinaryValue → Pattern
    binary_assign binary_any : Pattern
    ref_value : NewReference → Pattern
    ref_assign ref_any : Pattern
    tuple_of : Patterns → Pattern
    string_value : MsgSeq → Pattern
    string_assign string_any : Pattern
    any_term : Pattern
    list_of : Patterns → Pattern

  pub data Patterns : Type 0 where
    none_left : Patterns
    and_then : Pattern → Patterns → Patterns

unfoldable pub count_terms : Terms → ℕ
count_terms nil = 0
count_terms (cons t ts) = suc (count_terms ts)

unfoldable pub count_patterns : Patterns → ℕ
count_patterns none_left = 0
count_patterns (and_then p ps) = suc (count_patterns ps)

module _ (sp : Spirit) where
  -- `int_::serialize`: `val` is 0 to 255 exactly if its bit pattern is.
  unfoldable pub serialize_int : ℕ → MsgSeq
  serialize_int val = if leb val 255 then small_integer_g sp val else integer_ext_g sp val

  -- `binary::serialize`.
  unfoldable pub serialize_binary : BinaryValue → MsgSeq
  serialize_binary val =
      if ltb 0 val.padding_bits
      then bit_binary_ext_g sp (serializable_bit_seq val.value val.padding_bits)
      else binary_ext_g sp (serializable_string val.value)

  unfoldable mutual
    unfolding serialize_int serialize_binary

    pub serialize : Term → MsgSeq
    serialize (int_ val) = serialize_int val
    serialize (pid val) = pid_ext_g sp (serializable_e_pid val)
    serialize (atom val) = atom_ext_g sp (serializable_string val)
    serialize (binary val) = serialize_binary val
    serialize (ref val) = new_reference_ext_g sp (new_reference_g_type val)
    serialize (e_string val) = string_ext_g sp (serializable_string val)
    serialize (e_tuple contained) =
        small_tuple_head_g sp (count_terms contained) ++ serialize_all contained
    serialize (list val) =
        list_head_g sp (count_terms val) ++ (serialize_all val ++ sp.byte_g tag_nil_ext)

    pub serialize_all : Terms → MsgSeq
    serialize_all nil = []
    serialize_all (cons t ts) = serialize t ++ serialize_all ts

-- `success && (val == res)`.
abbrev pub match_value : {A : Type 0} → Eq A → Parser A → A → Parser (List Bound)
match_value e p val = p >>= λ res s. if e.beq val res then some ([], s) else none

-- The value is stored in `*to_assign`.
abbrev pub assign_matched : {A : Type 0} → (A → Bound) → Parser A → Parser (List Bound)
assign_matched bound p = p >>= λ res. attribute (bound res ∷ [])

-- `msg_seq(start, f)`: the bytes that the parser took.
abbrev pub match_any : {A : Type 0} → Parser A → Parser (List Bound)
match_any p s = elim (p s) [
  | none ↦ none
  | some (ignore, f) ↦ some (bound_bytes (take (length s - length f) s) ∷ [], f)
]

-- The parsed length is the pattern's own, or the match fails.
abbrev pub when_equal : {A : Type 0} → ℕ → ℕ → Parser A → Parser A
when_equal n parsed_length p s = if nat_eq.beq n parsed_length then p s else none

module _ (sp : Spirit) where
  -- `qi::parse(f, l, qi::byte_(nil_ext))`, whose result `list_matcher::match` ignores.
  unfoldable pub optional_nil : Parser (Unit {0})
  optional_nil s = elim (sp.byte_lit tag_nil_ext s) [
    | none ↦ some (tt, s)
    | some (b, rest) ↦ some (tt, rest)
  ]

module _ (sp : Spirit) (char_is_signed : Bool) where
  unfoldable mutual
    unfolding any_binary optional_nil match_string_value any_match

    pub match : Pattern → Parser (List Bound)
    match (int_value val) = match_value nat_eq (integer sp) val
    match int_assign = assign_matched bound_int (integer sp)
    match int_any = match_any (integer sp)
    match (pid_value val) = match_value pid_eq (pid_ext sp) val
    match pid_assign = assign_matched bound_pid (pid_ext sp)
    match pid_any = match_any (pid_ext sp)
    match (atom_value val) = match_value bytes_eq (atom_ext sp) val
    match atom_assign = assign_matched bound_atom (atom_ext sp)
    match atom_any = match_any (atom_ext sp)
    match (binary_value val) = match_value binary_eq (any_binary sp) val
    match binary_assign = assign_matched bound_binary (any_binary sp)
    match binary_any = match_any (any_binary sp)
    match (ref_value val) = match_value reference_eq (new_reference_ext_p sp) val
    match ref_assign = assign_matched bound_ref (new_reference_ext_p sp)
    match ref_any = match_any (new_reference_ext_p sp)
    match (string_value val) = match_string_value sp char_is_signed val
    match string_assign = assign_matched bound_string (assign_matched_string sp)
    match string_any = match_any (assign_matched_string sp)
    match any_term = any_match sp >>= λ bytes. attribute (bound_bytes bytes ∷ [])
    match (tuple_of contained) = small_tuple_head_ext sp >>= λ parsed_length.
        when_equal (count_patterns contained) parsed_length (match_all contained)
    match (list_of val) = list_head_ext sp >>= λ parsed_length.
        when_equal (count_patterns val) parsed_length (match_all val) >>= λ bounds.
        optional_nil sp >>= λ _. attribute bounds

    pub match_all : Patterns → Parser (List Bound)
    match_all none_left = attribute []
    match_all (and_then p ps) = match p >>= λ b. match_all ps >>= λ bs. attribute (b ++ bs)
