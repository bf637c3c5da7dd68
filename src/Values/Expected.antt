-- ===== src/Values/Expected.antt =====
-- What the documentation of the patterns promises of a match, as a function on terms: no bytes, no
-- parsers. It is what `match` of impl/erlang_value_types.cpp, tinch_pp/erl_tuple.h,
-- tinch_pp/erl_list.h and impl/erl_any.cpp is measured by.
use tinch_pp.Prelude.{
  ℕ, List, [], ◌∷◌, ◌++◌, Option, none, some, Eq, nat_eq, bytes_eq, if◌then◌else◌,
}
use tinch_pp.Types.{MsgSeq, EPid, BinaryValue, NewReference, pid_eq, binary_eq, reference_eq}
use tinch_pp.Spirit.{Spirit}
use tinch_pp.Values.{
  Term, Terms, int_, pid, atom, binary, ref, e_string, e_tuple, list, nil, cons, Pattern, Patterns,
  int_value, int_assign, int_any, pid_value, pid_assign, pid_any, atom_value, atom_assign, atom_any,
  binary_value, binary_assign, binary_any, ref_value, ref_assign, ref_any, tuple_of, string_value,
  string_assign, string_any, any_term, list_of, none_left, and_then, Bound, bound_int, bound_pid,
  bound_atom, bound_binary, bound_ref, bound_string, bound_bytes, serialize,
}

-- The value of a term of one class.
abbrev pub as_int : Term → Option ℕ
as_int (int_ val) = some val
as_int _ = none

abbrev pub as_pid : Term → Option EPid
as_pid (pid val) = some val
as_pid _ = none

abbrev pub as_atom : Term → Option MsgSeq
as_atom (atom val) = some val
as_atom _ = none

abbrev pub as_binary : Term → Option BinaryValue
as_binary (binary val) = some val
as_binary _ = none

abbrev pub as_ref : Term → Option NewReference
as_ref (ref val) = some val
as_ref _ = none

abbrev pub as_string : Term → Option MsgSeq
as_string (e_string val) = some val
as_string _ = none

abbrev pub as_tuple : Term → Option Terms
as_tuple (e_tuple contained) = some contained
as_tuple _ = none

abbrev pub as_list : Term → Option Terms
as_list (list val) = some val
as_list _ = none

-- A value pattern takes an equal value, a variable is assigned, `any` keeps the bytes of the term.
abbrev pub compared : {A : Type 0} → Eq A → A → Option A → Option (List Bound)
compared e val found = elim found [
  | none ↦ none
  | some res ↦ if e.beq val res then some [] else none
]

abbrev pub assigned : {A : Type 0} → (A → Bound) → Option A → Option (List Bound)
assigned bound found = elim found [ none ↦ none | some res ↦ some (bound res ∷ []) ]

abbrev pub kept : {A : Type 0} → MsgSeq → Option A → Option (List Bound)
kept bytes = assigned (λ _. bound_bytes bytes)

-- Both match, and what they store stands in order.
abbrev pub both : Option (List Bound) → Option (List Bound) → Option (List Bound)
both first others = elim first [
  | none ↦ none
  | some b ↦ elim others [ none ↦ none | some bs ↦ some (b ++ bs) ]
]

abbrev pub within : (Terms → Option (List Bound)) → Option Terms → Option (List Bound)
within matched found = elim found [ none ↦ none | some contained ↦ matched contained ]

module _ (sp : Spirit) where
  unfoldable mutual
    -- What a pattern stores when it meets a term, or `none` where they do not match.
    pub expected : Pattern → Term → Option (List Bound)
    expected (int_value val) t = compared nat_eq val (as_int t)
    expected int_assign t = assigned bound_int (as_int t)
    expected int_any t = kept (serialize sp t) (as_int t)
    expected (pid_value val) t = compared pid_eq val (as_pid t)
    expected pid_assign t = assigned bound_pid (as_pid t)
    expected pid_any t = kept (serialize sp t) (as_pid t)
    expected (atom_value val) t = compared bytes_eq val (as_atom t)
    expected atom_assign t = assigned bound_atom (as_atom t)
    expected atom_any t = kept (serialize sp t) (as_atom t)
    expected (binary_value val) t = compared binary_eq val (as_binary t)
    expected binary_assign t = assigned bound_binary (as_binary t)
    expected binary_any t = kept (serialize sp t) (as_binary t)
    expected (ref_value val) t = compared reference_eq val (as_ref t)
    expected ref_assign t = assigned bound_ref (as_ref t)
    expected ref_any t = kept (serialize sp t) (as_ref t)
    expected (string_value val) t = compared bytes_eq val (as_string t)
    expected string_assign t = assigned bound_string (as_string t)
    expected string_any t = kept (serialize sp t) (as_string t)
    expected any_term t = some (bound_bytes (serialize sp t) ∷ [])
    expected (tuple_of contained) t = within (expected_all contained) (as_tuple t)
    expected (list_of val) t = within (expected_all val) (as_list t)

    pub expected_all : Patterns → Terms → Option (List Bound)
    expected_all none_left nil = some []
    expected_all (and_then p ps) (cons t ts) = both (expected p t) (expected_all ps ts)
    expected_all _ _ = none
