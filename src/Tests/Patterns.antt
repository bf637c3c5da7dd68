-- ===== src/Tests/Patterns.antt =====
-- Patterns against terms and bytes (impl/erlang_value_types.cpp, tinch_pp/erl_tuple.h).
use tinch_pp.Prelude.{◌≡◌, refl, arith, false, List, if◌then◌else◌, [], ◌∷◌, ◌++◌, none, some, All}
use tinch_pp.Types.{MsgSeq, serializable_string}
use tinch_pp.Spirit.Reference.{reference}
use tinch_pp.Spirit.Yields.{Leaves}
use tinch_pp.Values.{
  Term, count_terms, int_, atom, e_tuple, nil, cons, serialize, match, bound_int, bound_bytes,
  Pattern, tuple_of, and_then, none_left, atom_value, int_assign, any_term, list_of, list,
}
use tinch_pp.Values.Expected.{expected}
use tinch_pp.Values.Refusals.{outcome}
use tinch_pp.Values.Agreement.{Comparable, match-expected}
use tinch_pp.Values.Typing.{variables, HasTypes, match-HasTypes}
use tinch_pp.Values.RoundTrip.{Fits, fits_int, fits_atom, fits_tuple, all_nil, all_cons}
use tinch_pp.Wildcards.Matching.{plain_int}
use tinch_pp.Wildcards.Objects.{match_any_object, new_any, match_assigned}
use tinch_pp.Wildcards.Reuse.{match_any_object-serialize, match_twice, match_twice-sees_first}
use tinch_pp.Strings.{IntObject, int_of, int_to}
use tinch_pp.Strings.Packed.{all_differ}
use tinch_pp.Terms.{string_ext_g}
use tinch_pp.Lists.{match_ints, serialize_ints, int_patterns, int_terms}
use tinch_pp.Lists.Elements.{match_ints-forms}

abbrev ok : MsgSeq
ok = b'o' ∷ b'k' ∷ []

-- {ok, 300, 5}
abbrev three_tuple : Term
three_tuple = e_tuple (cons (atom ok) (cons (int_ 300) (cons (int_ 5) nil)))

three_tuple-Fits : Fits three_tuple
unfolding count_terms
three_tuple-Fits = fits_tuple (omega arith) (
    all_cons (fits_atom (omega arith))
      (all_cons (fits_int (omega arith)) (all_cons (fits_int (omega arith)) all_nil)))

-- make_e_tuple(atom("ok"), any(), int_(&x))
abbrev three_pattern : Pattern
three_pattern =
    tuple_of (and_then (atom_value ok) (and_then any_term (and_then int_assign none_left)))

match-expected_example :
    match reference false three_pattern (serialize reference three_tuple ++ (7 ∷ []))
    ≡ outcome (7 ∷ []) (expected reference three_pattern three_tuple)
unfolding Comparable
match-expected_example =
    match-expected reference false three_pattern three_tuple (7 ∷ []) three_tuple-Fits
      (tt, (plain_int (omega arith), (tt, tt)))

three_pattern-matches :
    expected reference three_pattern three_tuple
    ≡ some (bound_bytes (serialize reference (int_ 300)) ∷ bound_int 5 ∷ [])
unfolding expected tinch_pp.Prelude.list_beq
three_pattern-matches = refl

-- {5} in four bytes, and a byte behind.
abbrev one_tuple : MsgSeq
one_tuple = 104 ∷ 1 ∷ 97 ∷ 5 ∷ 7 ∷ []

abbrev one_pattern : Pattern
one_pattern = tuple_of (and_then int_assign none_left)

one_tuple-matches : match reference false one_pattern one_tuple ≡ some (bound_int 5 ∷ [], 7 ∷ [])
unfolding match tinch_pp.Terms.small_tuple_head_ext tinch_pp.Values.count_patterns
    tinch_pp.Terms.integer tinch_pp.Terms.small_integer
one_tuple-matches = refl

match-HasTypes_example :
    HasTypes (variables one_pattern) (bound_int 5 ∷ []) × Leaves one_tuple (7 ∷ [])
match-HasTypes_example =
    match-HasTypes reference false one_pattern one_tuple (omega arith) one_tuple-matches

match_any_object-serialize_example :
    match_any_object reference (serialize reference (int_ 300) ++ (7 ∷ [])) new_any ≡ (
      some (7 ∷ []),
      record {
        matched_raw_bytes = serialize reference (int_ 300);
        to_assign = some (serialize reference (int_ 300));
      },
    )
match_any_object-serialize_example =
    match_any_object-serialize reference (int_ 300) (7 ∷ []) new_any (plain_int (omega arith))

match_twice-sees_first_example :
    match_assigned reference false int_assign (
      match_twice reference
        (serialize reference (int_ 300) ++ [])
        (serialize reference (int_ 5) ++ []))
    ≡ expected reference int_assign (int_ 300)
unfolding Comparable
match_twice-sees_first_example =
    match_twice-sees_first reference false int_assign (int_ 300) (int_ 5) [] []
      (plain_int (omega arith)) (plain_int (omega arith)) tt

-- [1, X] against [1, 200]
abbrev one_and_more : List IntObject
one_and_more = int_of 1 ∷ int_to ∷ []

match_ints-forms_example :
    (match_ints reference false one_and_more (serialize_ints reference (1 ∷ 200 ∷ []) ++ [])
      ≡ outcome [] (
          expected reference
            (list_of (int_patterns one_and_more))
            (list (int_terms (1 ∷ 200 ∷ [])))))
    × (match_ints reference false one_and_more
          (string_ext_g reference (serializable_string (1 ∷ 200 ∷ [])) ++ [])
        ≡ (if all_differ one_and_more (1 ∷ 200 ∷ []) then some ([], []) else none))
match_ints-forms_example =
    match_ints-forms reference false one_and_more (1 ∷ 200 ∷ []) [] (omega arith, (omega arith, tt))
      (omega arith)

-- The plain form is matched and the packed form is not.
packed_is_refused :
    (expected reference (list_of (int_patterns one_and_more)) (list (int_terms (1 ∷ 200 ∷ [])))
      ≡ some (bound_int 200 ∷ []))
    × (all_differ one_and_more (1 ∷ 200 ∷ []) ≡ false)
unfolding expected all_differ int_patterns int_terms
packed_is_refused = (refl, refl)
