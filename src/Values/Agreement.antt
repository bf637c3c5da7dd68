-- ===== src/Values/Agreement.antt =====
-- Matching the bytes of a term (impl/erlang_value_types.cpp, tinch_pp/erl_tuple.h,
-- tinch_pp/erl_list.h, impl/erl_any.cpp) against what is expected of the pattern and the term.
use tinch_pp.Prelude.{
  ℕ, suc, ◌≡◌, ◌≢◌, ◌∙◌, ap, append_assoc, refl, [], ◌∷◌, ◌++◌, Option, none, some, arith, Bool,
  nat_eq, bytes_eq, Eq, nat_beq, Bool-cases, inl, inr, List,
}
use tinch_pp.Types.{MsgSeq, pid_eq, binary_eq, reference_eq}
use tinch_pp.Spirit.{Spirit, Parser, ◌>>=◌, attribute}
use tinch_pp.Spirit.Laws.{Reads, bind-some, bind-none}
use tinch_pp.Strings.{match_string_value, match_elements, create_ints}
use tinch_pp.Terms
use tinch_pp.Terms.RoundTrip.{small_tuple_head-Reads, list_head-Reads}
use tinch_pp.Wildcards.{any_match}
use tinch_pp.Wildcards.Matching.{Listless}
use tinch_pp.Wildcards.Takes.{any_match-serialize}
use tinch_pp.Values.{
  Term, Terms, e_string, e_tuple, list, nil, cons, Pattern, Patterns, int_value, int_assign,
  int_any, pid_value, pid_assign, pid_any, atom_value, atom_assign, atom_any, binary_value,
  binary_assign, binary_any, ref_value, ref_assign, ref_any, tuple_of, string_value, string_assign,
  string_any, any_term, list_of, none_left, and_then, Bound, bound_int, bound_pid, bound_atom,
  bound_binary, bound_ref, bound_string, bound_bytes, serialize, serialize_all, count_terms,
  count_patterns, match, match_all, match_value, assign_matched, match_any, when_equal,
  optional_nil,
}
use tinch_pp.Values.Expected.{
  as_string, as_tuple, as_list, compared, assigned, kept, both, expected, expected_all,
}
use tinch_pp.Values.Refusals.{
  outcome, Gives, tag_of, refuses, refuses_after, integer-Gives, atom_ext-Gives, pid_ext-Gives,
  new_reference_ext-Gives, any_binary-Gives, assign_matched_string-Gives,
}
use tinch_pp.Values.RoundTrip.{
  Fits, fits_tuple, fits_list, AllFit, all_cons, take_consumed, optional_nil-Reads,
}

-- Where the program's two special cases stay out: `any` meets no list, which it leaves unfinished,
-- and a string to compare meets no string.
abbrev WithFound : (Terms → Type 0) → Option Terms → Type 0
WithFound P found = elim found [ none ↦ Unit | some ts ↦ P ts ]

unfoldable mutual
  pub Comparable : Pattern → Term → Type 0
  Comparable any_term t = Listless t
  Comparable (string_value val) t = as_string t ≡ none
  Comparable (tuple_of contained) t = WithFound (ComparableAll contained) (as_tuple t)
  Comparable (list_of val) t = WithFound (ComparableAll val) (as_list t)
  Comparable _ t = Unit

  pub ComparableAll : Patterns → Terms → Type 0
  ComparableAll (and_then p ps) (cons t ts) = Comparable p t × ComparableAll ps ts
  ComparableAll _ _ = Unit

module _ {A : Type 0} {p : Parser A} {g : MsgSeq} where
  match_value-Gives :
      (e : Eq A) (val : A) {o : Option A}
      → Gives p g o
      → Gives (match_value e p val) g (compared e val o)
  match_value-Gives e val {o = none} h = record {
    at = λ rest. bind-none p _ (g ++ rest) (h.at rest);
  }
  match_value-Gives e val {o = some a} h = record {
    at = λ rest. bind-some p _ (g ++ rest) (h.at rest) ∙ ground arith;
  }

  assign_matched-Gives :
      (bound : A → Bound) {o : Option A}
      → Gives p g o
      → Gives (assign_matched bound p) g (assigned bound o)
  assign_matched-Gives bound {o = none} h = record {
    at = λ rest. bind-none p _ (g ++ rest) (h.at rest);
  }
  assign_matched-Gives bound {o = some a} h = record {
    at = λ rest. bind-some p _ (g ++ rest) (h.at rest);
  }

  match_any-Gives : {o : Option A} → Gives p g o → Gives (match_any p) g (kept g o)
  match_any-Gives {o = none} h = record { at = λ rest. rw (match_any, h.at rest) }
  match_any-Gives {o = some a} h = record {
    at = λ rest.
        rw (match_any, h.at rest)
          (ap (λ x. some (bound_bytes x ∷ [], rest)) (take_consumed g rest));
  }

  -- A number of elements is compared before they are matched.
  when_equal-Gives :
      {m n : ℕ} {o : Option A}
      → (m ≡ n → Gives p g o)
      → (m ≢ n → o ≡ none)
      → Gives (when_equal m n p) g o
  when_equal-Gives {m} {n} agree differ = elim (Bool-cases (nat_beq m n)) [
    | inl e ↦ record { at = λ rest. rw (when_equal, e) ((agree (ground arith)).at rest) }
    | inr ne ↦ record { at = λ rest. rw (when_equal, ne, differ (ground arith)) }
  ]

  Gives-bind :
      {B : Type 0} (f : A → Parser B) {a : A} {g' : MsgSeq} {o : Option B}
      → Reads p g a
      → Gives (f a) g' o
      → Gives (p >>= f) (g ++ g') o
  Gives-bind f {g'} h k = record {
    at = λ rest.
        rw (append_assoc g g' rest)
          (bind-some p f (g ++ (g' ++ rest)) (h.at (g' ++ rest)) ∙ k.at rest);
  }

  -- A parser after the last that may fail.
  Gives-last :
      {B : Type 0} (q : Parser B) {g' : MsgSeq} {b : B} {o : Option A}
      → Gives p g o
      → Reads q g' b
      → Gives (p >>= λ a. q >>= λ _. attribute a) (g ++ g') o
  Gives-last q {g'} {o = none} h k = record {
    at =
        λ rest. rw (append_assoc g g' rest) (bind-none p _ (g ++ (g' ++ rest)) (h.at (g' ++ rest)));
  }
  Gives-last q {g'} {o = some a} h k = record {
    at = λ rest. rw (append_assoc g g' rest) (
        bind-some p _ (g ++ (g' ++ rest)) (h.at (g' ++ rest))
        ∙ bind-some q (λ _. attribute a) (g' ++ rest) (k.at rest));
  }

Gives-both :
    {p q : Parser (List Bound)} {g g' : MsgSeq} {o o' : Option (List Bound)}
    → Gives p g o
    → Gives q g' o'
    → Gives (p >>= λ b. q >>= λ bs. attribute (b ++ bs)) (g ++ g') (both o o')
Gives-both {p} {q} {g} {g'} {o = none} h k = record {
  at = λ rest. rw (append_assoc g g' rest) (bind-none p _ (g ++ (g' ++ rest)) (h.at (g' ++ rest)));
}
Gives-both {p} {q} {g} {g'} {o = some b} {o' = none} h k = record {
  at = λ rest. rw (append_assoc g g' rest) (
      bind-some p _ (g ++ (g' ++ rest)) (h.at (g' ++ rest))
      ∙ bind-none q (λ bs. attribute (b ++ bs)) (g' ++ rest) (k.at rest));
}
Gives-both {p} {q} {g} {g'} {o = some b} {o' = some bs} h k = record {
  at = λ rest. rw (append_assoc g g' rest) (
      bind-some p _ (g ++ (g' ++ rest)) (h.at (g' ++ rest))
      ∙ bind-some q (λ bs. attribute (b ++ bs)) (g' ++ rest) (k.at rest));
}

both-none : (o : Option (List Bound)) → both o none ≡ none
both-none none = refl
both-none (some b) = refl

expected_all-ne :
    (sp : Spirit) (ps : Patterns) (ts : Terms)
    → count_patterns ps ≢ count_terms ts
    → expected_all sp ps ts ≡ none
unfolding expected_all count_patterns count_terms
expected_all-ne sp none_left nil ne = absurd (ne refl)
expected_all-ne sp (and_then p ps) (cons t ts) ne =
    ap (both (expected sp p t)) (expected_all-ne sp ps ts (λ e. ne (ap suc e)))
    ∙ both-none (expected sp p t)
expected_all-ne sp none_left (cons t ts) ne = refl
expected_all-ne sp (and_then p ps) nil ne = refl

module _ (sp : Spirit) (char_is_signed : Bool) where
  string_value-Gives :
      (val : MsgSeq) (t : Term)
      → Fits t
      → as_string t ≡ none
      → Gives
          (match_string_value sp char_is_signed val)
          (serialize sp t)
          (compared bytes_eq val (as_string t))
  unfolding match_string_value match_elements Terms.string_head_ext serialize tag_of
  string_value-Gives val (e_string v) h k = absurd (cc k)
  string_value-Gives val t h k =
      refuses_after sp (match_elements sp (create_ints char_is_signed val)) _ t (
        refuses_after sp (Terms.string_head_ext sp) _ t
          (refuses sp Terms.tag_string_ext _ t (ground arith)))

  mutual
    unfolding match expected Comparable serialize tag_of count_patterns count_terms
        Terms.small_tuple_head_ext Terms.list_head_ext Terms.small_tuple_head_g Terms.list_head_g

    match-Gives :
        (p : Pattern) (t : Term)
        → Fits t
        → Comparable p t
        → Gives (match sp char_is_signed p) (serialize sp t) (expected sp p t)
    match-Gives (int_value val) t h k = match_value-Gives nat_eq val (integer-Gives sp t h)
    match-Gives int_assign t h k = assign_matched-Gives bound_int (integer-Gives sp t h)
    match-Gives int_any t h k = match_any-Gives (integer-Gives sp t h)
    match-Gives (pid_value val) t h k = match_value-Gives pid_eq val (pid_ext-Gives sp t h)
    match-Gives pid_assign t h k = assign_matched-Gives bound_pid (pid_ext-Gives sp t h)
    match-Gives pid_any t h k = match_any-Gives (pid_ext-Gives sp t h)
    match-Gives (atom_value val) t h k = match_value-Gives bytes_eq val (atom_ext-Gives sp t h)
    match-Gives atom_assign t h k = assign_matched-Gives bound_atom (atom_ext-Gives sp t h)
    match-Gives atom_any t h k = match_any-Gives (atom_ext-Gives sp t h)
    match-Gives (binary_value val) t h k = match_value-Gives binary_eq val (any_binary-Gives sp t h)
    match-Gives binary_assign t h k = assign_matched-Gives bound_binary (any_binary-Gives sp t h)
    match-Gives binary_any t h k = match_any-Gives (any_binary-Gives sp t h)
    match-Gives (ref_value val) t h k =
        match_value-Gives reference_eq val (new_reference_ext-Gives sp t h)
    match-Gives ref_assign t h k = assign_matched-Gives bound_ref (new_reference_ext-Gives sp t h)
    match-Gives ref_any t h k = match_any-Gives (new_reference_ext-Gives sp t h)
    match-Gives (string_value val) t h k = string_value-Gives val t h k
    match-Gives string_assign t h k =
        assign_matched-Gives bound_string (assign_matched_string-Gives sp t h)
    match-Gives string_any t h k = match_any-Gives (assign_matched_string-Gives sp t h)
    match-Gives any_term t h k = record {
      at = λ rest. bind-some (any_match sp) _ _ (any_match-serialize sp t rest k);
    }
    match-Gives (tuple_of ps) (e_tuple ts) (fits_tuple n hs) k =
        Gives-bind _ (small_tuple_head-Reads sp n)
          (when_equal-Gives (match_all-Gives ps ts hs k) (expected_all-ne sp ps ts))
    match-Gives (tuple_of ps) t h k =
        refuses_after sp (Terms.small_tuple_head_ext sp) _ t
          (refuses sp Terms.tag_small_tuple _ t (ground arith))
    match-Gives (list_of ps) (list ts) (fits_list n hs) k = Gives-bind _ (list_head-Reads sp n) (
        Gives-last (optional_nil sp)
          (when_equal-Gives (match_all-Gives ps ts hs k) (expected_all-ne sp ps ts))
          (optional_nil-Reads sp))
    match-Gives (list_of ps) t h k =
        refuses_after sp (Terms.list_head_ext sp) _ t (refuses sp Terms.tag_list _ t (ground arith))

    match_all-Gives :
        (ps : Patterns) (ts : Terms)
        → AllFit ts
        → ComparableAll ps ts
        → count_patterns ps ≡ count_terms ts
        → Gives (match_all sp char_is_signed ps) (serialize_all sp ts) (expected_all sp ps ts)
    match_all-Gives none_left nil h k e = record { at = λ rest. refl }
    match_all-Gives (and_then p ps) (cons t ts) (all_cons h hs) (k, ks) e =
        Gives-both (match-Gives p t h k) (match_all-Gives ps ts hs ks (omega (arith, e)))
    match_all-Gives none_left (cons t ts) h k e = absurd (omega (arith, e))
    match_all-Gives (and_then p ps) nil h k e = absurd (omega (arith, e))

  -- Matching a pattern against the bytes of a term, whose values fit the format, gives what is
  -- expected of the two, whatever follows: the match succeeds exactly if the pattern fits the term,
  -- stores the values that it names in order, and takes the bytes of the term. Left out are `any`
  -- against a term with lists, and the comparison of a string with a string.
  pub match-expected :
      (p : Pattern) (t : Term) (rest : MsgSeq)
      → Fits t
      → Comparable p t
      → match sp char_is_signed p (serialize sp t ++ rest) ≡ outcome rest (expected sp p t)
  match-expected p t rest h k = (match-Gives p t h k).at rest
