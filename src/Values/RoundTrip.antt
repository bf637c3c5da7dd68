-- ===== src/Values/RoundTrip.antt =====
-- Patterns of impl/erlang_value_types.cpp and tinch_pp/erl_tuple.h against terms as they are written.
use tinch_pp.Prelude.{
  ℕ, suc, ◌-◌, ◌^◌, ◌<◌, ◌≡◌, ◌∙◌, refl, ap, Bool, List, [], ◌∷◌, ◌++◌, none, some, leb, arith,
  subst, nat_eq, bytes_eq, if◌then◌else◌, length, Eq, beq_refl, take, take-append_length,
  length-append, inl, inr, Bool-cases, ltb,
}
use tinch_pp.Types.{MsgSeq, EPid, BinaryValue, NewReference, pid_eq, binary_eq, reference_eq}
use tinch_pp.Spirit.{Spirit, Parser}
use tinch_pp.Spirit.Laws.{
  Reads, Reads-bind, Reads-last, Reads-left, Reads-right, bind-some, bind-none, byte_lit-Reads,
}
use tinch_pp.Terms.{integer, binary_ext, bit_binary_ext, tag_nil_ext}
use tinch_pp.Terms.RoundTrip.{
  FitsAtom, FitsPid, FitsReference, atom_ext-Reads, pid_ext-Reads, new_reference_ext-Reads,
  small_tuple_head-Reads, list_head-Reads, binary_ext-Reads, bit_binary_ext-Reads,
  binary_ext-bit_binary_ext_g, integer-small_integer_g, integer-integer_ext_g,
}
use tinch_pp.Strings.Matching.{assign_matched_string-Reads}
use tinch_pp.Binaries.{any_binary}
use tinch_pp.Values.{
  Term, Terms, int_, pid, atom, binary, ref, e_string, e_tuple, list, nil, cons, Pattern, Patterns,
  int_assign, pid_assign, atom_assign, binary_assign, ref_assign, string_assign, tuple_of, list_of,
  none_left, and_then, Bound, bound_int, bound_pid, bound_atom, bound_binary, bound_ref,
  bound_string, bound_bytes, count_terms, count_patterns, serialize, serialize_all, serialize_int,
  serialize_binary, match, match_all, match_value, assign_matched, match_any, optional_nil,
  when_equal,
}

pub take_consumed : (g rest : MsgSeq) → take (length (g ++ rest) - length rest) (g ++ rest) ≡ g
take_consumed g rest =
    subst (λ n. take n (g ++ rest) ≡ g) {x = length g} (omega (arith, length-append g rest))
      (take-append_length g rest)

module _ {A : Type 0} {p : Parser A} {g : MsgSeq} {a : A} where
  pub match_value-Reads : (e : Eq A) → Reads p g a → Reads (match_value e p a) g []
  match_value-Reads e h = record {
    at = λ rest.
        bind-some p (λ res s. if e.beq a res then some ([], s) else none) (g ++ rest) (h.at rest)
        ∙ rw (beq_refl e a);
  }

  pub assign_matched-Reads :
      (bound : A → Bound) → Reads p g a → Reads (assign_matched bound p) g (bound a ∷ [])
  assign_matched-Reads bound h = Reads-last (λ x. bound x ∷ []) h

  -- `any` keeps exactly the bytes that were written.
  pub match_any-Reads : Reads p g a → Reads (match_any p) g (bound_bytes g ∷ [])
  match_any-Reads h = record {
    at = λ rest.
        rw (match_any, h.at rest)
          (ap (λ x. some (bound_bytes x ∷ [], rest)) (take_consumed g rest));
  }

  pub when_equal-Reads : {m n : ℕ} → m ≡ n → Reads p g a → Reads (when_equal m n p) g a
  when_equal-Reads {m} {n} e h = record {
    at = λ rest. rw (when_equal, e, beq_refl nat_eq n) (h.at rest);
  }

module _ (sp : Spirit) where
  pub integer-Reads : {n : ℕ} → n < 2 ^ 32 → Reads (integer sp) (serialize_int sp n) n
  unfolding serialize_int
  integer-Reads {n} h = elim (Bool-cases (leb n 255)) [
    | inl small ↦ rw small (integer-small_integer_g sp (ground arith))
    | inr large ↦ rw large (integer-integer_ext_g sp h)
  ]

  pub any_binary-Reads :
      {v : BinaryValue}
      → length v.value < 2 ^ 32
      → v.padding_bits < 256
      → Reads (any_binary sp) (serialize_binary sp v) v
  unfolding any_binary serialize_binary
  any_binary-Reads {v} h k = elim (Bool-cases (ltb 0 v.padding_bits)) [
    | inl padded ↦ rw padded (
        Reads-right _
          (λ rest. bind-none (binary_ext sp) _ _ (binary_ext-bit_binary_ext_g sp _ rest))
          (bit_binary_ext-Reads sp {v = v} h k))
    | inr whole ↦ rw whole (
        Reads-left (bit_binary_ext sp) (
          subst (Reads _ _) {x = record { padding_bits = 0; value = v.value }} (ground arith)
            (Reads-last (λ w. record { padding_bits = 0; value = w }) (binary_ext-Reads sp h))))
  ]

  pub optional_nil-Reads : Reads (optional_nil sp) (sp.byte_g tag_nil_ext) tt
  unfolding optional_nil
  optional_nil-Reads = record {
    at = λ rest. rw (optional_nil, (byte_lit-Reads sp {n = tag_nil_ext} (omega arith)).at rest);
  }

-- The pattern that has a variable for each value of a term, and what it stores.
unfoldable mutual
  pub shape : Term → Pattern
  shape (int_ val) = int_assign
  shape (pid val) = pid_assign
  shape (atom val) = atom_assign
  shape (binary val) = binary_assign
  shape (ref val) = ref_assign
  shape (e_string val) = string_assign
  shape (e_tuple contained) = tuple_of (shapes contained)
  shape (list val) = list_of (shapes val)

  pub shapes : Terms → Patterns
  shapes nil = none_left
  shapes (cons t ts) = and_then (shape t) (shapes ts)

unfoldable mutual
  pub leaves : Term → List Bound
  leaves (int_ val) = bound_int val ∷ []
  leaves (pid val) = bound_pid val ∷ []
  leaves (atom val) = bound_atom val ∷ []
  leaves (binary val) = bound_binary val ∷ []
  leaves (ref val) = bound_ref val ∷ []
  leaves (e_string val) = bound_string val ∷ []
  leaves (e_tuple contained) = all_leaves contained
  leaves (list val) = all_leaves val

  pub all_leaves : Terms → List Bound
  all_leaves nil = []
  all_leaves (cons t ts) = leaves t ++ all_leaves ts

-- Each value fits its field of the format.
mutual
  pub data Fits : Term → Type 0 where
    fits_int : {val : ℕ} → val < 2 ^ 32 → Fits (int_ val)
    fits_pid : {val : EPid} → FitsPid val → Fits (pid val)
    fits_atom : {val : MsgSeq} → FitsAtom val → Fits (atom val)
    fits_binary :
        {val : BinaryValue} → length val.value < 2 ^ 32 → val.padding_bits < 256 → Fits (binary val)
    fits_ref : {val : NewReference} → FitsReference val → Fits (ref val)
    fits_string : {val : MsgSeq} → FitsAtom val → Fits (e_string val)
    fits_tuple :
        {contained : Terms}
        → count_terms contained < 256
        → AllFit contained
        → Fits (e_tuple contained)
    fits_list : {val : Terms} → count_terms val < 2 ^ 32 → AllFit val → Fits (list val)

  pub data AllFit : Terms → Type 0 where
    all_nil : AllFit nil
    all_cons : {t : Term} {ts : Terms} → Fits t → AllFit ts → AllFit (cons t ts)

count_patterns-shapes : (ts : Terms) → count_patterns (shapes ts) ≡ count_terms ts
unfolding count_patterns count_terms shapes
count_patterns-shapes nil = refl
count_patterns-shapes (cons t ts) = ap suc (count_patterns-shapes ts)

module _ (sp : Spirit) (char_is_signed : Bool) where
  mutual
    unfolding serialize match shape leaves

    Reads-shape :
        (t : Term) → Fits t → Reads (match sp char_is_signed (shape t)) (serialize sp t) (leaves t)
    Reads-shape (int_ val) (fits_int h) = assign_matched-Reads bound_int (integer-Reads sp h)
    Reads-shape (pid val) (fits_pid h) = assign_matched-Reads bound_pid (pid_ext-Reads sp h)
    Reads-shape (atom val) (fits_atom h) = assign_matched-Reads bound_atom (atom_ext-Reads sp h)
    Reads-shape (binary val) (fits_binary h k) =
        assign_matched-Reads bound_binary (any_binary-Reads sp h k)
    Reads-shape (ref val) (fits_ref h) =
        assign_matched-Reads bound_ref (new_reference_ext-Reads sp h)
    Reads-shape (e_string val) (fits_string h) =
        assign_matched-Reads bound_string (assign_matched_string-Reads sp val h)
    Reads-shape (e_tuple contained) (fits_tuple h k) =
        Reads-bind _ (small_tuple_head-Reads sp h)
          (when_equal-Reads (count_patterns-shapes contained) (Reads-shapes contained k))
    Reads-shape (list val) (fits_list h k) = Reads-bind _ (list_head-Reads sp h) (
        Reads-bind _ (when_equal-Reads (count_patterns-shapes val) (Reads-shapes val k))
          (Reads-last (λ _. all_leaves val) (optional_nil-Reads sp)))

    Reads-shapes :
        (ts : Terms)
        → AllFit ts
        → Reads (match_all sp char_is_signed (shapes ts)) (serialize_all sp ts) (all_leaves ts)
    Reads-shapes nil all_nil = record { at = λ rest. refl }
    Reads-shapes (cons t ts) (all_cons h k) =
        Reads-bind _ (Reads-shape t h) (Reads-last (λ bs. leaves t ++ bs) (Reads-shapes ts k))

  -- The pattern of variables that has the form of a term, whose values fit the format, matches what
  -- is written for the term, whatever follows: it takes exactly those bytes and stores exactly the
  -- values.
  pub match-serialize :
      (t : Term) (rest : MsgSeq)
      → Fits t
      → match sp char_is_signed (shape t) (serialize sp t ++ rest) ≡ some (leaves t, rest)
  match-serialize t rest h = (Reads-shape t h).at rest
