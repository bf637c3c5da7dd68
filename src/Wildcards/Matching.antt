-- ===== src/Wildcards/Matching.antt =====
-- The wildcard of impl/erl_any.cpp against terms as they are written.
use tinch_pp.Prelude.{
  ℕ, zero, suc, ◌^◌, ◌<◌, ◌≤◌, refl, ap, ◌++◌, arith, length, length-append, if◌then◌else◌, leb,
  ltb, inl, inr, Bool-cases,
}
use tinch_pp.Types.{
  MsgSeq, EPid, BinaryValue, NewReference, serializable_bit_seq, serializable_string,
}
use tinch_pp.Spirit.{Spirit}
use tinch_pp.Spirit.Laws.{Reads, Reads-bind, Reads-last}
use tinch_pp.Terms
use tinch_pp.Terms.{
  tag_nil_ext, small_tuple_head_ext, list_head_ext, small_tuple_head_g, list_head_g,
}
use tinch_pp.Terms.RoundTrip.{
  FitsAtom, FitsPid, FitsReference, atom_ext-Reads, pid_ext-Reads, new_reference_ext-Reads,
  small_tuple_head-Reads,
}
use tinch_pp.Strings.Matching.{assign_matched_string-Reads}
use tinch_pp.Values.{
  Term, Terms, int_, pid, atom, binary, ref, e_string, e_tuple, list, nil, cons, count_terms,
  serialize, serialize_all, serialize_int, serialize_binary,
}
use tinch_pp.Values.RoundTrip.{integer-Reads, any_binary-Reads}
use tinch_pp.Wildcards.{element_loop, dynamic_element_matcher, match_dynamically}
use tinch_pp.Wildcards.Compounds.{leaf, leaf_of, compound_of, length-elements, nonempty}

-- Terms without lists, whose values fit the format, and how deep they are.
mutual
  pub data Listless : Term → Type 0 where
    plain_int : {val : ℕ} → val < 2 ^ 32 → Listless (int_ val)
    plain_pid : {val : EPid} → FitsPid val → Listless (pid val)
    plain_atom : {val : MsgSeq} → FitsAtom val → Listless (atom val)
    plain_binary :
        {val : BinaryValue}
        → length val.value < 2 ^ 32
        → val.padding_bits < 256
        → Listless (binary val)
    plain_ref : {val : NewReference} → FitsReference val → Listless (ref val)
    plain_string : {val : MsgSeq} → FitsAtom val → Listless (e_string val)
    plain_tuple :
        {contained : Terms}
        → count_terms contained < 256
        → AllListless contained
        → Listless (e_tuple contained)

  pub data AllListless : Terms → Type 0 where
    no_more : AllListless nil
    one_more : {t : Term} {ts : Terms} → Listless t → AllListless ts → AllListless (cons t ts)

module _ (sp : Spirit) where
  int-Reads :
      (fuel val : ℕ)
      → val < 2 ^ 32
      → length (serialize_int sp val) ≤ fuel
      → Reads (match_dynamically sp fuel) (serialize_int sp val) (serialize_int sp val)
  unfolding serialize_int dynamic_element_matcher Terms.small_integer_g Terms.integer_ext_g
  int-Reads fuel val h f = elim (Bool-cases (leb val 255)) [
    | inl small ↦
        leaf_of sp fuel Terms.tag_small_integer (sp.byte_g val) (serialize_int sp val)
          (ap (λ b. if b then Terms.small_integer_g sp val else Terms.integer_ext_g sp val) small)
          (omega arith) (λ k s. refl) (integer-Reads sp h) f
    | inr large ↦
        leaf_of sp fuel Terms.tag_integer (sp.big_dword_g val) (serialize_int sp val)
          (ap (λ b. if b then Terms.small_integer_g sp val else Terms.integer_ext_g sp val) large)
          (omega arith) (λ k s. refl) (integer-Reads sp h) f
  ]

  binary-Reads :
      (fuel : ℕ) (val : BinaryValue)
      → length val.value < 2 ^ 32
      → val.padding_bits < 256
      → length (serialize_binary sp val) ≤ fuel
      → Reads (match_dynamically sp fuel) (serialize_binary sp val) (serialize_binary sp val)
  unfolding serialize_binary dynamic_element_matcher Terms.binary_ext_g Terms.bit_binary_ext_g
  binary-Reads fuel val h k f = elim (Bool-cases (ltb 0 val.padding_bits)) [
    | inl padded ↦
        leaf_of sp fuel Terms.tag_bit_binary_ext _ (serialize_binary sp val)
          (ap
            (λ b.
              if b
              then Terms.bit_binary_ext_g sp (serializable_bit_seq val.value val.padding_bits)
              else Terms.binary_ext_g sp (serializable_string val.value))
            padded)
          (omega arith) (λ k s. refl) (any_binary-Reads sp h k) f
    | inr whole ↦
        leaf_of sp fuel Terms.tag_binary_ext _ (serialize_binary sp val)
          (ap
            (λ b.
              if b
              then Terms.bit_binary_ext_g sp (serializable_bit_seq val.value val.padding_bits)
              else Terms.binary_ext_g sp (serializable_string val.value))
            whole)
          (omega arith) (λ k s. refl) (any_binary-Reads sp h k) f
  ]

  mutual
    unfolding serialize element_loop dynamic_element_matcher small_tuple_head_g count_terms
        Terms.pid_ext_g Terms.atom_ext_g Terms.new_reference_ext_g Terms.string_ext_g

    pub any-Reads :
        (fuel : ℕ) (t : Term)
        → Listless t
        → length (serialize sp t) ≤ fuel
        → Reads (match_dynamically sp fuel) (serialize sp t) (serialize sp t)
    any-Reads fuel (int_ val) (plain_int h) f = int-Reads fuel val h f
    any-Reads fuel (pid val) (plain_pid h) f =
        leaf sp fuel Terms.tag_pid _ (omega arith) (λ k s. refl) (pid_ext-Reads sp h) f
    any-Reads fuel (atom val) (plain_atom h) f =
        leaf sp fuel Terms.tag_atom_ext _ (omega arith) (λ k s. refl) (atom_ext-Reads sp h) f
    any-Reads fuel (binary val) (plain_binary h k) f = binary-Reads fuel val h k f
    any-Reads fuel (ref val) (plain_ref h) f =
        leaf sp fuel Terms.tag_new_reference_ext _ (omega arith) (λ k s. refl)
          (new_reference_ext-Reads sp h) f
    any-Reads fuel (e_string val) (plain_string h) f =
        leaf sp fuel Terms.tag_string_ext _ (omega arith) (λ k s. refl)
          (assign_matched_string-Reads sp val h) f
    any-Reads fuel (list val) x f = elim x [ ]
    any-Reads zero (e_tuple contained) (plain_tuple h k) f = absurd (
        omega (
          arith,
          f,
          nonempty sp Terms.tag_small_tuple (sp.byte_g (count_terms contained))
              (serialize_all sp contained),
        ))
    any-Reads (suc fuel) (e_tuple contained) (plain_tuple h k) f =
        compound_of sp fuel Terms.tag_small_tuple (sp.byte_g (count_terms contained))
          (serialize_all sp contained) (count_terms contained) (small_tuple_head_ext sp)
          (omega arith) (λ s. refl) (small_tuple_head-Reads sp h)
          (elements-Reads fuel contained k (
            length-elements sp fuel Terms.tag_small_tuple (sp.byte_g (count_terms contained))
              (serialize_all sp contained) f))

    pub elements-Reads :
        (fuel : ℕ) (ts : Terms)
        → AllListless ts
        → length (serialize_all sp ts) ≤ fuel
        → Reads
            (element_loop (match_dynamically sp fuel) (count_terms ts))
            (serialize_all sp ts)
            (serialize_all sp ts)
    elements-Reads fuel nil no_more f = record { at = λ rest. refl }
    elements-Reads fuel (cons t ts) (one_more h k) f =
        Reads-bind _
          (any-Reads fuel t h
            (omega (arith, f, length-append (serialize sp t) (serialize_all sp ts))))
          (Reads-last (λ bs. serialize sp t ++ bs)
            (elements-Reads fuel ts k
              (omega (arith, f, length-append (serialize sp t) (serialize_all sp ts)))))
