-- ===== src/Lists/Packing.antt =====
-- A list of bytes comes to the same, packed as a string or not (tinch_pp/erl_list.h).
use tinch_pp.Prelude.{
  ℕ, suc, ◌^◌, ◌<◌, ◌≡◌, ◌∙◌, refl, ap, sym, subst, true, false, List, [], ◌∷◌, ◌++◌, some, arith,
  All, length, if◌then◌else◌,
}
use tinch_pp.Types.{MsgSeq, IsByte, serializable_string}
use tinch_pp.Spirit.{Spirit}
use tinch_pp.Spirit.Laws.{Reads, Reads-bind, Reads-last, byte_lit-Reads}
use tinch_pp.Terms.{integer, tag_nil_ext, tag_string_ext, tag_list, string_ext_g, list_head_g}
use tinch_pp.Terms.RoundTrip.{FitsAtom, list_head-Reads}
use tinch_pp.Strings.{assign_matched_string}
use tinch_pp.Strings.Matching.{assign_matched_string-Reads}
use tinch_pp.Values.{count_terms, serialize, serialize_all}
use tinch_pp.Values.RoundTrip.{integer-Reads}
use tinch_pp.Lists.{
  assign_elements, int_terms, is_packed_as_string, assign_list, serialize_ints, assign_ints,
}

pub count_terms-int_terms : (ns : List ℕ) → count_terms (int_terms ns) ≡ length ns
unfolding count_terms int_terms
count_terms-int_terms [] = refl
count_terms-int_terms (n ∷ ns) = ap suc (count_terms-int_terms ns)

module _ (sp : Spirit) where
  elements-Reads :
      (ns : List ℕ)
      → All (λ n. n < 2 ^ 32) ns
      → Reads (assign_elements (integer sp) (length ns)) (serialize_all sp (int_terms ns)) ns
  unfolding serialize assign_elements int_terms
  elements-Reads [] h = record { at = λ rest. refl }
  elements-Reads (n ∷ ns) (h, hs) =
      Reads-bind _ (integer-Reads sp h) (Reads-last (λ rest. n ∷ rest) (elements-Reads ns hs))

  list-Reads :
      (ns : List ℕ)
      → All (λ n. n < 2 ^ 32) ns
      → length ns < 2 ^ 32
      → Reads (assign_list sp (integer sp)) (serialize_ints sp ns) ns
  unfolding assign_list serialize_ints serialize
  list-Reads ns h l =
      Reads-bind _ (list_head-Reads sp (subst (λ k. k < 2 ^ 32) (sym (count_terms-int_terms ns)) l))
        (Reads-bind _
          (subst (λ k. Reads (assign_elements (integer sp) k) (serialize_all sp (int_terms ns)) ns)
            (sym (count_terms-int_terms ns)) (elements-Reads ns h))
          (Reads-last (λ b. ns) (byte_lit-Reads sp {n = tag_nil_ext} (omega arith))))

  pub packed_start :
      (g rest : MsgSeq) → is_packed_as_string ((sp.byte_g tag_string_ext ++ g) ++ rest) ≡ true
  packed_start g rest = rw (sp.byte_g_lem) (ground arith)

  pub list_start :
      (h g rest : MsgSeq) → is_packed_as_string (((sp.byte_g tag_list ++ h) ++ g) ++ rest) ≡ false
  list_start h g rest = rw (sp.byte_g_lem) (ground arith)

  assign_packed :
      (ns : List ℕ) (rest : MsgSeq)
      → FitsAtom ns
      → assign_ints sp (string_ext_g sp (serializable_string ns) ++ rest) ≡ some (ns, rest)
  unfolding assign_ints string_ext_g
  assign_packed ns rest l =
      ap
        (λ b.
          if b
          then assign_matched_string sp (string_ext_g sp (serializable_string ns) ++ rest)
          else assign_list sp (integer sp) (string_ext_g sp (serializable_string ns) ++ rest))
        (packed_start _ rest)
      ∙ (assign_matched_string-Reads sp ns l).at rest

  -- The variable of a list of 32-bit integers, whose number fits the length field, is assigned exactly
  -- the integers that were written as a list.
  assign_unpacked :
      (ns : List ℕ) (rest : MsgSeq)
      → All (λ n. n < 2 ^ 32) ns
      → length ns < 2 ^ 32
      → assign_ints sp (serialize_ints sp ns ++ rest) ≡ some (ns, rest)
  unfolding assign_ints serialize_ints serialize list_head_g
  assign_unpacked ns rest h l =
      ap
        (λ b.
          if b
          then assign_matched_string sp (serialize_ints sp ns ++ rest)
          else assign_list sp (integer sp) (serialize_ints sp ns ++ rest))
        (list_start _ _ rest)
      ∙ (list-Reads ns h l).at rest

  pub bytes_fit : (ns : List ℕ) → All IsByte ns → All (λ n. n < 2 ^ 32) ns
  bytes_fit [] h = tt
  bytes_fit (n ∷ ns) (h, hs) = (omega (arith, h), bytes_fit ns hs)

  -- A list of bytes of at most 2 ^ 16 - 1 elements is assigned the same from a packed string as from a
  -- list of integers, whatever follows: exactly the bytes that were written.
  pub assign_ints-packed :
      (ns : List ℕ) (rest : MsgSeq)
      → All IsByte ns
      → length ns < 2 ^ 16
      → (assign_ints sp (string_ext_g sp (serializable_string ns) ++ rest)
          ≡ assign_ints sp (serialize_ints sp ns ++ rest))
        × (assign_ints sp (serialize_ints sp ns ++ rest) ≡ some (ns, rest))
  assign_ints-packed ns rest h l =
      let u = assign_unpacked ns rest (bytes_fit ns h) (omega (arith, l)) in
      (assign_packed ns rest l ∙ sym u, u)
