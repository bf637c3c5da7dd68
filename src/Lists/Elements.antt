-- ===== src/Lists/Elements.antt =====
-- A pattern of integers of tinch_pp/erl_list.h against a list of bytes, packed and as a list.
use tinch_pp.Prelude.{
  ℕ, ◌^◌, ◌<◌, ◌≡◌, ◌∙◌, ap, sym, subst, Bool, true, false, List, [], ◌∷◌, ◌++◌, none, some, arith,
  All, length, if◌then◌else◌,
}
use tinch_pp.Types.{MsgSeq, IsByte, serializable_string}
use tinch_pp.Spirit.{Spirit, Parser, ◌>>=◌, attribute}
use tinch_pp.Spirit.Laws.{bind-some, bind-none}
use tinch_pp.Terms.{string_ext_g, list_head_g}
use tinch_pp.Strings.{IntObject, int_of, int_to, int_with_any, match_elements}
use tinch_pp.Strings.Packed.{all_differ, match_elements-packed}
use tinch_pp.Values.{Bound, list, list_of, serialize, match}
use tinch_pp.Values.Agreement.{Comparable, ComparableAll, match-expected}
use tinch_pp.Values.Expected.{expected}
use tinch_pp.Values.Refusals.{outcome}
use tinch_pp.Values.RoundTrip.{fits_int, fits_list, AllFit, all_nil, all_cons}
use tinch_pp.Lists.{int_terms, int_patterns, serialize_ints, match_ints}
use tinch_pp.Lists.Packing.{count_terms-int_terms, packed_start, list_start, bytes_fit}

int_terms-Comparable :
    (elements : List IntObject) (ns : List ℕ) → ComparableAll (int_patterns elements) (int_terms ns)
unfolding ComparableAll int_patterns int_terms
int_terms-Comparable [] [] = tt
int_terms-Comparable [] (n ∷ ns) = tt
int_terms-Comparable (element ∷ elements) [] = tt
int_terms-Comparable (int_of val ∷ elements) (n ∷ ns) = (tt, int_terms-Comparable elements ns)
int_terms-Comparable (int_to ∷ elements) (n ∷ ns) = (tt, int_terms-Comparable elements ns)
int_terms-Comparable (int_with_any ∷ elements) (n ∷ ns) = (tt, int_terms-Comparable elements ns)

int_terms-Fits : (ns : List ℕ) → All (λ n. n < 2 ^ 32) ns → AllFit (int_terms ns)
unfolding int_terms
int_terms-Fits [] h = all_nil
int_terms-Fits (n ∷ ns) (h, hs) = all_cons (fits_int h) (int_terms-Fits ns hs)

without_value :
    (p : Parser (Unit {0})) (b : Bool) (s rest : MsgSeq)
    → p s ≡ (if b then some (tt, rest) else none)
    → (p >>= λ _. attribute {A = List Bound} []) s ≡ (if b then some ([], rest) else none)
without_value p true s rest e = bind-some p (λ _. attribute []) s e
without_value p false s rest e = bind-none p (λ _. attribute []) s e

module _ (sp : Spirit) (char_is_signed : Bool) where
  match_packed :
      (elements : List IntObject) (ns : List ℕ) (rest : MsgSeq)
      → length ns < 2 ^ 16
      → match_ints sp char_is_signed elements (string_ext_g sp (serializable_string ns) ++ rest)
        ≡ (if all_differ elements ns then some ([], rest) else none)
  unfolding match_ints string_ext_g
  match_packed elements ns rest l =
      let s = string_ext_g sp (serializable_string ns) ++ rest in
      ap
        (λ b.
          if b
          then (match_elements sp elements >>= λ _. attribute []) s
          else match sp char_is_signed (list_of (int_patterns elements)) s)
        (packed_start sp _ rest)
      ∙ without_value (match_elements sp elements) (all_differ elements ns) s rest
          (match_elements-packed sp elements ns rest l)

  match_unpacked :
      (elements : List IntObject) (ns : List ℕ) (rest : MsgSeq)
      → All IsByte ns
      → length ns < 2 ^ 16
      → match_ints sp char_is_signed elements (serialize_ints sp ns ++ rest)
        ≡ outcome rest (expected sp (list_of (int_patterns elements)) (list (int_terms ns)))
  unfolding match_ints serialize_ints serialize list_head_g Comparable
  match_unpacked elements ns rest h l =
      ap
        (λ b.
          if b
          then (match_elements sp elements >>= λ _. attribute []) (serialize_ints sp ns ++ rest)
          else match sp char_is_signed (list_of (int_patterns elements))
              (serialize_ints sp ns ++ rest))
        (list_start sp _ _ rest)
      ∙ match-expected sp char_is_signed (list_of (int_patterns elements)) (list (int_terms ns))
          rest
          (fits_list (subst (λ k. k < 2 ^ 32) (sym (count_terms-int_terms ns)) (omega (arith, l)))
            (int_terms-Fits ns (bytes_fit sp ns h)))
          (int_terms-Comparable elements ns)

  -- A pattern of integers meets a list of bytes of at most 2 ^ 16 - 1 elements in two forms. Written
  -- as a list, the match gives what is expected of the elements. Packed as a string, the match
  -- succeeds exactly if there are as many elements as bytes, no element has a variable, and each
  -- differs from its byte; and it stores nothing. An element with `any` counts as 0.
  pub match_ints-forms :
      (elements : List IntObject) (ns : List ℕ) (rest : MsgSeq)
      → All IsByte ns
      → length ns < 2 ^ 16
      → (match_ints sp char_is_signed elements (serialize_ints sp ns ++ rest)
          ≡ outcome rest (expected sp (list_of (int_patterns elements)) (list (int_terms ns))))
        × (match_ints sp char_is_signed elements (string_ext_g sp (serializable_string ns) ++ rest)
            ≡ (if all_differ elements ns then some ([], rest) else none))
  match_ints-forms elements ns rest h l =
      (match_unpacked elements ns rest h l, match_packed elements ns rest l)
