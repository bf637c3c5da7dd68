-- ===== src/Wildcards/Takes.antt =====
-- What the wildcard of impl/erl_any.cpp takes of a message.
use tinch_pp.Prelude.{
  ℕ, ◌-◌, suc, ◌^◌, ◌<◌, ◌≤◌, ◌≡◌, ◌∙◌, refl, ap, ◌∷◌, ◌++◌, none, some, arith, length,
  length-append,
}
use tinch_pp.Types.{MsgSeq}
use tinch_pp.Spirit.{Spirit}
use tinch_pp.Spirit.Laws.{regroup, Reads}
use tinch_pp.Terms.{tag_nil_ext, tag_list, list_head_ext, list_head_g}
use tinch_pp.Terms.RoundTrip.{list_head-Reads}
use tinch_pp.Values.{Term, Terms, list, count_terms, serialize, serialize_all}
use tinch_pp.Wildcards.{dynamic_element_matcher, match_dynamically, any_match}
use tinch_pp.Wildcards.Matching.{Listless, AllListless, any-Reads, elements-Reads}
use tinch_pp.Wildcards.Compounds.{compound_of, length-elements, nonempty}

module _ (sp : Spirit) where
  -- A wildcard takes exactly the bytes of a term without lists whose values fit the format, and keeps
  -- them, whatever follows.
  pub any_match-serialize :
      (t : Term) (rest : MsgSeq)
      → Listless t
      → any_match sp (serialize sp t ++ rest) ≡ some (serialize sp t, rest)
  unfolding any_match
  any_match-serialize t rest h =
      (any-Reads sp (length (serialize sp t ++ rest)) t h
          (omega (arith, length-append (serialize sp t) rest))).at
        rest

  list_start-Reads :
      (fuel : ℕ) (ts : Terms)
      → AllListless ts
      → count_terms ts < 2 ^ 32
      → length (list_head_g sp (count_terms ts) ++ serialize_all sp ts) ≤ suc fuel
      → Reads
          (match_dynamically sp (suc fuel))
          (list_head_g sp (count_terms ts) ++ serialize_all sp ts)
          (list_head_g sp (count_terms ts) ++ serialize_all sp ts)
  unfolding list_head_g dynamic_element_matcher
  list_start-Reads fuel ts h c f =
      compound_of sp fuel tag_list (sp.big_dword_g (count_terms ts)) (serialize_all sp ts)
        (count_terms ts) (list_head_ext sp) (omega arith) (λ s. refl) (list_head-Reads sp c)
        (elements-Reads sp fuel ts h (
          length-elements sp fuel tag_list (sp.big_dword_g (count_terms ts)) (serialize_all sp ts)
            f))

  list_start-nonempty : (n : ℕ) (g : MsgSeq) → 0 < length (list_head_g sp n ++ g)
  unfolding list_head_g
  list_start-nonempty n g = nonempty sp tag_list (sp.big_dword_g n) g

  -- Of a list of such terms, a wildcard leaves the last byte, the empty tail, for what follows; and it
  -- refuses an empty list that is written as the empty tail alone.
  pub any_match-leaves_tail :
      (ts : Terms) (rest : MsgSeq)
      → AllListless ts
      → count_terms ts < 2 ^ 32
      → (any_match sp (serialize sp (list ts) ++ rest)
          ≡ some (list_head_g sp (count_terms ts) ++ serialize_all sp ts, tag_nil_ext ∷ rest))
        × (any_match sp (tag_nil_ext ∷ rest) ≡ none)
  unfolding any_match match_dynamically dynamic_element_matcher serialize list_head_g
  any_match-leaves_tail ts rest h c =
      let start = list_head_g sp (count_terms ts) ++ serialize_all sp ts in
      let tail = sp.byte_g tag_nil_ext ++ rest in
      let k = length (start ++ tail) - 1 in
      let l : length (start ++ tail) ≡ suc k = omega (
        arith,
        length-append start tail,
        list_start-nonempty (count_terms ts) (serialize_all sp ts),
      ) in
      (
        ap (any_match sp) (
              regroup (list_head_g sp (count_terms ts)) (serialize_all sp ts)
                (sp.byte_g tag_nil_ext) rest)
            ∙ ap (λ f. match_dynamically sp f (start ++ tail)) l
            ∙ (list_start-Reads k ts h c (omega (arith, l, length-append start tail))).at tail
            ∙ ap (λ x. some (start, x ++ rest)) (sp.byte_g_lem tag_nil_ext),
        refl,
      )
