-- ===== src/Strings/Matching.antt =====
-- What matching a string of impl/erl_string.cpp accepts.
use tinch_pp.Prelude.{◌∙◌, refl, [], ◌∷◌, ◌++◌, subst, sym, length}
use tinch_pp.Types.{MsgSeq, serializable_string}
use tinch_pp.Spirit.{Spirit, ◌>>=◌, attribute}
use tinch_pp.Spirit.Laws.{Reads, Reads-bind, Reads-regroup, bind-some}
use tinch_pp.Terms.{string_ext_g, tag_string_ext}
use tinch_pp.Terms.RoundTrip.{string_head-Reads, FitsAtom}
use tinch_pp.Strings.{assign_loop, assign_matched_string}

module _ (sp : Spirit) where
  assign_loop-Reads : (s : MsgSeq) → Reads (assign_loop sp (length s)) s s
  unfolding assign_loop
  assign_loop-Reads [] = record { at = λ rest. refl }
  assign_loop-Reads (c ∷ s) = record {
    at = λ rest.
        bind-some sp.byte_ (λ x. assign_loop sp (length s) >>= λ r. attribute (x ∷ r))
          (c ∷ (s ++ rest)) (sp.byte_-cons c (s ++ rest))
        ∙ bind-some (assign_loop sp (length s)) (λ r. attribute (c ∷ r)) (s ++ rest)
            ((assign_loop-Reads s).at rest);
  }

  -- A string variable is assigned the characters of the string that was written.
  pub assign_matched_string-Reads :
      (s : MsgSeq)
      → FitsAtom s
      → Reads (assign_matched_string sp) (string_ext_g sp (serializable_string s)) s
  unfolding assign_matched_string string_ext_g
  assign_matched_string-Reads s h =
      Reads-regroup (sp.byte_g tag_string_ext) (sp.big_word_g (length s)) (sp.string_g s) (
        Reads-bind (assign_loop sp) (string_head-Reads sp h) (
          subst (λ g. Reads (assign_loop sp (length s)) g s) (sym (sp.string_g_lem s))
            (assign_loop-Reads s)))
