-- ===== src/Wildcards/Compounds.antt =====
-- What each entry of the table of impl/erl_any.cpp reads.
use tinch_pp.Prelude.{
  ℕ, zero, suc, ◌-◌, ◌<◌, ◌≤◌, ◌≡◌, ◌∙◌, ap, [], ◌∷◌, ◌++◌, Option, none, some, arith, subst, sym,
  length, length-append, take, append_assoc,
}
use tinch_pp.Types.{MsgSeq}
use tinch_pp.Spirit.{Spirit, Parser, ◌>>=◌, attribute}
use tinch_pp.Spirit.Laws.{Reads, bind-some}
use tinch_pp.Values.RoundTrip.{take_consumed}
use tinch_pp.Wildcards.{saved, element_loop, compound, dynamic_element_matcher, match_dynamically}

pub saved-Reads :
    {A : Type 0} {p : Parser A} {g : MsgSeq} {a : A} → Reads p g a → Reads (saved p) g g
saved-Reads {p = p} {g = g} h = record {
  at = λ rest. rw (saved, h.at rest) (ap (λ x. some (x, rest)) (take_consumed g rest));
}

module _ (sp : Spirit) where
  -- The tag that a term's bytes start with is looked up.
  tagged :
      (fuel tag : ℕ) (g : MsgSeq) (p : Parser MsgSeq)
      → ((s : MsgSeq) → dynamic_element_matcher sp (match_dynamically sp fuel) tag s ≡ p s)
      → Reads p (tag ∷ g) (tag ∷ g)
      → Reads (match_dynamically sp (suc fuel)) (tag ∷ g) (tag ∷ g)
  unfolding match_dynamically
  tagged fuel tag g p e h = record { at = λ rest. e (tag ∷ (g ++ rest)) ∙ h.at rest }

  -- A generator that starts with a tag.
  pub starts_with :
      (fuel tag : ℕ) (g : MsgSeq) (p : Parser MsgSeq)
      → tag < 256
      → ((s : MsgSeq) → dynamic_element_matcher sp (match_dynamically sp fuel) tag s ≡ p s)
      → Reads p (sp.byte_g tag ++ g) (sp.byte_g tag ++ g)
      → Reads (match_dynamically sp (suc fuel)) (sp.byte_g tag ++ g) (sp.byte_g tag ++ g)
  starts_with fuel tag g p l e h =
      let b : sp.byte_g tag ≡ tag ∷ [] = sp.byte_g_lem tag ∙ ap (λ n. n ∷ []) (omega (arith, l)) in
      subst (λ x. Reads (match_dynamically sp (suc fuel)) (x ++ g) (x ++ g)) (sym b)
        (tagged fuel tag g p e (subst (λ x. Reads p (x ++ g) (x ++ g)) b h))

  pub leaf :
      (fuel tag : ℕ) (g : MsgSeq) {A : Type 0} {p : Parser A} {a : A}
      → tag < 256
      → ((k : ℕ) (s : MsgSeq)
          → dynamic_element_matcher sp (match_dynamically sp k) tag s ≡ saved p s)
      → Reads p (sp.byte_g tag ++ g) a
      → length (sp.byte_g tag ++ g) ≤ fuel
      → Reads (match_dynamically sp fuel) (sp.byte_g tag ++ g) (sp.byte_g tag ++ g)
  leaf zero tag g l e h f = absurd (omega (arith, f, ap (λ x. length (x ++ g)) (sp.byte_g_lem tag)))
  leaf (suc fuel) tag g {p = p} l e h f =
      starts_with fuel tag g (saved p) l (e fuel) (saved-Reads h)

  -- The same for bytes that are known to have that form.
  pub leaf_of :
      (fuel tag : ℕ) (g g' : MsgSeq) {A : Type 0} {p : Parser A} {a : A}
      → g' ≡ sp.byte_g tag ++ g
      → tag < 256
      → ((k : ℕ) (s : MsgSeq)
          → dynamic_element_matcher sp (match_dynamically sp k) tag s ≡ saved p s)
      → Reads p g' a
      → length g' ≤ fuel
      → Reads (match_dynamically sp fuel) g' g'
  leaf_of fuel tag g g' {p = p} {a = a} q l e h f =
      subst (λ x. Reads (match_dynamically sp fuel) x x) (sym q)
        (leaf fuel tag g l e (subst (λ x. Reads p x a) q h) (subst (λ x. length x ≤ fuel) q f))

  compound-at :
      (head : Parser ℕ) (p : Parser MsgSeq) (s f h g rest : MsgSeq) (n : ℕ)
      → head s ≡ some (n, f)
      → element_loop p n f ≡ some (g, rest)
      → take (length s - length f) s ≡ h
      → compound head p s ≡ some (h ++ g, rest)
  unfolding compound
  compound-at head p s f h g rest n e b t =
      ap
        (λ o. elim o as (λ _. Option (MsgSeq × MsgSeq)) [
          | none ↦ none
          | some (parsed_length, f') ↦
              (element_loop p parsed_length >>= λ elements.
              attribute (take (length s - length f') s ++ elements))
                f'
        ])
        e
      ∙ bind-some (element_loop p n)
          (λ elements. attribute (take (length s - length f) s ++ elements)) f b
      ∙ ap (λ x. some (x ++ g, rest)) t

  compound-Reads :
      (head : Parser ℕ) (p : Parser MsgSeq) (h g : MsgSeq) (n : ℕ)
      → Reads head h n
      → Reads (element_loop p n) g g
      → Reads (compound head p) (h ++ g) (h ++ g)
  compound-Reads head p h g n a b = record {
    at = λ rest. rw (append_assoc h g rest) (
        compound-at head p (h ++ (g ++ rest)) (g ++ rest) h g rest n (a.at (g ++ rest)) (b.at rest)
          (take_consumed h (g ++ rest)));
  }

  -- A tuple or a list, after whose elements nothing more is read.
  pub compound_of :
      (fuel tag : ℕ) (h0 g : MsgSeq) (n : ℕ) (head : Parser ℕ)
      → tag < 256
      → ((s : MsgSeq)
          → dynamic_element_matcher sp (match_dynamically sp fuel) tag s
            ≡ compound head (match_dynamically sp fuel) s)
      → Reads head (sp.byte_g tag ++ h0) n
      → Reads (element_loop (match_dynamically sp fuel) n) g g
      → Reads
          (match_dynamically sp (suc fuel))
          ((sp.byte_g tag ++ h0) ++ g)
          ((sp.byte_g tag ++ h0) ++ g)
  compound_of fuel tag h0 g n head l e a b =
      subst (λ x. Reads (match_dynamically sp (suc fuel)) x x)
        (sym (append_assoc (sp.byte_g tag) h0 g))
        (starts_with fuel tag (h0 ++ g) (compound head (match_dynamically sp fuel)) l e (
          subst (λ x. Reads (compound head (match_dynamically sp fuel)) x x)
            (append_assoc (sp.byte_g tag) h0 g)
            (compound-Reads head (match_dynamically sp fuel) (sp.byte_g tag ++ h0) g n a b)))

  -- The bytes of the head leave a round for the elements.
  pub length-elements :
      (fuel tag : ℕ) (h0 g : MsgSeq)
      → length ((sp.byte_g tag ++ h0) ++ g) ≤ suc fuel
      → length g ≤ fuel
  length-elements fuel tag h0 g f = omega (
    arith,
    f,
    length-append (sp.byte_g tag ++ h0) g,
    length-append (sp.byte_g tag) h0,
    ap length (sp.byte_g_lem tag),
  )

  pub nonempty : (tag : ℕ) (h0 g : MsgSeq) → 0 < length ((sp.byte_g tag ++ h0) ++ g)
  nonempty tag h0 g = omega (
    arith,
    length-append (sp.byte_g tag ++ h0) g,
    length-append (sp.byte_g tag) h0,
    ap length (sp.byte_g_lem tag),
  )
