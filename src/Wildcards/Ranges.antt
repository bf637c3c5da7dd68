-- ===== src/Wildcards/Ranges.antt =====
-- What the wildcard of impl/erl_any.cpp keeps, whatever bytes it is run on.
use tinch_pp.Prelude.{
  ℕ, zero, suc, ◌-◌, [], ◌∷◌, ◌++◌, Option, none, some, arith, length, take, All,
}
use tinch_pp.Types.{MsgSeq, IsByte}
use tinch_pp.Spirit.{Spirit, Parser, ◌>>=◌, attribute}
use tinch_pp.Spirit.Yields.{
  Fine, nothing, value, Fine-trans, Fine-if, Leaves-bytes, Yields, Yields-attribute,
  Yields-alternative, Yields-bind, Yields-last, All-take, All-append,
}
use tinch_pp.Strings.Ranges.{assign_matched_string-Yields}
use tinch_pp.Terms.Ranges.{
  FitsBinary, integer-Yields, atom_ext-Yields, pid_ext-Yields, new_reference_ext-Yields,
  small_tuple_head-Yields, list_head-Yields, float_ext-Yields, binary_ext-Yields,
  bit_binary_ext-Yields,
}
use tinch_pp.Binaries.{any_binary}
use tinch_pp.Wildcards.{
  any_match, match_dynamically, dynamic_element_matcher, compound, element_loop, saved,
}

Fine-saved :
    {A : Type 0} {P : A → Type 0} (s : MsgSeq)
    → All IsByte s
    → (o : Option (A × MsgSeq)) → Fine P s o
    → Fine
        (All IsByte)
        s
        (elim o [ none ↦ none | some (ignore, f) ↦ some (take (length s - length f) s, f) ])
Fine-saved s bytes none nothing = nothing
Fine-saved s bytes (some (a, f)) (value h l) = value (All-take (length s - length f) s bytes) l

saved-Yields :
    {A : Type 0} {P : A → Type 0} {p : Parser A} → Yields p P → Yields (saved p) (All IsByte)
saved-Yields {p} h = record { at = λ s bytes. Fine-saved s bytes (p s) (h.at s bytes) }

element_loop-Yields :
    {p : Parser MsgSeq} → Yields p (All IsByte) → (n : ℕ) → Yields (element_loop p n) (All IsByte)
unfolding element_loop
element_loop-Yields h zero = Yields-attribute tt
element_loop-Yields h (suc n) =
    Yields-bind h (λ b x. Yields-last _ (element_loop-Yields h n) (λ bs y. All-append b bs x y))

Fine-compound :
    {P : ℕ → Type 0} {p : Parser MsgSeq} (s : MsgSeq)
    → All IsByte s
    → Yields p (All IsByte)
    → (o : Option (ℕ × MsgSeq)) → Fine P s o
    → Fine (All IsByte) s (elim o [
      | none ↦ none
      | some (n, f) ↦
          (element_loop p n >>= λ elements. attribute (take (length s - length f) s ++ elements)) f
    ])
Fine-compound s bytes k none nothing = nothing
Fine-compound {p} s bytes k (some (n, f)) (value h l) =
    Fine-trans (All IsByte)
      ((element_loop p n >>= λ elements. attribute (take (length s - length f) s ++ elements)) f) l
      ((Yields-last _ (element_loop-Yields k n) (λ bs y.
          All-append (take (length s - length f) s) bs (All-take (length s - length f) s bytes)
            y)).at
        f (Leaves-bytes l bytes))

compound-Yields :
    {P : ℕ → Type 0} {head : Parser ℕ} {p : Parser MsgSeq}
    → Yields head P
    → Yields p (All IsByte)
    → Yields (compound head p) (All IsByte)
unfolding compound
compound-Yields {head} h k = record {
  at = λ s bytes. Fine-compound s bytes k (head s) (h.at s bytes);
}

module _ (sp : Spirit) where
  pub any_binary-Yields : Yields (any_binary sp) FitsBinary
  unfolding any_binary
  any_binary-Yields =
      Yields-alternative (Yields-last _ (binary_ext-Yields sp) (λ v h. (h, omega arith)))
        (bit_binary_ext-Yields sp)

  matcher-Fine :
      (p : Parser MsgSeq) (tag : ℕ) (s : MsgSeq)
      → Yields p (All IsByte)
      → All IsByte s
      → Fine (All IsByte) s (dynamic_element_matcher sp p tag s)
  unfolding dynamic_element_matcher
  matcher-Fine p tag s h bytes = Fine-if _ ((saved-Yields (integer-Yields sp)).at s bytes) (
      Fine-if _ ((saved-Yields (atom_ext-Yields sp)).at s bytes) (
        Fine-if _ ((compound-Yields (small_tuple_head-Yields sp) h).at s bytes) (
          Fine-if _ ((compound-Yields (list_head-Yields sp) h).at s bytes) (
            Fine-if _ ((saved-Yields (assign_matched_string-Yields sp)).at s bytes) (
              Fine-if _ ((saved-Yields (pid_ext-Yields sp)).at s bytes) (
                Fine-if _ ((saved-Yields (new_reference_ext-Yields sp)).at s bytes) (
                  Fine-if _ ((saved-Yields (float_ext-Yields sp)).at s bytes)
                    (Fine-if _ ((saved-Yields any_binary-Yields).at s bytes) nothing))))))))

  dynamically-Fine :
      (fuel : ℕ) (s : MsgSeq) → All IsByte s → Fine (All IsByte) s (match_dynamically sp fuel s)
  unfolding match_dynamically
  dynamically-Fine zero s bytes = nothing
  dynamically-Fine (suc fuel) [] bytes = nothing
  dynamically-Fine (suc fuel) (tag ∷ s) bytes =
      matcher-Fine (match_dynamically sp fuel) tag (tag ∷ s) (record { at = dynamically-Fine fuel })
        bytes

  pub any_match-Yields : Yields (any_match sp) (All IsByte)
  unfolding any_match
  any_match-Yields = record { at = λ s bytes. dynamically-Fine (length s) s bytes }
