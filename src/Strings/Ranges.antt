-- ===== src/Strings/Ranges.antt =====
-- What the matching of strings in impl/erl_string.cpp returns, whatever bytes it is run on.
use tinch_pp.Prelude.{
  ℕ, zero, suc, ◌≡◌, Bool, true, false, List, [], ◌∷◌, Option, none, some, arith, length, All,
  nat_beq, if◌then◌else◌,
}
use tinch_pp.Types.{MsgSeq, IsByte}
use tinch_pp.Spirit.{Spirit, Parser}
use tinch_pp.Spirit.Yields.{
  Fine, nothing, value, Fine-trans, Leaves-bytes, Yields, Yields-attribute, Yields-bind,
  Yields-last, Yields-mono, Yields-if, Yields-unless, byte_-Yields,
}
use tinch_pp.Strings.{
  IntObject, val_of, should_assign, match_elements, find_if_at_end, match_string_element,
  assign_matched_string, assign_loop,
}
use tinch_pp.Terms.Ranges.{string_head-Yields}
use tinch_pp.Terms.RoundTrip.{FitsAtom}

abbrev Anything : Unit {0} → Type 0
Anything _ = Unit

module _ (sp : Spirit) where
  assign_loop-Yields : (n : ℕ) → Yields (assign_loop sp n) (λ s. length s ≡ n)
  unfolding assign_loop
  assign_loop-Yields zero = Yields-attribute (omega arith)
  assign_loop-Yields (suc n) =
      Yields-bind (byte_-Yields sp)
        (λ b _. Yields-last _ (assign_loop-Yields n) (λ s e. omega (arith, e)))

  pub assign_matched_string-Yields : Yields (assign_matched_string sp) FitsAtom
  unfolding assign_matched_string
  assign_matched_string-Yields =
      Yields-bind (string_head-Yields sp)
        (λ n h. Yields-mono FitsAtom (λ s e. omega (arith, h, e)) (assign_loop-Yields n))

  -- One step of the search, by what the byte parser returns.
  searched :
      (v : IntObject) (next : Parser (Unit {0})) (f : MsgSeq)
      → All IsByte f
      → Yields next Anything
      → (o : Option (ℕ × MsgSeq)) → Fine IsByte f o
      → Fine Anything f (
          let (matched, rest) = elim o as (λ _. Bool × MsgSeq) [
            | none ↦ (false, f)
            | some (res, rest) ↦ (if should_assign v then true else nat_beq (val_of v) res, rest)
          ] in
          if matched then none else next rest)
  searched v next f bytes k none nothing = k.at f bytes
  searched v next f bytes k (some (res, rest)) (value h l) = Fine-trans Anything _ l (
      (Yields-unless (if should_assign v then true else nat_beq (val_of v) res) k).at rest
        (Leaves-bytes l bytes))

  find_if-Yields : (val : List IntObject) → Yields (find_if_at_end sp val) Anything
  unfolding find_if_at_end match_string_element
  find_if-Yields [] = Yields-attribute tt
  find_if-Yields (v ∷ vs) = record {
    at = λ f bytes.
        searched v (find_if_at_end sp vs) f bytes (find_if-Yields vs) (sp.byte_ f)
          ((byte_-Yields sp).at f bytes);
  }

  pub match_elements-Yields : (val : List IntObject) → Yields (match_elements sp val) Anything
  unfolding match_elements
  match_elements-Yields val =
      Yields-bind (string_head-Yields sp)
        (λ n _. Yields-if (nat_beq (length val) n) (find_if-Yields val))
