-- ===== src/Wildcards/Agreement.antt =====
-- The objects of impl/erl_any.cpp against the table as a parser.
use tinch_pp.Prelude.{
  ℕ, zero, suc, ◌-◌, ◌≡◌, ◌∙◌, refl, ap, sym, append_assoc, append-nil, Bool, true, false, [], ◌∷◌,
  ◌++◌, Option, none, some, length, take, if◌then◌else◌,
}
use tinch_pp.Types.{MsgSeq}
use tinch_pp.Spirit.{Spirit, Parser, ◌>>=◌, attribute}
use tinch_pp.Terms.{
  integer, atom_ext, small_tuple_head_ext, list_head_ext, pid_ext, new_reference_ext_p, float_ext,
}
use tinch_pp.Binaries.{any_binary}
use tinch_pp.Strings.{assign_matched_string}
use tinch_pp.Wildcards.{saved, element_loop, compound, dynamic_element_matcher, match_dynamically}
use tinch_pp.Wildcards.Objects.{
  Any, AnyMatch, save_matched_bytes, match_into, match_elements_into, compound_into, assign_bytes,
  element_matcher_into, match_object,
}

-- The object's match and the table agree: both fail, or both take the same bytes, which the object
-- saves behind those that it has.
pub data Agrees (a : Any) : Option (MsgSeq × MsgSeq) → Option MsgSeq × Any → Type 0 where
  failed : {b : Any} → Agrees a none (none, b)
  took :
      {bytes f : MsgSeq} {b : Any}
      → b.matched_raw_bytes ≡ a.matched_raw_bytes ++ bytes
      → Agrees a (some (bytes, f)) (some f, b)

saved-Agrees :
    {A : Type 0} (s : MsgSeq) (a : Any) (o : Option (A × MsgSeq))
    → Agrees a
        (elim o [ none ↦ none | some (ignore, f) ↦ some (take (length s - length f) s, f) ])
        (elim o [
          | none ↦ (none, a)
          | some (ignore, f) ↦ (some f, save_matched_bytes (take (length s - length f) s) a)
        ])
saved-Agrees s a none = failed
saved-Agrees s a (some (ignore, f)) = took refl

match_into-Agrees :
    {A : Type 0} (p : Parser A) (s : MsgSeq) (a : Any) → Agrees a (saved p s) (match_into p s a)
unfolding match_into
match_into-Agrees p s a = saved-Agrees s a (p s)

-- Bytes in front of those that were taken.
prepended :
    {a b : Any} (bytes : MsgSeq) (o : Option (MsgSeq × MsgSeq)) (r : Option MsgSeq × Any)
    → b.matched_raw_bytes ≡ a.matched_raw_bytes ++ bytes
    → Agrees b o r
    → Agrees a (elim o [ none ↦ none | some (rest, f) ↦ some (bytes ++ rest, f) ]) r
prepended bytes none (none, c) e failed = failed
prepended bytes none (some _, c) e x = elim x [ ]
prepended bytes (some (rest, f)) (none, c) e x = elim x [ ]
prepended {a} {b} bytes (some (rest, f)) (some _, c) e (took d) =
    took (d ∙ ap (λ x. x ++ rest) e ∙ append_assoc a.matched_raw_bytes bytes rest)

one_element :
    {a : Any} (p : Parser MsgSeq) (q : AnyMatch) (o : Option (MsgSeq × MsgSeq))
    (r : Option MsgSeq × Any)
    → Agrees a o r
    → ((f : MsgSeq) (b : Any) → Agrees b (p f) (q f b))
    → Agrees a
        (elim o [ none ↦ none | some (bytes, f) ↦ (p >>= λ rest. attribute (bytes ++ rest)) f ])
        (elim r.0 [ none ↦ (none, r.1) | some f ↦ q f r.1 ])
one_element p q none (none, b) failed k = failed
one_element p q none (some _, b) x k = elim x [ ]
one_element p q (some (bytes, f)) (none, b) x k = elim x [ ]
one_element p q (some (bytes, f)) (some _, b) (took e) k = prepended bytes (p f) (q f b) e (k f b)

loop-Agrees :
    (p : Parser MsgSeq) (q : AnyMatch)
    → ((s : MsgSeq) (a : Any) → Agrees a (p s) (q s a))
    → (n : ℕ) (s : MsgSeq) (a : Any) → Agrees a (element_loop p n s) (match_elements_into q n s a)
unfolding element_loop match_elements_into
loop-Agrees p q h zero s a = took (sym (append-nil a.matched_raw_bytes))
loop-Agrees p q h (suc n) s a =
    one_element (element_loop p n) (match_elements_into q n) (p s) (q s a) (h s a)
      (loop-Agrees p q h n)

headed :
    (p : Parser MsgSeq) (q : AnyMatch) (s : MsgSeq) (a : Any)
    → ((s : MsgSeq) (a : Any) → Agrees a (p s) (q s a))
    → (o : Option (ℕ × MsgSeq))
    → Agrees a
        (elim o [
          | none ↦ none
          | some (n, f) ↦
              (element_loop p n >>= λ elements.
              attribute (take (length s - length f) s ++ elements))
                f
        ])
        (elim o [
          | none ↦ (none, a)
          | some (n, f) ↦
              match_elements_into q n f (save_matched_bytes (take (length s - length f) s) a)
        ])
headed p q s a h none = failed
headed p q s a h (some (n, f)) =
    let b = save_matched_bytes (take (length s - length f) s) a in
    prepended (take (length s - length f) s) (element_loop p n f) (match_elements_into q n f b) refl
      (loop-Agrees p q h n f b)

compound-Agrees :
    (head : Parser ℕ) (p : Parser MsgSeq) (q : AnyMatch)
    → ((s : MsgSeq) (a : Any) → Agrees a (p s) (q s a))
    → (s : MsgSeq) (a : Any) → Agrees a (compound head p s) (compound_into head q s a)
unfolding compound compound_into
compound-Agrees head p q h s a = headed p q s a h (head s)

Agrees-if :
    (b : Bool) {a : Any} {o o' : Option (MsgSeq × MsgSeq)} {r r' : Option MsgSeq × Any}
    → Agrees a o r
    → Agrees a o' r'
    → Agrees a (if b then o else o') (if b then r else r')
Agrees-if true h k = h
Agrees-if false h k = k

assigned-Agrees :
    {a : Any} (o : Option (MsgSeq × MsgSeq)) (r : Option MsgSeq × Any)
    → Agrees a o r
    → Agrees a o (assign_bytes r)
assigned-Agrees none (none, b) failed = failed
assigned-Agrees none (some _, b) x = elim x [ ]
assigned-Agrees (some (bytes, f)) (none, b) x = elim x [ ]
assigned-Agrees (some (bytes, f)) (some _, b) (took e) = took e

module _ (sp : Spirit) where
  matcher-Agrees :
      (p : Parser MsgSeq) (q : AnyMatch)
      → ((s : MsgSeq) (a : Any) → Agrees a (p s) (q s a))
      → (tag : ℕ) (s : MsgSeq) (a : Any)
      → Agrees a (dynamic_element_matcher sp p tag s) (element_matcher_into sp q tag s a)
  unfolding dynamic_element_matcher element_matcher_into
  matcher-Agrees p q h tag s a = Agrees-if _ (match_into-Agrees (integer sp) s a) (
      Agrees-if _ (match_into-Agrees (atom_ext sp) s a) (
        Agrees-if _ (compound-Agrees (small_tuple_head_ext sp) p q h s a) (
          Agrees-if _ (compound-Agrees (list_head_ext sp) p q h s a) (
            Agrees-if _ (match_into-Agrees (assign_matched_string sp) s a) (
              Agrees-if _ (match_into-Agrees (pid_ext sp) s a) (
                Agrees-if _ (match_into-Agrees (new_reference_ext_p sp) s a) (
                  Agrees-if _ (match_into-Agrees (float_ext sp) s a)
                    (Agrees-if _ (match_into-Agrees (any_binary sp) s a) failed))))))))

  pub object-Agrees :
      (fuel : ℕ) (s : MsgSeq) (a : Any)
      → Agrees a (match_dynamically sp fuel s) (match_object sp fuel s a)
  unfolding match_dynamically match_object
  object-Agrees zero s a = failed
  object-Agrees (suc fuel) [] a = failed
  object-Agrees (suc fuel) (tag ∷ s) a = assigned-Agrees _ _ (
      matcher-Agrees (match_dynamically sp fuel) (match_object sp fuel) (object-Agrees fuel) tag
        (tag ∷ s) a)
