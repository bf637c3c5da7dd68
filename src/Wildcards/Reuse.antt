-- ===== src/Wildcards/Reuse.antt =====
-- What an `any` of impl/erl_any.cpp assigns when it is matched, for the first time and again.
use tinch_pp.Prelude.{
  ℕ, suc, ◌≡◌, ◌∙◌, refl, ap, subst, Bool, List, [], ◌∷◌, ◌++◌, Option, none, some, length,
  length-append, arith,
}
use tinch_pp.Types.{MsgSeq}
use tinch_pp.Spirit.{Spirit}
use tinch_pp.Values.{
  Term, Terms, int_, pid, atom, binary, ref, e_string, e_tuple, list, nil, cons, Pattern, Bound,
  serialize,
}
use tinch_pp.Values.Expected.{expected}
use tinch_pp.Values.Refusals.{outcome}
use tinch_pp.Values.Agreement.{Comparable, match-expected}
use tinch_pp.Values.RoundTrip.{
  Fits, fits_int, fits_pid, fits_atom, fits_binary, fits_ref, fits_string, fits_tuple, AllFit,
  all_nil, all_cons,
}
use tinch_pp.Wildcards.Matching.{
  Listless, AllListless, plain_int, plain_pid, plain_atom, plain_binary, plain_ref, plain_string,
  plain_tuple, no_more, one_more, any-Reads,
}
use tinch_pp.Wildcards.Objects.{
  Any, new_any, match_object, match_any_object, matchable_match, match_assigned,
}
use tinch_pp.Wildcards.Agreement.{Agrees, took, object-Agrees}

module _ (sp : Spirit) where
  object-assigned :
      (fuel : ℕ) (s : MsgSeq) (a : Any)
      → (match_object sp (suc fuel) s a).1.to_assign
        ≡ some (match_object sp (suc fuel) s a).1.matched_raw_bytes
  unfolding match_object
  object-assigned fuel [] a = refl
  object-assigned fuel (tag ∷ s) a = refl

finished :
    {a : Any} {bytes f : MsgSeq} (r : Option MsgSeq × Any)
    → Agrees a (some (bytes, f)) r
    → r.1.to_assign ≡ some r.1.matched_raw_bytes
    → r ≡ (
      some f,
      record {
        matched_raw_bytes = a.matched_raw_bytes ++ bytes;
        to_assign = some (a.matched_raw_bytes ++ bytes);
      },
    )
finished (none, b) x e = elim x [ ]
finished (some _, b) (took d) e = ground (arith, d, e)

without_rest :
    (rest : MsgSeq) (o : Option (List Bound))
    → (elim (outcome rest o) [ none ↦ none | some (bounds, first) ↦ some bounds ]) ≡ o
without_rest rest none = refl
without_rest rest (some bounds) = refl

mutual
  Listless-Fits : (t : Term) → Listless t → Fits t
  Listless-Fits (int_ val) (plain_int h) = fits_int h
  Listless-Fits (pid val) (plain_pid h) = fits_pid h
  Listless-Fits (atom val) (plain_atom h) = fits_atom h
  Listless-Fits (binary val) (plain_binary h k) = fits_binary h k
  Listless-Fits (ref val) (plain_ref h) = fits_ref h
  Listless-Fits (e_string val) (plain_string h) = fits_string h
  Listless-Fits (e_tuple ts) (plain_tuple h k) = fits_tuple h (AllListless-AllFit ts k)
  Listless-Fits (list val) h = elim h [ ]

  AllListless-AllFit : (ts : Terms) → AllListless ts → AllFit ts
  AllListless-AllFit nil no_more = all_nil
  AllListless-AllFit (cons t ts) (one_more h k) =
      all_cons (Listless-Fits t h) (AllListless-AllFit ts k)

module _ (sp : Spirit) where
  -- An `any`, fresh or used before, takes exactly the bytes of a term without lists whose values fit
  -- the format, whatever follows, and assigns a message of the bytes that it had saved before with
  -- those of the term behind them.
  pub match_any_object-serialize :
      (t : Term) (rest : MsgSeq) (a : Any)
      → Listless t
      → match_any_object sp (serialize sp t ++ rest) a ≡ (
        some rest,
        record {
          matched_raw_bytes = a.matched_raw_bytes ++ serialize sp t;
          to_assign = some (a.matched_raw_bytes ++ serialize sp t);
        },
      )
  unfolding match_any_object
  match_any_object-serialize t rest a h =
      let s = serialize sp t ++ rest in
      finished (match_object sp (suc (length s)) s a)
        (subst (λ o. Agrees a o (match_object sp (suc (length s)) s a))
          ((any-Reads sp (suc (length s)) t h
              (omega (arith, length-append (serialize sp t) rest))).at
            rest)
          (object-Agrees sp (suc (length s)) s a))
        (object-assigned sp (length s) s a)

  -- A message that starts with the bytes of a term is matched as the term.
  matchable_match-expected :
      (char_is_signed : Bool) (p : Pattern) (t : Term) (rest : MsgSeq)
      → Fits t
      → Comparable p t
      → matchable_match sp char_is_signed p (serialize sp t ++ rest) ≡ expected sp p t
  unfolding matchable_match
  matchable_match-expected char_is_signed p t rest h c =
      ap
        (λ o. elim o as (λ _. Option (List Bound)) [
          | none ↦ none
          | some (bounds, first) ↦ some bounds
        ])
        (match-expected sp char_is_signed p t rest h c)
      ∙ without_rest rest (expected sp p t)

  abbrev after_first : Term → Any
  after_first t = record { matched_raw_bytes = serialize sp t; to_assign = some (serialize sp t) }

  -- The object after a match against each of two messages.
  abbrev pub match_twice : MsgSeq → MsgSeq → Any
  match_twice first second = (match_any_object sp second (match_any_object sp first new_any).1).1

  -- An `any` that is matched against a term, and again against another one, assigns a message that
  -- holds both: a pattern that is matched against it meets the first term, not the second. The terms
  -- have no lists, and their values fit the format.
  pub match_twice-sees_first :
      (char_is_signed : Bool) (p : Pattern) (t u : Term) (rest rest' : MsgSeq)
      → Listless t
      → Listless u
      → Comparable p t
      → match_assigned sp char_is_signed p
          (match_twice (serialize sp t ++ rest) (serialize sp u ++ rest'))
        ≡ expected sp p t
  unfolding match_assigned
  match_twice-sees_first char_is_signed p t u rest rest' h k c =
      ap (match_assigned sp char_is_signed p) (
        ap (λ r. (match_any_object sp (serialize sp u ++ rest') r.1).1)
          (match_any_object-serialize t rest new_any h)
        ∙ ap (λ r. r.1) (match_any_object-serialize u rest' (after_first t) k))
      ∙ matchable_match-expected char_is_signed p t (serialize sp u) (Listless-Fits t h) c
