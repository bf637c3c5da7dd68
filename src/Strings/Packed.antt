-- ===== src/Strings/Packed.antt =====
-- What impl/string_matcher.h and impl/erl_string.cpp make of a packed list of integers.
use tinch_pp.Prelude.{
  ℕ, suc, ◌<◌, ◌≡◌, ◌≢◌, ◌∙◌, refl, ap, Bool, true, false, not, ◌&&◌, List, [], ◌∷◌, ◌++◌, Option,
  none, some, arith, nat_beq, if◌then◌else◌, length, inl, inr, Bool-cases,
}
use tinch_pp.Types.{MsgSeq, serializable_string}
use tinch_pp.Spirit.{Spirit, Parser, attribute}
use tinch_pp.Spirit.Laws.{regroup, bind-some, bind-none}
use tinch_pp.Terms.{string_ext_g, string_head_ext, tag_string_ext}
use tinch_pp.Terms.RoundTrip.{string_head-Reads, FitsAtom}
use tinch_pp.Strings.{
  IntObject, val_of, should_assign, create_ints, match_string_element, find_if_at_end,
  match_elements, match_string_value,
}

-- The element has no variable, and its value is not the byte.
abbrev pub differs : IntObject → ℕ → Bool
differs element b = if should_assign element then false else not (nat_beq (val_of element) b)

-- As many elements as bytes, each of which differs from its byte.
unfoldable pub all_differ : List IntObject → MsgSeq → Bool
all_differ [] [] = true
all_differ (element ∷ elements) (b ∷ bs) = differs element b && all_differ elements bs
all_differ _ _ = false

abbrev pub if_all_differ : List IntObject → MsgSeq → MsgSeq → Option (Unit {0} × MsgSeq)
if_all_differ elements bs rest = if all_differ elements bs then some (tt, rest) else none

all_differ-ne :
    (elements : List IntObject) (bs : MsgSeq)
    → length elements ≢ length bs
    → all_differ elements bs ≡ false
unfolding all_differ
all_differ-ne [] [] ne = absurd (ne refl)
all_differ-ne [] (b ∷ bs) ne = refl
all_differ-ne (element ∷ elements) [] ne = refl
all_differ-ne (element ∷ elements) (b ∷ bs) ne =
    ground (arith, all_differ-ne elements bs (λ e. ne (ap suc e)))

module _ (sp : Spirit) where
  find_if-all_differ :
      (elements : List IntObject) (bs rest : MsgSeq)
      → length elements ≡ length bs
      → find_if_at_end sp elements (bs ++ rest) ≡ if_all_differ elements bs rest
  unfolding find_if_at_end all_differ match_string_element
  find_if-all_differ [] [] rest e = refl
  find_if-all_differ [] (b ∷ bs) rest e = absurd (omega (arith, e))
  find_if-all_differ (element ∷ elements) [] rest e = absurd (omega (arith, e))
  find_if-all_differ (element ∷ elements) (b ∷ bs) rest e =
      ground (
        arith,
        sp.byte_-cons b (bs ++ rest),
        find_if-all_differ elements bs rest (omega (arith, e)),
      )

  abbrev searched_for : List IntObject → ℕ → Parser (Unit {0})
  searched_for elements n f =
      if nat_beq (length elements) n then find_if_at_end sp elements f else none

  searched-all_differ :
      (elements : List IntObject) (bs rest : MsgSeq)
      → searched_for elements (length bs) (bs ++ rest) ≡ if_all_differ elements bs rest
  searched-all_differ elements bs rest = elim (Bool-cases (nat_beq (length elements) (length bs))) [
    | inl same ↦ ground (arith, same, find_if-all_differ elements bs rest (ground arith))
    | inr other ↦ ground (arith, other, all_differ-ne elements bs (ground arith))
  ]

  pub match_elements-packed :
      (elements : List IntObject) (bs rest : MsgSeq)
      → FitsAtom bs
      → match_elements sp elements (string_ext_g sp (serializable_string bs) ++ rest)
        ≡ if_all_differ elements bs rest
  unfolding match_elements string_ext_g
  match_elements-packed elements bs rest h =
      ap (match_elements sp elements)
        (regroup (sp.byte_g tag_string_ext) (sp.big_word_g (length bs)) (sp.string_g bs) rest)
      ∙ bind-some (string_head_ext sp) (searched_for elements) _
          ((string_head-Reads sp h).at (sp.string_g bs ++ rest))
      ∙ ap (λ x. searched_for elements (length bs) (x ++ rest)) (sp.string_g_lem bs)
      ∙ searched-all_differ elements bs rest

-- The first of a value's characters is ASCII, and so equal to the byte as it is written.
all_differ-equal :
    (char_is_signed : Bool) (c : ℕ) (s : MsgSeq)
    → c < 128
    → all_differ (create_ints char_is_signed (c ∷ s)) (c ∷ s) ≡ false
unfolding all_differ
all_differ-equal char_is_signed c s ascii = ground arith

module _ (sp : Spirit) (char_is_signed : Bool) (c : ℕ) (s : MsgSeq) (ascii : c < 128) where
  -- The comparison of a string pattern refuses the string that it is made of, if that is not empty
  -- and its first character is ASCII.
  pub match_string_value-refuses_equal :
      (B : Type 0) (rest : MsgSeq)
      → FitsAtom (c ∷ s)
      → match_string_value sp {B = B} char_is_signed
          (c ∷ s)
          (string_ext_g sp (serializable_string (c ∷ s)) ++ rest)
        ≡ none
  unfolding match_string_value
  match_string_value-refuses_equal B rest h =
      bind-none (match_elements sp (create_ints char_is_signed (c ∷ s))) (λ _. attribute []) _
        (match_elements-packed sp (create_ints char_is_signed (c ∷ s)) (c ∷ s) rest h
          ∙ ap (λ b. if b then some (tt {0}, rest) else none)
              (all_differ-equal char_is_signed c s ascii))
