-- ===== src/Values/Refusals.antt =====
-- A parser of impl/ext_term_grammar.h reads the terms of its class and refuses all others, which
-- start with another tag.
use tinch_pp.Prelude.{
  ℕ, ◌<◌, ◌≡◌, ◌≢◌, ◌∙◌, ap, append_assoc, [], ◌∷◌, ◌++◌, Option, none, some, leb, ltb, arith,
  if◌then◌else◌, inl, inr, Bool-cases,
}
use tinch_pp.Types.{MsgSeq}
use tinch_pp.Spirit.{Spirit, Parser, ◌>>=◌, alternative}
use tinch_pp.Spirit.Laws.{Reads, bind-none}
use tinch_pp.Strings.{assign_matched_string, assign_loop}
use tinch_pp.Strings.Matching.{assign_matched_string-Reads}
use tinch_pp.Binaries.{any_binary}
use tinch_pp.Terms
use tinch_pp.Terms.RoundTrip.{atom_ext-Reads, pid_ext-Reads, new_reference_ext-Reads}
use tinch_pp.Values.{
  Term, int_, pid, atom, binary, ref, e_string, e_tuple, list, serialize, serialize_int,
  serialize_binary, serialize_all,
}
use tinch_pp.Values.Expected.{as_int, as_pid, as_atom, as_binary, as_ref, as_string}
use tinch_pp.Values.RoundTrip.{
  Fits, fits_int, fits_pid, fits_atom, fits_binary, fits_ref, fits_string, integer-Reads,
  any_binary-Reads,
}

-- The outcome of a parser on the bytes of something, whatever follows them.
abbrev pub outcome : {A : Type 0} → MsgSeq → Option A → Option (A × MsgSeq)
outcome rest o = elim o [ none ↦ none | some a ↦ some (a, rest) ]

pub record Gives {A : Type 0} (p : Parser A) (g : MsgSeq) (o : Option A) : Type 0 where
  pub at : (rest : MsgSeq) → p (g ++ rest) ≡ outcome rest o

module _ {A : Type 0} {p : Parser A} {g : MsgSeq} where
  pub Gives-some : {a : A} → Reads p g a → Gives p g (some a)
  Gives-some h = record { at = h.at }

  pub Gives-none : ((rest : MsgSeq) → p (g ++ rest) ≡ none) → Gives p g none
  Gives-none h = record { at = h }

-- The first byte of a term.
unfoldable pub tag_of : Term → ℕ
tag_of (int_ val) = if leb val 255 then Terms.tag_small_integer else Terms.tag_integer
tag_of (pid val) = Terms.tag_pid
tag_of (atom val) = Terms.tag_atom_ext
tag_of (binary val) =
    if ltb 0 val.padding_bits then Terms.tag_bit_binary_ext else Terms.tag_binary_ext
tag_of (ref val) = Terms.tag_new_reference_ext
tag_of (e_string val) = Terms.tag_string_ext
tag_of (e_tuple contained) = Terms.tag_small_tuple
tag_of (list val) = Terms.tag_list

module _ (sp : Spirit) where
  tagged_bytes : (n : ℕ) (g : MsgSeq) → n < 256 → sp.byte_g n ++ g ≡ n ∷ g
  tagged_bytes n g h = ap (λ x. x ++ g) (sp.byte_g_lem n ∙ ap (λ k. k ∷ []) (omega (arith, h)))

  serialize-tag_of : (t : Term) → (g : MsgSeq) × (serialize sp t ≡ tag_of t ∷ g)
  unfolding serialize tag_of serialize_int serialize_binary Terms.pid_ext_g Terms.atom_ext_g
      Terms.new_reference_ext_g Terms.string_ext_g Terms.small_tuple_head_g Terms.list_head_g
      Terms.small_integer_g Terms.integer_ext_g Terms.binary_ext_g Terms.bit_binary_ext_g
  serialize-tag_of (int_ val) = elim (Bool-cases (leb val 255)) [
    | inl small ↦ rw small (sp.byte_g val, tagged_bytes Terms.tag_small_integer _ (omega arith))
    | inr large ↦ rw large (sp.big_dword_g val, tagged_bytes Terms.tag_integer _ (omega arith))
  ]
  serialize-tag_of (binary val) = elim (Bool-cases (ltb 0 val.padding_bits)) [
    | inl padded ↦ rw padded (_, tagged_bytes Terms.tag_bit_binary_ext _ (omega arith))
    | inr whole ↦ rw whole (_, tagged_bytes Terms.tag_binary_ext _ (omega arith))
  ]
  serialize-tag_of (pid val) = (_, tagged_bytes Terms.tag_pid _ (omega arith))
  serialize-tag_of (atom val) = (_, tagged_bytes Terms.tag_atom_ext _ (omega arith))
  serialize-tag_of (ref val) = (_, tagged_bytes Terms.tag_new_reference_ext _ (omega arith))
  serialize-tag_of (e_string val) = (_, tagged_bytes Terms.tag_string_ext _ (omega arith))
  serialize-tag_of (e_tuple contained) = (
    _,
    append_assoc (sp.byte_g Terms.tag_small_tuple) _ (serialize_all sp contained)
        ∙ tagged_bytes Terms.tag_small_tuple _ (omega arith),
  )
  serialize-tag_of (list val) = (
    _,
    append_assoc (sp.byte_g Terms.tag_list) _ (serialize_all sp val ++ sp.byte_g Terms.tag_nil_ext)
        ∙ tagged_bytes Terms.tag_list _ (omega arith),
  )

  byte_lit-refuses :
      {B : Type 0} (m b : ℕ) (f : ℕ → Parser B) (s : MsgSeq)
      → b ≢ m
      → (sp.byte_lit m >>= f) (b ∷ s) ≡ none
  byte_lit-refuses m b f s ne =
      bind-none (sp.byte_lit m) f (b ∷ s) (rw sp.byte_lit-cons (ground arith))

  pub refuses :
      {B : Type 0} (m : ℕ) (f : ℕ → Parser B) (t : Term)
      → tag_of t ≢ m
      → Gives (sp.byte_lit m >>= f) (serialize sp t) none
  refuses m f t ne =
      let (g, e) = serialize-tag_of t in
      record { at = λ rest. rw e (byte_lit-refuses m (tag_of t) f (g ++ rest) ne) }

  -- The same for a grammar that goes on behind its head.
  pub refuses_after :
      {A B : Type 0} (p : Parser A) (f : A → Parser B) (t : Term)
      → Gives p (serialize sp t) none
      → Gives (p >>= f) (serialize sp t) none
  refuses_after p f t h = record { at = λ rest. bind-none p f (serialize sp t ++ rest) (h.at rest) }

  refuses_both :
      {A : Type 0} (p q : Parser A) (t : Term)
      → Gives p (serialize sp t) none
      → Gives q (serialize sp t) none
      → Gives (alternative p q) (serialize sp t) none
  refuses_both p q t h k = record { at = λ rest. rw (h.at rest, alternative) (k.at rest) }

  pub integer-Gives : (t : Term) → Fits t → Gives (Terms.integer sp) (serialize sp t) (as_int t)
  unfolding serialize tag_of Terms.integer Terms.small_integer Terms.integer_ext
  integer-Gives (int_ val) (fits_int h) = Gives-some (integer-Reads sp h)
  integer-Gives t h =
      refuses_both (Terms.small_integer sp) (Terms.integer_ext sp) t
        (refuses Terms.tag_small_integer _ t (ground arith))
        (refuses Terms.tag_integer _ t (ground arith))

  pub atom_ext-Gives : (t : Term) → Fits t → Gives (Terms.atom_ext sp) (serialize sp t) (as_atom t)
  unfolding serialize tag_of Terms.atom_ext
  atom_ext-Gives (atom val) (fits_atom h) = Gives-some (atom_ext-Reads sp h)
  atom_ext-Gives t h = refuses Terms.tag_atom_ext _ t (ground arith)

  pub pid_ext-Gives : (t : Term) → Fits t → Gives (Terms.pid_ext sp) (serialize sp t) (as_pid t)
  unfolding serialize tag_of Terms.pid_ext
  pid_ext-Gives (pid val) (fits_pid h) = Gives-some (pid_ext-Reads sp h)
  pid_ext-Gives t h = refuses Terms.tag_pid _ t (ground arith)

  pub new_reference_ext-Gives :
      (t : Term) → Fits t → Gives (Terms.new_reference_ext_p sp) (serialize sp t) (as_ref t)
  unfolding serialize tag_of Terms.new_reference_ext_p
  new_reference_ext-Gives (ref val) (fits_ref h) = Gives-some (new_reference_ext-Reads sp h)
  new_reference_ext-Gives t h = refuses Terms.tag_new_reference_ext _ t (ground arith)

  pub any_binary-Gives : (t : Term) → Fits t → Gives (any_binary sp) (serialize sp t) (as_binary t)
  unfolding serialize tag_of any_binary Terms.binary_ext Terms.bit_binary_ext
  any_binary-Gives (binary val) (fits_binary h k) = Gives-some (any_binary-Reads sp h k)
  any_binary-Gives t h =
      refuses_both _ (Terms.bit_binary_ext sp) t
        (refuses_after (Terms.binary_ext sp) _ t (refuses Terms.tag_binary_ext _ t (ground arith)))
        (refuses Terms.tag_bit_binary_ext _ t (ground arith))

  pub assign_matched_string-Gives :
      (t : Term) → Fits t → Gives (assign_matched_string sp) (serialize sp t) (as_string t)
  unfolding serialize tag_of assign_matched_string Terms.string_head_ext
  assign_matched_string-Gives (e_string val) (fits_string h) =
      Gives-some (assign_matched_string-Reads sp val h)
  assign_matched_string-Gives t h =
      refuses_after (Terms.string_head_ext sp) (assign_loop sp) t
        (refuses Terms.tag_string_ext _ t (ground arith))
