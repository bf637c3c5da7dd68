-- ===== src/Values/Typing.antt =====
-- The types of what a match of impl/erlang_value_types.cpp and its companions stores, whatever bytes
-- it is run on: those of the variables of the pattern, in order, and within the range of the type.
use tinch_pp.Prelude.{
  ℕ, ◌-◌, ◌^◌, ◌<◌, ◌≡◌, Bool, List, [], ◌∷◌, ◌++◌, Option, none, some, length, take, All, nat_eq,
  bytes_eq, Eq, nat_beq,
}
use tinch_pp.Types.{
  MsgSeq, IsByte, EPid, BinaryValue, NewReference, pid_eq, binary_eq, reference_eq,
}
use tinch_pp.Spirit.{Spirit, Parser}
use tinch_pp.Spirit.Yields.{
  Fine, nothing, value, Leaves, Yields, Yields-attribute, Yields-bind, Yields-last, Yields-if,
  Yields-some, Leaves-none, All-take, byte_lit-Yields,
}
use tinch_pp.Strings.{match_string_value, create_ints}
use tinch_pp.Strings.Ranges.{match_elements-Yields, assign_matched_string-Yields}
use tinch_pp.Wildcards.Ranges.{any_binary-Yields, any_match-Yields}
use tinch_pp.Terms
use tinch_pp.Terms.Ranges.{
  FitsBinary, integer-Yields, atom_ext-Yields, pid_ext-Yields, new_reference_ext-Yields,
  small_tuple_head-Yields, list_head-Yields,
}
use tinch_pp.Terms.RoundTrip.{FitsAtom, FitsPid, FitsReference}
use tinch_pp.Values.{
  Pattern, Patterns, int_value, int_assign, int_any, pid_value, pid_assign, pid_any, atom_value,
  atom_assign, atom_any, binary_value, binary_assign, binary_any, ref_value, ref_assign, ref_any,
  tuple_of, string_value, string_assign, string_any, any_term, list_of, none_left, and_then, Bound,
  bound_int, bound_pid, bound_atom, bound_binary, bound_ref, bound_string, bound_bytes, match,
  match_all, match_value, assign_matched, match_any, when_equal, optional_nil, count_patterns,
}

-- The types of the variables that a match stores to.
pub data Kind : Type 0 where
  int_kind pid_kind atom_kind binary_kind ref_kind string_kind bytes_kind : Kind

-- The variables of a pattern, in order.
unfoldable mutual
  pub variables : Pattern → List Kind
  variables int_assign = int_kind ∷ []
  variables int_any = bytes_kind ∷ []
  variables pid_assign = pid_kind ∷ []
  variables pid_any = bytes_kind ∷ []
  variables atom_assign = atom_kind ∷ []
  variables atom_any = bytes_kind ∷ []
  variables binary_assign = binary_kind ∷ []
  variables binary_any = bytes_kind ∷ []
  variables ref_assign = ref_kind ∷ []
  variables ref_any = bytes_kind ∷ []
  variables string_assign = string_kind ∷ []
  variables string_any = bytes_kind ∷ []
  variables any_term = bytes_kind ∷ []
  variables (tuple_of contained) = all_variables contained
  variables (list_of val) = all_variables val
  variables _ = []

  pub all_variables : Patterns → List Kind
  all_variables none_left = []
  all_variables (and_then p ps) = variables p ++ all_variables ps

-- The values of a type: those that fit the fields of the format.
pub data HasType : Kind → Bound → Type 0 where
  has_int : {n : ℕ} → n < 2 ^ 32 → HasType int_kind (bound_int n)
  has_pid : {p : EPid} → FitsPid p → HasType pid_kind (bound_pid p)
  has_atom : {s : MsgSeq} → FitsAtom s → HasType atom_kind (bound_atom s)
  has_binary : {v : BinaryValue} → FitsBinary v → HasType binary_kind (bound_binary v)
  has_ref : {r : NewReference} → FitsReference r → HasType ref_kind (bound_ref r)
  has_string : {s : MsgSeq} → FitsAtom s → HasType string_kind (bound_string s)
  has_bytes : {s : MsgSeq} → All IsByte s → HasType bytes_kind (bound_bytes s)

pub data HasTypes : List Kind → List Bound → Type 0 where
  no_types : HasTypes [] []
  more_types :
      {k : Kind} {b : Bound} {ks : List Kind} {bs : List Bound}
      → HasType k b
      → HasTypes ks bs
      → HasTypes (k ∷ ks) (b ∷ bs)

HasTypes-append :
    {ks ks' : List Kind} {bs bs' : List Bound}
    → HasTypes ks bs
    → HasTypes ks' bs'
    → HasTypes (ks ++ ks') (bs ++ bs')
HasTypes-append no_types k = k
HasTypes-append (more_types h hs) k = more_types h (HasTypes-append hs k)

kept_bytes :
    {A : Type 0} {P : A → Type 0} (s : MsgSeq)
    → All IsByte s
    → (o : Option (A × MsgSeq)) → Fine P s o
    → Fine (HasTypes (bytes_kind ∷ [])) s (elim o [
      | none ↦ none
      | some (ignore, f) ↦ some (bound_bytes (take (length s - length f) s) ∷ [], f)
    ])
kept_bytes s bytes none nothing = nothing
kept_bytes s bytes (some (a, f)) (value h l) =
    value (more_types (has_bytes (All-take (length s - length f) s bytes)) no_types) l

module _ {A : Type 0} {P : A → Type 0} {p : Parser A} where
  match_value-HasTypes :
      (e : Eq A) (val : A) → Yields p P → Yields (match_value e p val) (HasTypes [])
  match_value-HasTypes e val h =
      Yields-bind h (λ a _. Yields-if (e.beq val a) (Yields-attribute no_types))

  assign_matched-HasTypes :
      {k : Kind} (bound : A → Bound)
      → ((a : A) → P a → HasType k (bound a))
      → Yields p P
      → Yields (assign_matched bound p) (HasTypes (k ∷ []))
  assign_matched-HasTypes bound f h = Yields-last _ h (λ a x. more_types (f a x) no_types)

  match_any-HasTypes : Yields p P → Yields (match_any p) (HasTypes (bytes_kind ∷ []))
  match_any-HasTypes h = record { at = λ s bytes. kept_bytes s bytes (p s) (h.at s bytes) }

  when_equal-Yields : (m n : ℕ) → Yields p P → Yields (when_equal m n p) P
  when_equal-Yields m n h = Yields-if (nat_beq m n) h

-- The result of the parser for the empty tail is ignored.
skipped :
    {P : ℕ → Type 0} (s : MsgSeq) (o : Option (ℕ × MsgSeq))
    → Fine P s o
    → Fine
        (λ _. Unit {0})
        s
        (elim o [ none ↦ some (tt {0}, s) | some (b, rest) ↦ some (tt {0}, rest) ])
skipped s none nothing = value tt Leaves-none
skipped s (some (b, rest)) (value h l) = value tt l

module _ (sp : Spirit) (char_is_signed : Bool) where
  optional_nil-Yields : Yields (optional_nil sp) (λ _. Unit {0})
  unfolding optional_nil
  optional_nil-Yields = record {
    at = λ s bytes.
        skipped s (sp.byte_lit Terms.tag_nil_ext s)
          ((byte_lit-Yields sp Terms.tag_nil_ext).at s bytes);
  }

  mutual
    unfolding match variables match_string_value

    match-Yields : (p : Pattern) → Yields (match sp char_is_signed p) (HasTypes (variables p))
    match-Yields (int_value val) = match_value-HasTypes nat_eq val (integer-Yields sp)
    match-Yields int_assign = assign_matched-HasTypes bound_int (λ _. has_int) (integer-Yields sp)
    match-Yields int_any = match_any-HasTypes (integer-Yields sp)
    match-Yields (pid_value val) = match_value-HasTypes pid_eq val (pid_ext-Yields sp)
    match-Yields pid_assign = assign_matched-HasTypes bound_pid (λ _. has_pid) (pid_ext-Yields sp)
    match-Yields pid_any = match_any-HasTypes (pid_ext-Yields sp)
    match-Yields (atom_value val) = match_value-HasTypes bytes_eq val (atom_ext-Yields sp)
    match-Yields atom_assign =
        assign_matched-HasTypes bound_atom (λ _. has_atom) (atom_ext-Yields sp)
    match-Yields atom_any = match_any-HasTypes (atom_ext-Yields sp)
    match-Yields (binary_value val) = match_value-HasTypes binary_eq val (any_binary-Yields sp)
    match-Yields binary_assign =
        assign_matched-HasTypes bound_binary (λ _. has_binary) (any_binary-Yields sp)
    match-Yields binary_any = match_any-HasTypes (any_binary-Yields sp)
    match-Yields (ref_value val) =
        match_value-HasTypes reference_eq val (new_reference_ext-Yields sp)
    match-Yields ref_assign =
        assign_matched-HasTypes bound_ref (λ _. has_ref) (new_reference_ext-Yields sp)
    match-Yields ref_any = match_any-HasTypes (new_reference_ext-Yields sp)
    match-Yields (string_value val) =
        Yields-last _ (match_elements-Yields sp (create_ints char_is_signed val)) (λ _ _. no_types)
    match-Yields string_assign =
        assign_matched-HasTypes bound_string (λ _. has_string) (assign_matched_string-Yields sp)
    match-Yields string_any = match_any-HasTypes (assign_matched_string-Yields sp)
    match-Yields any_term =
        Yields-last _ (any_match-Yields sp) (λ _ bytes. more_types (has_bytes bytes) no_types)
    match-Yields (tuple_of contained) =
        Yields-bind (small_tuple_head-Yields sp)
          (λ n _. when_equal-Yields (count_patterns contained) n (match_all-Yields contained))
    match-Yields (list_of val) = Yields-bind (list_head-Yields sp) (λ n _.
        Yields-bind (when_equal-Yields (count_patterns val) n (match_all-Yields val))
          (λ bs h. Yields-last _ optional_nil-Yields (λ _ _. h)))

    match_all-Yields :
        (ps : Patterns) → Yields (match_all sp char_is_signed ps) (HasTypes (all_variables ps))
    match_all-Yields none_left = Yields-attribute no_types
    match_all-Yields (and_then p ps) =
        Yields-bind (match-Yields p)
          (λ b h. Yields-last _ (match_all-Yields ps) (λ bs k. HasTypes-append h k))

  -- Whatever bytes a pattern is matched against, a match that succeeds stores one value for each
  -- variable of the pattern, in order, of its type and within the range of the format, and what it
  -- leaves is the end of those bytes.
  pub match-HasTypes :
      (p : Pattern) (s : MsgSeq) {bounds : List Bound} {rest : MsgSeq}
      → All IsByte s
      → match sp char_is_signed p s ≡ some (bounds, rest)
      → HasTypes (variables p) bounds × Leaves s rest
  match-HasTypes p s bytes e = Yields-some (match-Yields p) bytes e
