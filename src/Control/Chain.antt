-- ===== src/Control/Chain.antt =====
-- The handlers of impl/ctrl_msg_dispatcher.cpp against a tuple whose first element is an integer.
use tinch_pp.Prelude.{
  ℕ, ◌^◌, ◌<◌, ◌≡◌, ◌≢◌, ◌∙◌, refl, Bool, List, [], ◌∷◌, ◌++◌, Option, none, some, arith,
  append_assoc, if◌then◌else◌, nat_beq, nat_eq,
}
use tinch_pp.Types.{MsgSeq, EPid}
use tinch_pp.Spirit.{Spirit, Parser}
use tinch_pp.Spirit.Laws.{Reads, Reads-bind, Reads-last, bind-some, bind-none}
use tinch_pp.Terms.{integer, small_tuple_head_ext, small_tuple_head_g}
use tinch_pp.Terms.RoundTrip.{
  FitsPid, FitsAtom, pid_ext-Reads, atom_ext-Reads, small_tuple_head-Reads,
}
use tinch_pp.Values.{
  Term, Terms, int_, pid, atom, e_tuple, nil, cons, Pattern, Patterns, int_value, pid_assign,
  atom_any, atom_assign, tuple_of, none_left, and_then, Bound, bound_pid, bound_atom, bound_bytes,
  serialize, serialize_all, serialize_int, match, match_all, when_equal, count_terms,
  count_patterns,
}
use tinch_pp.Values.RoundTrip.{
  integer-Reads, match_value-Reads, assign_matched-Reads, match_any-Reads, when_equal-Reads,
}
use tinch_pp.Control.Dispatcher.{NodeCall, Outcome, returns, handle, run_chain}

module _ (sp : Spirit) (signed : Bool) where
  -- The patterns of a tuple read what is written for its terms.
  pub record Matches (ps : Patterns) (ts : Terms) (bounds : List Bound) : Type 0 where
    pub same_length : count_patterns ps ≡ count_terms ts
    pub reads : Reads (match_all sp signed ps) (serialize_all sp ts) bounds

  pub Matches-nil : Matches none_left nil []
  unfolding match serialize count_patterns count_terms
  Matches-nil = record { same_length = refl; reads = record { at = λ rest. refl } }

  pub Matches-cons :
      {p : Pattern} {t : Term} {ps : Patterns} {ts : Terms} {b bs : List Bound}
      → Reads (match sp signed p) (serialize sp t) b
      → Matches ps ts bs
      → Matches (and_then p ps) (cons t ts) (b ++ bs)
  unfolding match serialize count_patterns count_terms
  Matches-cons {b = b} h k = record {
    same_length = omega (arith, k.same_length);
    reads = Reads-bind _ h (Reads-last (λ bs. b ++ bs) k.reads);
  }

  pub Matches-tuple :
      {ps : Patterns} {ts : Terms} {bounds : List Bound}
      → count_terms ts < 256
      → Matches ps ts bounds
      → Reads (match sp signed (tuple_of ps)) (serialize sp (e_tuple ts)) bounds
  unfolding match serialize
  Matches-tuple h k =
      Reads-bind _ (small_tuple_head-Reads sp h) (when_equal-Reads k.same_length k.reads)

  pub int_value-Reads :
      {n : ℕ} → n < 2 ^ 32 → Reads (match sp signed (int_value n)) (serialize sp (int_ n)) []
  unfolding match serialize
  int_value-Reads h = match_value-Reads nat_eq (integer-Reads sp h)

  pub pid_assign-Reads :
      {p : EPid}
      → FitsPid p
      → Reads (match sp signed pid_assign) (serialize sp (pid p)) (bound_pid p ∷ [])
  unfolding match serialize
  pid_assign-Reads h = assign_matched-Reads bound_pid (pid_ext-Reads sp h)

  pub atom_assign-Reads :
      {s : MsgSeq}
      → FitsAtom s
      → Reads (match sp signed atom_assign) (serialize sp (atom s)) (bound_atom s ∷ [])
  unfolding match serialize
  atom_assign-Reads h = assign_matched-Reads bound_atom (atom_ext-Reads sp h)

  pub atom_any-Reads :
      (s : MsgSeq)
      → FitsAtom s
      → Reads
          (match sp signed atom_any)
          (serialize sp (atom s))
          (bound_bytes (serialize sp (atom s)) ∷ [])
  unfolding match serialize
  atom_any-Reads s h = match_any-Reads (atom_ext-Reads sp h)

  int_value-refuses :
      (v m : ℕ) (rest : MsgSeq)
      → m < 2 ^ 32
      → m ≢ v
      → match sp signed (int_value v) (serialize sp (int_ m) ++ rest) ≡ none
  unfolding match serialize
  int_value-refuses v m rest h ne =
      bind-some (integer sp) (λ res s. if nat_beq v res then some ([], s) else none)
        (serialize_int sp m ++ rest) ((integer-Reads sp h).at rest)
      ∙ ground arith

  when_equal-none :
      {A : Type 0} (p : Parser A) (m n : ℕ) (s : MsgSeq) → p s ≡ none → when_equal m n p s ≡ none
  when_equal-none p m n s h = ground arith

  match_all-refuses :
      (v m : ℕ) (ps : Patterns) (g rest : MsgSeq)
      → m < 2 ^ 32
      → m ≢ v
      → match_all sp signed (and_then (int_value v) ps) ((serialize sp (int_ m) ++ g) ++ rest)
        ≡ none
  match_all-refuses v m ps g rest h ne = rw append_assoc (
      unfold match in
      bind-none (match sp signed (int_value v)) _ (serialize sp (int_ m) ++ (g ++ rest))
        (int_value-refuses v m (g ++ rest) h ne))

  -- A pattern for another number refuses the tuple, whatever the rest of the two.
  pub tuple_of-refuses :
      (v m : ℕ) (ps : Patterns) (ts : Terms) (rest : MsgSeq)
      → m < 2 ^ 32
      → m ≢ v
      → count_terms (cons (int_ m) ts) < 256
      → match sp signed
          (tuple_of (and_then (int_value v) ps))
          (serialize sp (e_tuple (cons (int_ m) ts)) ++ rest)
        ≡ none
  unfolding match serialize
  tuple_of-refuses v m ps ts rest h ne few =
      let head : MsgSeq = small_tuple_head_g sp (count_terms (cons (int_ m) ts)) in
      let body : MsgSeq = serialize sp (int_ m) ++ serialize_all sp ts in
      let all = match_all sp signed (and_then (int_value v) ps) in
      let n = count_patterns (and_then (int_value v) ps) in
      rw append_assoc (
        bind-some (small_tuple_head_ext sp) (λ k. when_equal n k all) (head ++ (body ++ rest))
          ((small_tuple_head-Reads sp few).at (body ++ rest))
        ∙ when_equal-none all n (count_terms (cons (int_ m) ts)) (body ++ rest)
            (match_all-refuses v m ps (serialize_all sp ts) rest h ne))

  -- A handler for another operation hands the message on.
  pub run_chain-passes :
      (v m : ℕ) (ps : Patterns) (action : List Bound → MsgSeq → Outcome (Option NodeCall))
      (next : List (MsgSeq → Outcome (Option NodeCall))) (ts : Terms) (rest : MsgSeq)
      → m < 2 ^ 32
      → m ≢ v
      → count_terms (cons (int_ m) ts) < 256
      → let f = serialize sp (e_tuple (cons (int_ m) ts)) ++ rest in
        run_chain sp signed (handle sp signed (and_then (int_value v) ps) action ∷ next) f
        ≡ run_chain sp signed next f
  unfolding run_chain handle
  run_chain-passes v m ps action next ts rest h ne few =
      rw (run_chain, handle, tuple_of-refuses v m ps ts rest h ne few)

  -- The handler of the operation acts on the variables and on what follows the tuple.
  pub run_chain-handles :
      {ps : Patterns} {ts : Terms} {bounds : List Bound}
      (action : List Bound → MsgSeq → Outcome (Option NodeCall))
      (next : List (MsgSeq → Outcome (Option NodeCall))) (rest : MsgSeq) {call : NodeCall}
      → count_terms ts < 256
      → Matches ps ts bounds
      → action bounds rest ≡ returns (some call)
      → run_chain sp signed (handle sp signed ps action ∷ next) (serialize sp (e_tuple ts) ++ rest)
        ≡ returns call
  unfolding run_chain handle
  run_chain-handles action next rest few h e =
      rw (run_chain, handle, (Matches-tuple few h).at rest, e)
