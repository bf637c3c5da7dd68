-- ===== src/Spirit/Laws.antt =====
-- What a primitive parser reads of what the matching generator wrote.
use tinch_pp.Prelude.{
  ◌≢◌, append_assoc, subst, ℕ, ◌/◌, ◌%◌, ◌^◌, ◌≡◌, ◌<◌, ◌∙◌, [], ◌∷◌, ◌++◌, none, some, length,
  arith, ap, length-append, take-append_length, drop-append_length,
}
use tinch_pp.Types.{MsgSeq}
use tinch_pp.Spirit.{Spirit, Parser, ◌>>=◌, attribute, alternative}

-- The parser reads exactly the given bytes, whatever follows them, and returns the value.
pub record Reads {A : Type 0} (p : Parser A) (g : MsgSeq) (a : A) : Type 0 where
  pub at : (rest : MsgSeq) → p (g ++ rest) ≡ some (a, rest)

module _ {A B : Type 0} where
  pub bind-some :
      (p : Parser A) (f : A → Parser B) (s : MsgSeq) {a : A} {r : MsgSeq}
      → p s ≡ some (a, r)
      → (p >>= f) s ≡ f a r
  bind-some p f s h = rw (h, ◌>>=◌)

  pub bind-none : (p : Parser A) (f : A → Parser B) (s : MsgSeq) → p s ≡ none → (p >>= f) s ≡ none
  bind-none p f s h = rw (h, ◌>>=◌)

  -- A sequence reads what its parts read, one after the other.
  pub Reads-bind :
      {p : Parser A} (f : A → Parser B) {g g' : MsgSeq} {a : A} {b : B}
      → Reads p g a
      → Reads (f a) g' b
      → Reads (p >>= f) (g ++ g') b
  Reads-bind {p} f {g} {g'} h k = record {
    at =
        λ rest. rw append_assoc (bind-some p f (g ++ (g' ++ rest)) (h.at (g' ++ rest)) ∙ k.at rest);
  }

  -- A sequence whose last parser reads to the end.
  pub Reads-then :
      {p : Parser A} (f : A → Parser B) {g g' : MsgSeq} {a : A} {r : B × MsgSeq}
      → Reads p g a
      → f a g' ≡ some r
      → (p >>= f) (g ++ g') ≡ some r
  Reads-then {p} f {g} {g'} h k = bind-some p f (g ++ g') (h.at g') ∙ k

  pub Reads-last :
      {p : Parser A} (f : A → B) {g : MsgSeq} {a : A}
      → Reads p g a
      → Reads (p >>= λ x. attribute (f x)) g (f a)
  Reads-last {p} f {g} h = record {
    at = λ rest. bind-some p (λ x. attribute (f x)) (g ++ rest) (h.at rest);
  }

pub regroup : (g g' g'' rest : MsgSeq) → (g ++ (g' ++ g'')) ++ rest ≡ (g ++ g') ++ (g'' ++ rest)
regroup g g' g'' rest = simp append_assoc

module _ {A : Type 0} where
  pub Reads-regroup :
      {p : Parser A} (g g' g'' : MsgSeq) {a : A}
      → Reads p ((g ++ g') ++ g'') a
      → Reads p (g ++ (g' ++ g'')) a
  Reads-regroup {p} g g' g'' {a} = subst (λ x. Reads p x a) (append_assoc g g' g'')

  pub Reads-left :
      {p : Parser A} (q : Parser A) {g : MsgSeq} {a : A} → Reads p g a → Reads (alternative p q) g a
  Reads-left q h = record { at = λ rest. rw (h.at rest, alternative) }

  pub Reads-right :
      (p : Parser A) {q : Parser A} {g : MsgSeq} {a : A}
      → ((rest : MsgSeq) → p (g ++ rest) ≡ none)
      → Reads q g a
      → Reads (alternative p q) g a
  Reads-right p fails h = record { at = λ rest. rw (fails rest, alternative) (h.at rest) }

module _ (sp : Spirit) where
  open sp use {
    byte_, byte_-cons, byte_lit, byte_lit-cons, big_word, big_word-cons, big_dword, big_dword-cons,
    repeat, repeat_lem, plus_char, plus_char-cons, byte_g, byte_g_lem, big_word_g, big_word_g_lem,
    big_dword_g, big_dword_g_lem, string_g, string_g_lem,
  }

  pub byte_-byte_g : (n : ℕ) (rest : MsgSeq) → n < 256 → byte_ (byte_g n ++ rest) ≡ some (n, rest)
  byte_-byte_g n rest h = rw (byte_g_lem, byte_-cons) (ap (λ k. some (k, rest)) (omega arith))

  pub byte_lit-byte_g :
      (n : ℕ) (rest : MsgSeq) → n < 256 → byte_lit n (byte_g n ++ rest) ≡ some (n, rest)
  byte_lit-byte_g n rest h = rw (byte_g_lem, byte_lit-cons) (ground arith)

  pub big_word-big_word_g :
      (n : ℕ) (rest : MsgSeq) → n < 2 ^ 16 → big_word (big_word_g n ++ rest) ≡ some (n, rest)
  big_word-big_word_g n rest h =
      rw (big_word_g_lem, big_word-cons) (ap (λ k. some (k, rest)) (omega arith))

  pub big_dword-big_dword_g :
      (n : ℕ) (rest : MsgSeq) → n < 2 ^ 32 → big_dword (big_dword_g n ++ rest) ≡ some (n, rest)
  big_dword-big_dword_g n rest h =
      rw (big_dword_g_lem, big_dword-cons) (ap (λ k. some (k, rest)) (omega arith))

  pub repeat-string_g : (s rest : MsgSeq) → repeat (length s) (string_g s ++ rest) ≡ some (s, rest)
  repeat-string_g s rest =
      rw (string_g_lem, repeat_lem, take-append_length, drop-append_length)
        (ground (arith, length-append s rest))

  pub byte_-Reads : {n : ℕ} → n < 256 → Reads byte_ (byte_g n) n
  byte_-Reads {n} h = record { at = λ rest. byte_-byte_g n rest h }

  pub byte_lit-Reads : {n : ℕ} → n < 256 → Reads (byte_lit n) (byte_g n) n
  byte_lit-Reads {n} h = record { at = λ rest. byte_lit-byte_g n rest h }

  pub big_word-Reads : {n : ℕ} → n < 2 ^ 16 → Reads big_word (big_word_g n) n
  big_word-Reads {n} h = record { at = λ rest. big_word-big_word_g n rest h }

  pub big_dword-Reads : {n : ℕ} → n < 2 ^ 32 → Reads big_dword (big_dword_g n) n
  big_dword-Reads {n} h = record { at = λ rest. big_dword-big_dword_g n rest h }

  pub repeat-Reads : {s : MsgSeq} → Reads (repeat (length s)) (string_g s) s
  repeat-Reads {s} = record { at = repeat-string_g s }

  pub repeat-Reads_n : {n : ℕ} {s : MsgSeq} → length s ≡ n → Reads (repeat n) (string_g s) s
  repeat-Reads_n {s} h = subst (λ k. Reads (repeat k) (string_g s) s) h repeat-Reads

  pub plus_char-string_g : (b : ℕ) (s : MsgSeq) → plus_char (string_g (b ∷ s)) ≡ some (b ∷ s, [])
  plus_char-string_g b s = rw (string_g_lem, plus_char-cons)

  -- A literal refuses another byte, whatever the rest of its grammar.
  pub byte_lit-ne :
      {B : Type 0} (m n : ℕ) (f : ℕ → Parser B) (g rest : MsgSeq)
      → n < 256
      → n ≢ m
      → (byte_lit m >>= f) ((byte_g n ++ g) ++ rest) ≡ none
  byte_lit-ne m n f g rest h ne =
      bind-none (byte_lit m) f ((byte_g n ++ g) ++ rest)
        (rw (byte_g_lem, byte_lit-cons) (ground arith))

  pub big_word_lit-Reads : {n : ℕ} → n < 2 ^ 16 → Reads (sp.big_word_lit n) (big_word_g n) n
  big_word_lit-Reads {n} h = record {
    at = λ rest.
        rw (big_word_g_lem, sp.big_word_lit-cons n (n / 256 % 256) (n % 256) rest) (ground arith);
  }
