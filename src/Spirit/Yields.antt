-- ===== src/Spirit/Yields.antt =====
-- What is known of the value of a parser, whatever bytes it is run on.
use tinch_pp.Prelude.{
  ℕ, zero, suc, ◌^◌, ◌<◌, ◌≤◌, ◌≡◌, ◌∙◌, refl, ap, sym, subst, append_assoc, [], ◌∷◌, ◌++◌, Option,
  none, some, arith, length, take, drop, take-append-drop, All, leb, Bool, true, false, nat_beq,
  if◌then◌else◌, inl, inr, Bool-cases,
}
use tinch_pp.Types.{MsgSeq, IsByte}
use tinch_pp.Spirit.{Spirit, Parser, ◌>>=◌, attribute, alternative}

-- The bytes that are left are the end of those that were there.
pub record Leaves (s rest : MsgSeq) : Type 0 where
  pub consumed : MsgSeq
  pub split : s ≡ consumed ++ rest

-- An outcome of a parser whose value, if there is one, has the property.
pub data Fine {A : Type 0} (P : A → Type 0) (s : MsgSeq) : Option (A × MsgSeq) → Type 0 where
  nothing : Fine P s none
  value : {a : A} {rest : MsgSeq} → P a → Leaves s rest → Fine P s (some (a, rest))

-- Every value that the parser returns on bytes has the property, and it leaves an end of its input.
pub record Yields {A : Type 0} (p : Parser A) (P : A → Type 0) : Type 0 where
  pub at : (s : MsgSeq) → All IsByte s → Fine P s (p s)

All-end : (g rest : MsgSeq) → All IsByte (g ++ rest) → All IsByte rest
All-end [] rest h = h
All-end (b ∷ g) rest h = All-end g rest h.1

All-start : (g rest : MsgSeq) → All IsByte (g ++ rest) → All IsByte g
All-start [] rest h = tt
All-start (b ∷ g) rest h = (h.0, All-start g rest h.1)

pub Leaves-bytes : {s rest : MsgSeq} → Leaves s rest → All IsByte s → All IsByte rest
Leaves-bytes {rest} l h = All-end l.consumed rest (subst (All IsByte) l.split h)

pub Leaves-none : {s : MsgSeq} → Leaves s s
Leaves-none = record { consumed = []; split = refl }

Leaves-trans : {s r t : MsgSeq} → Leaves s r → Leaves r t → Leaves s t
Leaves-trans {t} l m = record {
  consumed = l.consumed ++ m.consumed;
  split = l.split ∙ ap (λ x. l.consumed ++ x) m.split ∙ sym (append_assoc l.consumed m.consumed t);
}

length-take : (n : ℕ) (s : MsgSeq) → n ≤ length s → length (take n s) ≡ n
length-take zero s h = refl
length-take (suc n) [] h = absurd (omega arith)
length-take (suc n) (b ∷ s) h = ap suc (length-take n s (omega arith))

module _ {A : Type 0} (P : A → Type 0) where
  pub Fine-trans : {s r : MsgSeq} (o : Option (A × MsgSeq)) → Leaves s r → Fine P r o → Fine P s o
  Fine-trans none l nothing = nothing
  Fine-trans (some (a, rest)) l (value h m) = value h (Leaves-trans l m)

  -- A known outcome.
  settled :
      {s r : MsgSeq} {a : A} {o : Option (A × MsgSeq)}
      → o ≡ some (a, r)
      → P a
      → Leaves s r
      → Fine P s o
  settled {s} known h l = subst (Fine P s) (sym known) (value h l)

  refused : (s : MsgSeq) {o : Option (A × MsgSeq)} → o ≡ none → Fine P s o
  refused s known = subst (Fine P s) (sym known) nothing

  Fine-or :
      (s : MsgSeq) (o o' : Option (A × MsgSeq))
      → Fine P s o
      → Fine P s o'
      → Fine P s (elim o [ none ↦ o' | some r ↦ some r ])
  Fine-or s none o' nothing k = k
  Fine-or s (some (a, rest)) o' (value h l) k = value h l

module _ {A : Type 0} {P : A → Type 0} where
  Fine-mono :
      (Q : A → Type 0)
      → ((a : A) → P a → Q a)
      → (s : MsgSeq) (o : Option (A × MsgSeq)) → Fine P s o
      → Fine Q s o
  Fine-mono Q f s none nothing = nothing
  Fine-mono Q f s (some (a, r)) (value h l) = value (f a h) l

  Fine-some :
      {s rest : MsgSeq} {a : A} (o : Option (A × MsgSeq))
      → Fine P s o
      → o ≡ some (a, rest)
      → P a × Leaves s rest
  Fine-some none h e = absurd (cc e)
  Fine-some {s} {rest} {a} (some (b, r)) (value h l) e =
      let left : b ≡ a = cc e in
      let right : r ≡ rest = cc e in (subst P left h, subst (Leaves s) right l)

  pub Yields-some :
      {p : Parser A} {s rest : MsgSeq} {a : A}
      → Yields p P
      → All IsByte s
      → p s ≡ some (a, rest)
      → P a × Leaves s rest
  Yields-some {p} {s} h bytes e = Fine-some (p s) (h.at s bytes) e

  pub Yields-attribute : {a : A} → P a → Yields (attribute a) P
  Yields-attribute h = record { at = λ s bytes. value h Leaves-none }

  pub Yields-alternative : {p q : Parser A} → Yields p P → Yields q P → Yields (alternative p q) P
  Yields-alternative {p} {q} h k = record {
    at = λ s bytes. Fine-or P s (p s) (q s) (h.at s bytes) (k.at s bytes);
  }

  pub Yields-if : {p : Parser A} (b : Bool) → Yields p P → Yields (λ s. if b then p s else none) P
  Yields-if true h = record { at = λ s bytes. h.at s bytes }
  Yields-if false h = record { at = λ s bytes. nothing }

  pub Yields-unless :
      {p : Parser A} (b : Bool) → Yields p P → Yields (λ s. if b then none else p s) P
  Yields-unless true h = record { at = λ s bytes. nothing }
  Yields-unless false h = record { at = λ s bytes. h.at s bytes }

  pub Fine-if :
      (b : Bool) {s : MsgSeq} {o o' : Option (A × MsgSeq)}
      → Fine P s o
      → Fine P s o'
      → Fine P s (if b then o else o')
  Fine-if true h k = h
  Fine-if false h k = k

  pub Yields-mono :
      {p : Parser A} (Q : A → Type 0) → ((a : A) → P a → Q a) → Yields p P → Yields p Q
  Yields-mono {p} Q f h = record { at = λ s bytes. Fine-mono Q f s (p s) (h.at s bytes) }

module _ {A B : Type 0} (P : A → Type 0) (Q : B → Type 0) where
  Fine-bind :
      {f : A → Parser B}
      → ((a : A) → P a → Yields (f a) Q)
      → (s : MsgSeq) → All IsByte s
      → (o : Option (A × MsgSeq)) → Fine P s o
      → Fine Q s (elim o [ none ↦ none | some (a, r) ↦ f a r ])
  Fine-bind k s bytes none nothing = nothing
  Fine-bind {f} k s bytes (some (a, r)) (value h l) =
      Fine-trans Q (f a r) l ((k a h).at r (Leaves-bytes l bytes))

module _ {A B : Type 0} {P : A → Type 0} {Q : B → Type 0} where
  -- What follows may use what is known of the value.
  pub Yields-bind :
      {p : Parser A} {f : A → Parser B}
      → Yields p P
      → ((a : A) → P a → Yields (f a) Q)
      → Yields (p >>= f) Q
  Yields-bind {p} h k = record { at = λ s bytes. Fine-bind P Q k s bytes (p s) (h.at s bytes) }

  pub Yields-last :
      {p : Parser A} (f : A → B)
      → Yields p P
      → ((a : A) → P a → Q (f a))
      → Yields (p >>= λ a. attribute (f a)) Q
  Yields-last f h g = Yields-bind h (λ a x. Yields-attribute (g a x))

pub All-take : (n : ℕ) (s : MsgSeq) → All IsByte s → All IsByte (take n s)
All-take n s h = All-start (take n s) (drop n s) (subst (All IsByte) (sym (take-append-drop n s)) h)

pub All-append : (s t : MsgSeq) → All IsByte s → All IsByte t → All IsByte (s ++ t)
All-append [] t h k = k
All-append (b ∷ s) t h k = (h.0, All-append s t h.1 k)

abbrev one_byte : (b : ℕ) (s : MsgSeq) → Leaves (b ∷ s) s
one_byte b s = record { consumed = b ∷ []; split = refl }

module _ (sp : Spirit) where
  pub byte_-Yields : Yields sp.byte_ IsByte
  byte_-Yields = record { at = go }
    where
      go : (s : MsgSeq) → All IsByte s → Fine IsByte s (sp.byte_ s)
      go [] h = refused IsByte [] sp.byte_-nil
      go (b ∷ s) h = settled IsByte (sp.byte_-cons b s) h.0 (one_byte b s)

  pub byte_lit-Yields : (n : ℕ) → Yields (sp.byte_lit n) (λ b. b ≡ n)
  byte_lit-Yields n = record { at = go }
    where
      go : (s : MsgSeq) → All IsByte s → Fine (λ b. b ≡ n) s (sp.byte_lit n s)
      go [] h = refused (λ b. b ≡ n) [] (sp.byte_lit-nil n)
      go (b ∷ s) h = elim (Bool-cases (nat_beq b n)) [
        | inl same ↦
            settled (λ b. b ≡ n) {a = b}
              (sp.byte_lit-cons n b s ∙ ap (λ t. if t then some (b, s) else none) same)
              (ground arith) (one_byte b s)
        | inr other ↦
            refused (λ b. b ≡ n) (b ∷ s)
              (sp.byte_lit-cons n b s ∙ ap (λ t. if t then some (b, s) else none) other)
      ]

  pub big_word-Yields : Yields sp.big_word (λ n. n < 2 ^ 16)
  big_word-Yields = record { at = go }
    where
      go : (s : MsgSeq) → All IsByte s → Fine (λ n. n < 2 ^ 16) s (sp.big_word s)
      go [] h = refused (λ n. n < 2 ^ 16) [] (sp.big_word-short [] (omega arith))
      go (b ∷ []) h = refused (λ n. n < 2 ^ 16) (b ∷ []) (sp.big_word-short (b ∷ []) (omega arith))
      go (b ∷ c ∷ s) h =
          settled (λ n. n < 2 ^ 16) (sp.big_word-cons b c s) (omega (arith, h.0, h.1.0))
            (record { consumed = b ∷ c ∷ []; split = refl })

  pub big_dword-Yields : Yields sp.big_dword (λ n. n < 2 ^ 32)
  big_dword-Yields = record { at = go }
    where
      go : (s : MsgSeq) → All IsByte s → Fine (λ n. n < 2 ^ 32) s (sp.big_dword s)
      go [] h = refused (λ n. n < 2 ^ 32) [] (sp.big_dword-short [] (omega arith))
      go (b ∷ []) h = refused (λ n. n < 2 ^ 32) (b ∷ []) (sp.big_dword-short (b ∷ []) (omega arith))
      go (b ∷ c ∷ []) h =
          refused (λ n. n < 2 ^ 32) (b ∷ c ∷ []) (sp.big_dword-short (b ∷ c ∷ []) (omega arith))
      go (b ∷ c ∷ d ∷ []) h =
          refused (λ n. n < 2 ^ 32) (b ∷ c ∷ d ∷ [])
            (sp.big_dword-short (b ∷ c ∷ d ∷ []) (omega arith))
      go (b ∷ c ∷ d ∷ k ∷ s) h =
          settled (λ n. n < 2 ^ 32) (sp.big_dword-cons b c d k s)
            (omega (arith, h.0, h.1.0, h.1.1.0, h.1.1.1.0))
            (record { consumed = b ∷ c ∷ d ∷ k ∷ []; split = refl })

  pub repeat-Yields : (n : ℕ) → Yields (sp.repeat n) (λ v. (length v ≡ n) × All IsByte v)
  repeat-Yields n = record {
    at = λ s h. elim (Bool-cases (leb n (length s))) [
      | inl enough ↦
          settled (λ v. (length v ≡ n) × All IsByte v) {a = take n s}
            (sp.repeat_lem n s ∙ ap (λ t. if t then some (take n s, drop n s) else none) enough)
            (length-take n s (ground arith), All-take n s h)
            (record { consumed = take n s; split = sym (take-append-drop n s) })
      | inr short ↦
          refused (λ v. (length v ≡ n) × All IsByte v) s
            (sp.repeat_lem n s ∙ ap (λ t. if t then some (take n s, drop n s) else none) short)
    ];
  }
