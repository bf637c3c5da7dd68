-- ===== src/Spirit.antt =====
-- The primitives of Boost.Spirit that the grammars use, as an interface: Qi's parsers and Karma's
-- generators are no part of the repository. A grammar's `>>` and `<<` are read as sequence, `|` as
-- ordered choice, and `omit` as dropping a value. A parser that fails leaves its input alone, so
-- failure is `none`. The laws state what the documentation of the primitives says.
pub mod Laws
pub mod Yields
pub mod Reference
use tinch_pp.Prelude.{
  ℕ, ◌+◌, ◌*◌, ◌/◌, ◌%◌, ◌^◌, ◌≡◌, ◌<◌, List, [], ◌∷◌, ◌++◌, Option, none, some, length, take, drop,
  leb, nat_beq, if◌then◌else◌,
}
use tinch_pp.Types.{MsgSeq}

-- A parser of a value.
abbrev pub Parser : Type 0 → Type 0
Parser A = MsgSeq → Option (A × MsgSeq)

infixl 5 ◌>>=◌ ◌>>◌
abbrev pub ◌>>=◌ : {A B : Type 0} → Parser A → (A → Parser B) → Parser B
◌>>=◌ p f s = elim (p s) [ none ↦ none | some (a, rest) ↦ f a rest ]

abbrev pub ◌>>◌ : {A B : Type 0} → Parser A → Parser B → Parser B
p >> q = p >>= λ _. q

abbrev pub attribute : {A : Type 0} → A → Parser A
attribute a s = some (a, s)

-- `p | q`.
abbrev pub alternative : {A : Type 0} → Parser A → Parser A → Parser A
alternative p q s = elim (p s) [ none ↦ q s | some r ↦ some r ]

pub record Spirit : Type 0 where
  -- qi::byte_, and qi::char_ on a sequence of bytes.
  pub byte_ : Parser ℕ
  pub byte_-nil : byte_ [] ≡ none
  pub byte_-cons : (b : ℕ) (s : MsgSeq) → byte_ (b ∷ s) ≡ some (b, s)
  -- qi::byte_(n).
  pub byte_lit : ℕ → Parser ℕ
  pub byte_lit-nil : (n : ℕ) → byte_lit n [] ≡ none
  pub byte_lit-cons :
      (n b : ℕ) (s : MsgSeq) → byte_lit n (b ∷ s) ≡ (if nat_beq b n then some (b, s) else none)
  -- qi::big_word and qi::big_dword: unsigned, most significant byte first.
  pub big_word : Parser ℕ
  pub big_word-short : (s : MsgSeq) → length s < 2 → big_word s ≡ none
  pub big_word-cons : (a b : ℕ) (s : MsgSeq) → big_word (a ∷ b ∷ s) ≡ some (a * 256 + b, s)
  -- qi::big_word(n).
  pub big_word_lit : ℕ → Parser ℕ
  pub big_word_lit-short : (n : ℕ) (s : MsgSeq) → length s < 2 → big_word_lit n s ≡ none
  pub big_word_lit-cons :
      (n a b : ℕ) (s : MsgSeq)
      → big_word_lit n (a ∷ b ∷ s)
        ≡ (if nat_beq (a * 256 + b) n then some (a * 256 + b, s) else none)
  pub big_dword : Parser ℕ
  pub big_dword-short : (s : MsgSeq) → length s < 4 → big_dword s ≡ none
  pub big_dword-cons :
      (a b c d : ℕ) (s : MsgSeq)
      → big_dword (a ∷ b ∷ c ∷ d ∷ s) ≡ some (((a * 256 + b) * 256 + c) * 256 + d, s)
  -- qi::repeat(n)[byte_].
  pub repeat : ℕ → Parser MsgSeq
  pub repeat_lem :
      (n : ℕ) (s : MsgSeq)
      → repeat n s ≡ (if leb n (length s) then some (take n s, drop n s) else none)
  -- +qi::char_: at least one, and as many as there are.
  pub plus_char : Parser MsgSeq
  pub plus_char-nil : plus_char [] ≡ none
  pub plus_char-cons : (b : ℕ) (s : MsgSeq) → plus_char (b ∷ s) ≡ some (b ∷ s, [])
  -- karma::byte_, karma::big_word and karma::big_dword write the low bytes of their number.
  pub byte_g : ℕ → MsgSeq
  pub byte_g_lem : (n : ℕ) → byte_g n ≡ (n % 256) ∷ []
  pub big_word_g : ℕ → MsgSeq
  pub big_word_g_lem : (n : ℕ) → big_word_g n ≡ (n / 256 % 256) ∷ (n % 256) ∷ []
  pub big_dword_g : ℕ → MsgSeq
  pub big_dword_g_lem :
      (n : ℕ)
      → big_dword_g n ≡ (n / 16777216 % 256) ∷ (n / 65536 % 256) ∷ (n / 256 % 256) ∷ (n % 256) ∷ []
  -- karma::string, and `*char_` and `*byte_` on a sequence.
  pub string_g : MsgSeq → MsgSeq
  pub string_g_lem : (s : MsgSeq) → string_g s ≡ s
