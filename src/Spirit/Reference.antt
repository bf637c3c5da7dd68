-- ===== src/Spirit/Reference.antt =====
-- An implementation of the primitives, at which the theorems are applied in examples.
use tinch_pp.Prelude.{
  ℕ, ◌+◌, ◌*◌, ◌/◌, ◌%◌, ◌≡◌, ◌<◌, [], ◌∷◌, none, some, length, take, refl, arith, drop, leb,
  nat_beq, if◌then◌else◌,
}
use tinch_pp.Types.{MsgSeq}
use tinch_pp.Spirit.{Spirit, Parser}

abbrev read_byte : Parser ℕ
read_byte [] = none
read_byte (b ∷ s) = some (b, s)

abbrev read_literal : ℕ → Parser ℕ
read_literal n [] = none
read_literal n (b ∷ s) = if nat_beq b n then some (b, s) else none

abbrev read_word : Parser ℕ
read_word (a ∷ b ∷ s) = some (a * 256 + b, s)
read_word _ = none

abbrev read_word_literal : ℕ → Parser ℕ
read_word_literal n (a ∷ b ∷ s) = if nat_beq (a * 256 + b) n then some (a * 256 + b, s) else none
read_word_literal n _ = none

abbrev read_dword : Parser ℕ
read_dword (a ∷ b ∷ c ∷ d ∷ s) = some (((a * 256 + b) * 256 + c) * 256 + d, s)
read_dword _ = none

abbrev read_chars : Parser MsgSeq
read_chars [] = none
read_chars (b ∷ s) = some (b ∷ s, [])

pub read_word-short : (s : MsgSeq) → length s < 2 → read_word s ≡ none
read_word-short [] h = refl
read_word-short (a ∷ []) h = refl
read_word-short (a ∷ b ∷ s) h = absurd (omega arith)

pub read_word_literal-short : (n : ℕ) (s : MsgSeq) → length s < 2 → read_word_literal n s ≡ none
read_word_literal-short n [] h = refl
read_word_literal-short n (a ∷ []) h = refl
read_word_literal-short n (a ∷ b ∷ s) h = absurd (omega arith)

pub read_dword-short : (s : MsgSeq) → length s < 4 → read_dword s ≡ none
read_dword-short [] h = refl
read_dword-short (a ∷ []) h = refl
read_dword-short (a ∷ b ∷ []) h = refl
read_dword-short (a ∷ b ∷ c ∷ []) h = refl
read_dword-short (a ∷ b ∷ c ∷ d ∷ s) h = absurd (omega arith)

abbrev pub reference : Spirit
reference = record {
  byte_ = read_byte;
  byte_-nil = refl;
  byte_-cons = λ b s. refl;
  byte_lit = read_literal;
  byte_lit-nil = λ n. refl;
  byte_lit-cons = λ n b s. refl;
  big_word = read_word;
  big_word-short = read_word-short;
  big_word-cons = λ a b s. refl;
  big_word_lit = read_word_literal;
  big_word_lit-short = read_word_literal-short;
  big_word_lit-cons = λ n a b s. refl;
  big_dword = read_dword;
  big_dword-short = read_dword-short;
  big_dword-cons = λ a b c d s. refl;
  repeat = λ n s. if leb n (length s) then some (take n s, drop n s) else none;
  repeat_lem = λ n s. refl;
  plus_char = read_chars;
  plus_char-nil = refl;
  plus_char-cons = λ b s. refl;
  byte_g = λ n. (n % 256) ∷ [];
  byte_g_lem = λ n. refl;
  big_word_g = λ n. (n / 256 % 256) ∷ (n % 256) ∷ [];
  big_word_g_lem = λ n. refl;
  big_dword_g = λ n. (n / 16777216 % 256) ∷ (n / 65536 % 256) ∷ (n / 256 % 256) ∷ (n % 256) ∷ [];
  big_dword_g_lem = λ n. refl;
  string_g = λ s. s;
  string_g_lem = λ s. refl;
}
