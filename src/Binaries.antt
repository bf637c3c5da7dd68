-- ===== src/Binaries.antt =====
-- impl/types.cpp and impl/erlang_value_types.cpp: binaries of whole bytes and bit strings.
use tinch_pp.Prelude.{
  ℕ, true, false, ◌-◌, ◌%◌, ◌^◌, Bool, ◌&&◌, not, [], ◌∷◌, Option, none, some, ltb, nat_beq,
  if◌then◌else◌,
}
use tinch_pp.Types.{MsgSeq, BinaryValue}
use tinch_pp.Spirit.{Spirit, Parser, ◌>>=◌, attribute, alternative}
use tinch_pp.Terms.{binary_ext, bit_binary_ext}

-- The constructors of `binary_value_type`: the empty binary, one of whole bytes, and a bit string.
abbrev pub empty_binary : BinaryValue
empty_binary = record { padding_bits = 0; value = [] }

abbrev pub whole_binary : MsgSeq → BinaryValue
whole_binary binary_data = record { padding_bits = 0; value = binary_data }

abbrev pub is_empty : MsgSeq → Bool
is_empty [] = true
is_empty (b ∷ bs) = false

-- `value[value.size() - 1] &= ~((1 << padding_bits) - 1)`: the low bits of the last byte are cleared.
unfoldable pub clear_last : ℕ → MsgSeq → MsgSeq
clear_last padding_bits [] = []
clear_last padding_bits (b ∷ []) = (b - b % 2 ^ padding_bits) ∷ []
clear_last padding_bits (b ∷ c ∷ bs) = b ∷ clear_last padding_bits (c ∷ bs)

-- `none` is the `encoding_error`. A negative padding is refused too, and is no number here.
unfoldable pub bit_string : MsgSeq → ℕ → Option BinaryValue
unfolding clear_last
bit_string binary_data padding_bits =
    if ltb 7 padding_bits
    then none
    else if not (nat_beq padding_bits 0) && is_empty binary_data
    then none
    else some (record { padding_bits = padding_bits; value = clear_last padding_bits binary_data })

-- A binary of whole bytes, or a bit string. The first keeps the default padding, 0.
module _ (sp : Spirit) where
  unfoldable pub any_binary : Parser BinaryValue
  any_binary =
      alternative
        (binary_ext sp >>= λ value. attribute (record { padding_bits = 0; value = value }))
        (bit_binary_ext sp)
