-- ===== src/Terms/Ranges.antt =====
-- The values that the grammars of impl/ext_term_grammar.h return on any bytes fit the format.
use tinch_pp.Prelude.{ℕ, ◌*◌, ◌^◌, ◌<◌, arith, length}
use tinch_pp.Types.{IsByte, BinaryValue}
use tinch_pp.Spirit.{Spirit, Parser, ◌>>=◌}
use tinch_pp.Spirit.Yields.{
  Yields, Yields-mono, Yields-alternative, Yields-bind, Yields-last, byte_-Yields, byte_lit-Yields,
  big_word-Yields, big_dword-Yields, repeat-Yields,
}
use tinch_pp.Terms.{
  small_integer, integer_ext, integer, atom_ext, pid_ext, new_reference_ext_p, small_tuple_head_ext,
  list_head_ext, string_head_ext, binary_ext, bit_binary_ext, float_ext, tag_small_integer,
  tag_integer, tag_atom_ext, tag_pid, tag_new_reference_ext, tag_small_tuple, tag_list,
  tag_string_ext, tag_binary_ext, tag_bit_binary_ext, tag_float_ext, float_digits,
}
use tinch_pp.Terms.RoundTrip.{FitsAtom, FitsPid, FitsReference}

abbrev pub Below16 : ℕ → Type 0
Below16 n = n < 2 ^ 16

abbrev pub Below32 : ℕ → Type 0
Below32 n = n < 2 ^ 32

abbrev pub FitsBinary : BinaryValue → Type 0
FitsBinary v = (length v.value < 2 ^ 32) × (v.padding_bits < 256)

module _ (sp : Spirit) where
  -- A tag in front of a value.
  behind :
      {A : Type 0} {P : A → Type 0} {p : Parser A} (tag : ℕ)
      → Yields p P
      → Yields (sp.byte_lit tag >>= λ _. p) P
  behind tag h = Yields-bind (byte_lit-Yields sp tag) (λ _ _. h)

  pub integer-Yields : Yields (integer sp) Below32
  unfolding integer small_integer integer_ext
  integer-Yields =
      Yields-alternative
        (behind tag_small_integer (Yields-mono Below32 (λ n h. omega (arith, h)) (byte_-Yields sp)))
        (behind tag_integer (big_dword-Yields sp))

  pub atom_ext-Yields : Yields (atom_ext sp) FitsAtom
  unfolding atom_ext
  atom_ext-Yields = behind tag_atom_ext (
      Yields-bind (big_word-Yields sp)
        (λ n h. Yields-mono FitsAtom (λ v k. omega (arith, h, k.0)) (repeat-Yields sp n)))

  pub pid_ext-Yields : Yields (pid_ext sp) FitsPid
  unfolding pid_ext
  pid_ext-Yields = behind tag_pid (
      Yields-bind atom_ext-Yields (λ _ name_fits. Yields-bind (big_dword-Yields sp) (λ _ id_fits.
        Yields-bind (big_dword-Yields sp) (λ _ serial_fits.
          Yields-last _ (byte_-Yields sp) (λ _ creation_fits. record {
            name_fits = name_fits;
            id_fits = id_fits;
            serial_fits = serial_fits;
            creation_fits = creation_fits;
          })))))

  pub new_reference_ext-Yields : Yields (new_reference_ext_p sp) FitsReference
  unfolding new_reference_ext_p
  new_reference_ext-Yields = behind tag_new_reference_ext (
      Yields-bind (big_word-Yields sp) (λ n words. Yields-bind atom_ext-Yields (λ _ name_fits.
        Yields-bind (byte_-Yields sp) (λ _ creation_fits.
          Yields-last _ (repeat-Yields sp (n * 4)) (λ v sized. record {
            name_fits = name_fits;
            creation_fits = creation_fits;
            id_words = omega (arith, sized.0);
            id_fits = omega (arith, sized.0, words);
          })))))

  pub small_tuple_head-Yields : Yields (small_tuple_head_ext sp) IsByte
  unfolding small_tuple_head_ext
  small_tuple_head-Yields = behind tag_small_tuple (byte_-Yields sp)

  pub list_head-Yields : Yields (list_head_ext sp) Below32
  unfolding list_head_ext
  list_head-Yields = behind tag_list (big_dword-Yields sp)

  pub string_head-Yields : Yields (string_head_ext sp) Below16
  unfolding string_head_ext
  string_head-Yields = behind tag_string_ext (big_word-Yields sp)

  pub float_ext-Yields : Yields (float_ext sp) FitsAtom
  unfolding float_ext
  float_ext-Yields =
      behind tag_float_ext
        (Yields-mono FitsAtom (λ v k. omega (arith, k.0)) (repeat-Yields sp float_digits))

  pub binary_ext-Yields : Yields (binary_ext sp) (λ v. length v < 2 ^ 32)
  unfolding binary_ext
  binary_ext-Yields = behind tag_binary_ext (
      Yields-bind (big_dword-Yields sp) (λ n h.
        Yields-mono (λ v. length v < 2 ^ 32) (λ v k. omega (arith, h, k.0)) (repeat-Yields sp n)))

  pub bit_binary_ext-Yields : Yields (bit_binary_ext sp) FitsBinary
  unfolding bit_binary_ext
  bit_binary_ext-Yields = behind tag_bit_binary_ext (
      Yields-bind (big_dword-Yields sp) (λ n h. Yields-bind (byte_-Yields sp) (λ _ padding.
        Yields-last _ (repeat-Yields sp n) (λ v k. (omega (arith, h, k.0), padding)))))
