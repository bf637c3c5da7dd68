-- ===== src/Floats.antt =====
-- impl/erlang_value_types.cpp: floats, which are written as text.
-- The type `double`, the two conversions of the C library and the comparison with an epsilon are not
-- the program's, and are arguments.
use tinch_pp.Prelude.{ℕ, zero, suc, Bool, [], ◌∷◌, none, some, if◌then◌else◌}
use tinch_pp.Types.{MsgSeq}
use tinch_pp.Spirit.{Spirit, Parser, ◌>>=◌, attribute}
use tinch_pp.Terms.{float_ext, float_ext_g, float_digits}
use tinch_pp.Wildcards.{saved}

pub record Doubles : Type 1 where
  pub Double : Type 0
  -- `format("%.20e")`, `sscanf("%lf")`, and a difference below the epsilon.
  pub format : Double → MsgSeq
  pub scan : MsgSeq → Double
  pub equal_doubles : Double → Double → Bool

-- `std::string::resize`, which cuts or fills with zeros.
unfoldable pub resize : ℕ → MsgSeq → MsgSeq
resize zero s = []
resize (suc n) [] = 0 ∷ resize n []
resize (suc n) (b ∷ bs) = b ∷ resize n bs

module _ (sp : Spirit) (doubles : Doubles) where
  open doubles use {Double, format, scan, equal_doubles}

  unfoldable pub encode_float : Double → MsgSeq
  unfolding resize
  encode_float val = resize float_digits (format val)

  unfoldable pub serialize_float : Double → MsgSeq
  unfolding encode_float
  serialize_float val = float_ext_g sp (encode_float val)

  unfoldable pub match_float_value : Double → Parser (Unit {0})
  match_float_value val =
      float_ext sp >>= λ res f. if equal_doubles val (scan res) then some (tt, f) else none

  unfoldable pub assign_matched_float : Parser Double
  assign_matched_float = float_ext sp >>= λ res. attribute (scan res)

  abbrev pub match_any_float : Parser MsgSeq
  match_any_float = saved (float_ext sp)
