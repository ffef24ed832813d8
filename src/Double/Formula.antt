-- ===== src/Double/Formula.antt =====
-- Doubles as formulas: every operation is a constructor. An instance for examples, in which a result
-- shows what was computed.
use aprs_wx.Double.{Double}
use aprs_wx.Prelude.{
  Bool, Bytes, [], false, if◌then◌else◌, leb, ltb, suc, ℕ, ℤ, ◌&&◌, ◌-◌, ◌==◌, ◌||◌, ◌∷◌,
}

pub data Formula : Type 0 where
  literal : ℕ → ℕ → Formula
  of_long : ℤ → Formula
  of_unsigned : ℕ → Formula
  add sub mul div atan2 pow : Formula → Formula → Formula
  sin cos asin sqrt exp : Formula → Formula
  pi : Formula
  text : Bytes → Formula
  seconds : ℕ → Formula

-- The bytes of a plain decimal number: digits, a point, a minus sign.
abbrev is_number_byte : ℕ → Bool
is_number_byte c = (leb b'0' c && leb c b'9') || c == b'.' || c == b'-'

abbrev number_text : Bytes → Bytes
number_text [] = []
number_text (c ∷ s) = if is_number_byte c then c ∷ number_text s else []

abbrev text_length : Bytes → ℕ
text_length [] = 0
text_length (c ∷ s) = suc (text_length s)

-- Orders the elapsed times, and nothing else.
abbrev lt : Formula → Formula → Bool
lt (literal m k) (seconds t) = ltb m t
lt _ _ = false

abbrev show : Formula → Bytes
show (text s) = s
show _ = b'?' ∷ []

instance abbrev pub formula_double : Double Formula
formula_double = record {
  literal = literal;
  of_long = of_long;
  of_unsigned = of_unsigned;
  add = add;
  sub = sub;
  mul = mul;
  div = div;
  lt = lt;
  sin = sin;
  cos = cos;
  asin = asin;
  sqrt = sqrt;
  exp = exp;
  atan2 = atan2;
  pow = pow;
  pi = pi;
  strtod = λ s. (text (number_text s), text_length (number_text s));
  show_as = λ notation precision a. show a;
  show = show;
  elapsed = λ now then_. seconds (now - then_);
}
