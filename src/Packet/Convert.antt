-- ===== src/Packet/Convert.antt =====
-- `safeConvert` of src/APRS_Packet.h at the two types that are decoded: `long` and `double`.
use aprs_wx.Double.{Double}
use aprs_wx.Prelude.{
  Bytes, Exception, Option, Outcome, [], arith, if◌then◌else◌, length, le→ltb, ltb, none, ok, refl,
  some, throws, ℕ, ℤ, ◌-◌, ◌<◌, ◌∷◌, ◌≡◌,
}
use aprs_wx.Std.Number.{FromChars, from_chars_long, invalid_argument, parsed, result_out_of_range}
use aprs_wx.Std.Text.{c_string}

-- The value if no error was reported and `ptr` is the end of the text.
unfoldable pub whole_text : FromChars ℤ → Option ℤ
whole_text (parsed v []) = some v
whole_text (parsed v (c ∷ s)) = none
whole_text invalid_argument = none
whole_text result_out_of_range = none

-- `safeConvert<long>`.
unfoldable pub safe_convert_long : Bytes → Option ℤ
unfolding whole_text from_chars_long
safe_convert_long [] = none
safe_convert_long (c ∷ s) = whole_text (from_chars_long (c ∷ s))

-- `BufferSize`.
abbrev pub buffer_size : ℕ
buffer_size = 64

module _ {F : Type 0} ⦃d : Double F⦄ where
  -- The result of `strtod` on the buffer, if it has read the whole text.
  abbrev pub parse_double : Bytes → Option F
  parse_double s =
      let (number, end) = d.strtod (c_string s) in if ltb end (length s) then none else some number

  -- `safeConvert<double>`: the buffer holds the text up to its first zero byte.
  unfoldable pub safe_convert_double : Bytes → Outcome (Option F)
  safe_convert_double [] = ok none
  safe_convert_double (c ∷ s) =
      if ltb (buffer_size - 1) (length (c ∷ s))
      then throws Exception.range_error
      else ok (parse_double (c ∷ s))

  -- What `safeConvert<double>` returns where it returns.
  abbrev pub converted : Bytes → Option F
  converted [] = none
  converted (c ∷ s) = parse_double (c ∷ s)

  -- A text that fits the buffer is converted or refused, with no exception.
  pub safe_convert_double_total :
      (s : Bytes) → length s < 64 → safe_convert_double s ≡ ok (converted s)
  unfolding safe_convert_double
  safe_convert_double_total [] h = refl
  safe_convert_double_total (c ∷ s) h = rw (le→ltb (buffer_size - 1) (length (c ∷ s)) (omega arith))
