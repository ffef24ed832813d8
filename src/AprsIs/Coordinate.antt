-- ===== src/AprsIs/Coordinate.antt =====
-- `decodeCoordinate` of src/APRS_IS.cpp.
pub mod Outcomes
use aprs_wx.AprsIs.Cursor.{Cursor, decode_char_at_index, decode_double, decode_long}
use aprs_wx.Double.{Double, whole, ◌⊕◌, ◌⊗◌, ◌⊘◌}
use aprs_wx.Prelude.{Option, Outcome, if◌then◌else◌, negsuc, none, ok, some, ℕ, ℤ, ◌==◌, ◌>>=◌}
use aprs_wx.Std.Text.{to_upper}

-- `enum class CoordinateType`.
pub data CoordinateType : Type 0 where
  latitude_ddm_msss : CoordinateType
  longitude_ddm_msss : CoordinateType

-- The constants that the `switch` sets: the letters of the two signs, and the length of the degrees.
abbrev pub positive_char : CoordinateType → ℕ
positive_char latitude_ddm_msss = b'N'
positive_char longitude_ddm_msss = b'E'

abbrev pub negative_char : CoordinateType → ℕ
negative_char latitude_ddm_msss = b'S'
negative_char longitude_ddm_msss = b'W'

abbrev pub degree_length : CoordinateType → ℕ
degree_length latitude_ddm_msss = 2
degree_length longitude_ddm_msss = 3

abbrev pub minute_length : ℕ
minute_length = 5

module _ {F : Type 0} ⦃d : Double F⦄ where
  -- The tests behind the decoded parts; `x` is the upper case sign letter.
  unfoldable pub signed_degrees : CoordinateType → Option ℤ → Option F → ℕ → Option F
  signed_degrees t (some whole_degrees) (some minutes) x =
      let angle = minutes ⊘ whole 60 ⊕ d.of_long whole_degrees in
      if x == positive_char t
      then some angle
      else if x == negative_char t
      then some (angle ⊗ d.of_long (negsuc 0))
      else none
  signed_degrees t (some whole_degrees) none x = none
  signed_degrees t none minutes x = none

  unfoldable pub decode_coordinate : CoordinateType → Cursor → Outcome (Option F × Cursor)
  decode_coordinate t c = do
    (whole_degrees, c1) ← decode_long (degree_length t) c
    (minutes, c2) ← decode_double minute_length (whole 1) c1
    (x, c3) ← decode_char_at_index c2
    ok (signed_degrees t whole_degrees minutes (to_upper x), c3)
