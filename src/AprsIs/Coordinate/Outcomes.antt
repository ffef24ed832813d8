-- ===== src/AprsIs/Coordinate/Outcomes.antt =====
-- `decodeCoordinate` of src/APRS_IS.cpp, by the number of bytes that are left.
use aprs_wx.AprsIs.Coordinate.{
  CoordinateType, decode_coordinate, degree_length, latitude_ddm_msss, longitude_ddm_msss,
  minute_length, signed_degrees,
}
use aprs_wx.AprsIs.Cursor.{Cursor, divided}
use aprs_wx.AprsIs.Cursor.Total.{
  advance, decode_char_at_index_inside, decode_char_at_index_outside, decode_double_inside,
  decode_double_outside, decode_long_inside, decode_long_outside,
}
use aprs_wx.Double.{Double, whole}
use aprs_wx.Packet.Convert.{converted, safe_convert_long}
use aprs_wx.Prelude.{
  Bool-cases, Bytes, Exception, Option, arith, drop, drop-drop, if◌then◌else◌, inl, inr, length,
  ltb, ltb-false, ltb→lt, ok, take, throws, undefined, ◌+◌, ◌-◌, ◌<◌, ◌≡◌, ◌≤◌,
}
use aprs_wx.Std.Text.{to_upper}
use aprs_wx.Std.Text.Access.{Fits, byte_at, byte_at-drop}
use native.Mathlib.Nat.{add_assoc}

degree_length-lt : (t : CoordinateType) → degree_length t < 64
degree_length-lt latitude_ddm_msss = omega arith
degree_length-lt longitude_ddm_msss = omega arith

module _ {F : Type 0} ⦃d : Double F⦄ where
  -- The value of the coordinate at the head of a text.
  abbrev pub coordinate : CoordinateType → Bytes → Option F
  coordinate t s =
      signed_degrees t (safe_convert_long (take (degree_length t) s))
        (divided (whole 1) (converted (take minute_length (drop (degree_length t) s))))
        (to_upper (byte_at s (degree_length t + minute_length)))

  -- `decode_coordinate` reads the place of the sign letter unchecked.
  pub decode_coordinate_inside :
      (t : CoordinateType) (c : Cursor)
      → Fits c.packet
      → c.p0 + degree_length t + minute_length ≤ length c.packet
      → decode_coordinate t c
        ≡ ok (coordinate t (drop c.p0 c.packet), advance (degree_length t + 6) c)
  unfolding decode_coordinate
  decode_coordinate_inside latitude_ddm_msss c f h =
      rw (decode_long_inside 2 c f (omega arith) (omega arith)) (
        rw (decode_double_inside 5 (whole 1) (advance 2 c) f (omega arith) (omega arith)) (
          rw (decode_char_at_index_inside (advance 5 (advance 2 c)) f (omega arith))
            (simp (drop-drop, byte_at-drop, add_assoc))))
  decode_coordinate_inside longitude_ddm_msss c f h =
      rw (decode_long_inside 3 c f (omega arith) (omega arith)) (
        rw (decode_double_inside 5 (whole 1) (advance 3 c) f (omega arith) (omega arith)) (
          rw (decode_char_at_index_inside (advance 5 (advance 3 c)) f (omega arith))
            (ground (arith, drop-drop 3 c.p0 c.packet, byte_at-drop c.packet c.p0 8))))

  pub decode_coordinate_short :
      (t : CoordinateType) (c : Cursor)
      → Fits c.packet
      → c.p0 ≤ length c.packet
      → length c.packet < c.p0 + degree_length t
      → decode_coordinate {F = F} t c ≡ throws Exception.out_of_range
  unfolding decode_coordinate
  decode_coordinate_short t c f h k =
      rw (decode_long_inside (degree_length t) c f (degree_length-lt t) h)
        (rw (decode_double_outside minute_length (whole 1) (advance (degree_length t) c) k))

  pub decode_coordinate_outside :
      (t : CoordinateType) (c : Cursor)
      → length c.packet < c.p0
      → decode_coordinate {F = F} t c ≡ throws Exception.out_of_range
  unfolding decode_coordinate
  decode_coordinate_outside t c h = rw (decode_long_outside (degree_length t) c h)

  pub decode_coordinate_cut :
      (t : CoordinateType) (c : Cursor)
      → Fits c.packet
      → c.p0 + degree_length t ≤ length c.packet
      → length c.packet < c.p0 + degree_length t + minute_length
      → decode_coordinate {F = F} t c ≡ undefined
  unfolding decode_coordinate
  decode_coordinate_cut t c f h k =
      rw (decode_long_inside (degree_length t) c f (degree_length-lt t) (omega arith)) (
        rw
          (decode_double_inside minute_length (whole 1) (advance (degree_length t) c) f
            (omega arith) h)
          (rw
            (decode_char_at_index_outside (advance minute_length (advance (degree_length t) c)) k)))

  -- `decodeCoordinate` from a position inside the packet or at its end: with too few bytes for the
  -- degrees it throws; with the degrees but not all of the minutes it reads behind the packet's
  -- terminating zero, which is undefined; otherwise it returns the coordinate that stands at the
  -- position, and has read it whole.
  pub decode_coordinate_outcomes :
      (t : CoordinateType) (c : Cursor)
      → Fits c.packet
      → c.p0 ≤ length c.packet
      → let left = length c.packet - c.p0 in
        decode_coordinate t c ≡ (
          if ltb left (degree_length t)
          then throws Exception.out_of_range
          else if ltb left (degree_length t + minute_length)
          then undefined
          else ok (coordinate t (drop c.p0 c.packet), advance (degree_length t + 6) c))
  decode_coordinate_outcomes t c f h =
      let left = length c.packet - c.p0 in
      elim (Bool-cases (ltb left (degree_length t))) [
        | inl short ↦
            rw short
              (decode_coordinate_short t c f h (omega (arith, ltb→lt left (degree_length t) short)))
        | inr long ↦
            let l : degree_length t ≤ left = ltb-false left (degree_length t) long in
            rw long (elim (Bool-cases (ltb left (degree_length t + minute_length))) [
              | inl cut ↦ rw cut (
                  decode_coordinate_cut t c f (omega arith)
                    (omega (arith, ltb→lt left (degree_length t + minute_length) cut)))
              | inr enough ↦ rw enough (
                  decode_coordinate_inside t c f
                    (omega (arith, ltb-false left (degree_length t + minute_length) enough)))
            ])
      ]
