-- ===== src/AprsIs/Cursor/Total.antt =====
-- The methods of src/APRS_IS.h on the packet text, by the place of the cursor.
use aprs_wx.AprsIs.Cursor.{Cursor, decode_char_at_index, decode_double, decode_long, divided}
use aprs_wx.Double.{Double}
use aprs_wx.Packet.Convert.{converted, safe_convert_double_total, safe_convert_long}
use aprs_wx.Prelude.{
  Exception, arith, drop, length, length-take, ok, take, throws, undefined, ℕ, ◌+◌, ◌<◌, ◌≡◌, ◌≤◌,
}
use aprs_wx.Std.Text.Access.{
  Fits, byte_at, char_at_inside, char_at_outside, size_add_exact, substr_inside, substr_outside,
}

-- The cursor with `n` more bytes read.
abbrev pub advance : ℕ → Cursor → Cursor
advance n c = record c { p0 = c.p0 + n }

pub decode_char_at_index_inside :
    (c : Cursor)
    → Fits c.packet
    → c.p0 ≤ length c.packet
    → decode_char_at_index c ≡ ok (byte_at c.packet c.p0, advance 1 c)
unfolding decode_char_at_index
decode_char_at_index_inside c f h =
    rw (char_at_inside c.packet c.p0 h) (rw (size_add_exact c.p0 1 (omega arith)))

pub decode_char_at_index_outside :
    (c : Cursor) → length c.packet < c.p0 → decode_char_at_index c ≡ undefined
unfolding decode_char_at_index
decode_char_at_index_outside c h = rw (char_at_outside c.packet c.p0 h)

pub decode_long_inside :
    (n : ℕ) (c : Cursor)
    → Fits c.packet
    → n < 64
    → c.p0 ≤ length c.packet
    → decode_long n c ≡ ok (safe_convert_long (take n (drop c.p0 c.packet)), advance n c)
unfolding decode_long
decode_long_inside n c f b h =
    rw (substr_inside c.packet c.p0 n h) (rw (size_add_exact c.p0 n (omega arith)))

pub decode_long_outside :
    (n : ℕ) (c : Cursor) → length c.packet < c.p0 → decode_long n c ≡ throws Exception.out_of_range
unfolding decode_long
decode_long_outside n c h = rw (substr_outside c.packet c.p0 n h)

module _ {F : Type 0} ⦃d : Double F⦄ where
  pub decode_double_inside :
      (n : ℕ) (factor : F) (c : Cursor)
      → Fits c.packet
      → n < 64
      → c.p0 ≤ length c.packet
      → decode_double n factor c
        ≡ ok (divided factor (converted (take n (drop c.p0 c.packet))), advance n c)
  unfolding decode_double
  decode_double_inside n factor c f b h =
      let s = take n (drop c.p0 c.packet) in
      rw (substr_inside c.packet c.p0 n h) (
        rw (safe_convert_double_total s (omega (arith, length-take n (drop c.p0 c.packet))))
          (rw (size_add_exact c.p0 n (omega arith))))

  pub decode_double_outside :
      (n : ℕ) (factor : F) (c : Cursor)
      → length c.packet < c.p0
      → decode_double n factor c ≡ throws Exception.out_of_range
  unfolding decode_double
  decode_double_outside n factor c h = rw (substr_outside c.packet c.p0 n h)

pub advance-zero : (c : Cursor) → advance 0 c ≡ c
advance-zero c = ground arith

pub advance-advance : (m n : ℕ) (c : Cursor) → advance m (advance n c) ≡ advance (n + m) c
advance-advance m n c = ground arith
