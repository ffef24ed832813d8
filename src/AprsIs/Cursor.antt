-- ===== src/AprsIs/Cursor.antt =====
-- The packet text of `APRS_IS` with its two positions, and the methods of src/APRS_IS.h on them.
pub mod Fields
pub mod Total
use aprs_wx.Double.{Double, ◌⊘◌}
use aprs_wx.Packet.Convert.{safe_convert_double, safe_convert_long}
use aprs_wx.Prelude.{Bool, Bytes, Option, Outcome, none, ok, some, ℕ, ℤ, ◌>>=◌}
use aprs_wx.Std.Number.{strtol}
use aprs_wx.Std.Text.{c_string, char_at, find, npos, size_add, size_sub, starts_with, substr}

-- `mPacket`, `p0` and `p1`.
pub record Cursor : Type 0 where
  pub packet : Bytes
  pub p0 : ℕ
  pub p1 : ℕ

-- The positions that `getPacket` sets for a new packet.
abbrev pub at_start : Bytes → Cursor
at_start s = record { packet = s; p0 = 0; p1 = npos }

-- `charAtIndex`, with its default offset.
unfoldable pub char_at_index : Cursor → Outcome ℕ
unfolding char_at
char_at_index c = char_at c.packet c.p0

unfoldable pub decode_char_at_index : Cursor → Outcome (ℕ × Cursor)
decode_char_at_index c = do x ← char_at c.packet c.p0; ok (x, record c { p0 = size_add c.p0 1 })

-- `charAtEnd`, with its default offset.
unfoldable pub char_at_end : Cursor → Outcome ℕ
unfolding char_at
char_at_end c = char_at c.packet c.p1

-- `positionAt`, which returns the new `p0`.
unfoldable pub position_at : ℕ → Cursor → Cursor
position_at x c = record c { p0 = find c.packet x c.p0 }

-- `positionAfter`: a byte that is not found leaves `npos + 1`, which is 0.
unfoldable pub position_after : ℕ → Cursor → Cursor
unfolding position_at
position_after x c = let found = position_at x c in record found { p0 = size_add found.p0 1 }

unfoldable pub string_terminate_by : ℕ → Cursor → Outcome (Bytes × Cursor)
string_terminate_by x c = do
  let end = find c.packet x c.p0
  s ← substr c.packet c.p0 (size_sub end c.p0)
  ok (s, record c { p1 = end })

-- `intTerminateBy`.
unfoldable pub int_terminate_by : ℕ → Cursor → Outcome (ℤ × Cursor)
unfolding strtol
int_terminate_by x c = do
  let end = find c.packet x c.p0
  s ← substr c.packet c.p0 (size_sub end c.p0)
  ok (strtol s, record c { p1 = end })

unfoldable pub decode_string : ℕ → Cursor → Outcome (Bytes × Cursor)
decode_string n c = do s ← substr c.packet c.p0 n; ok (s, record c { p0 = size_add c.p0 n })

-- `remainder`.
unfoldable pub remainder : Cursor → Outcome Bytes
remainder c = substr c.packet c.p0 npos

-- `skip`, which returns the new `p0`.
unfoldable pub skip : Cursor → Cursor
skip c = record c { p0 = size_add c.p1 1; p1 = size_add c.p1 1 }

-- `prefix`: `rfind(pre, 0) == 0`.
unfoldable pub prefix : Bytes → Cursor → Bool
unfolding starts_with
prefix pre c = starts_with pre c.packet

-- `decodeValue<long>`, at the factor 1.
unfoldable pub decode_long : ℕ → Cursor → Outcome (Option ℤ × Cursor)
unfolding safe_convert_long
decode_long n c = do
  s ← substr c.packet c.p0 n
  ok (safe_convert_long s, record c { p0 = size_add c.p0 n })

module _ {F : Type 0} ⦃d : Double F⦄ where
  -- `value.value() / factor`, where there is a value.
  abbrev pub divided : F → Option F → Option F
  divided factor none = none
  divided factor (some v) = some (v ⊘ factor)

  -- `decodeValue<double>`.
  unfoldable pub decode_double : ℕ → F → Cursor → Outcome (Option F × Cursor)
  decode_double n factor c = do
    s ← substr c.packet c.p0 n
    number ← safe_convert_double s
    ok (divided factor number, record c { p0 = size_add c.p0 n })

  -- `doubleTerminateBy`.
  unfoldable pub double_terminate_by : ℕ → Cursor → Outcome (F × Cursor)
  double_terminate_by x c = do
    let end = find c.packet x c.p0
    s ← substr c.packet c.p0 (size_sub end c.p0)
    ok ((d.strtod (c_string s)).0, record c { p1 = end })
