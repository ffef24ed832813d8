-- ===== src/AprsIs/Decode/Header.antt =====
-- The start of `decode` of src/APRS_IS.cpp: the sender, and the place of the discriminator.
use aprs_wx.AprsIs.Cursor.{Cursor, at_start, position_after, string_terminate_by}
use aprs_wx.AprsIs.Cursor.Fields.{string_terminate_by_field}
use aprs_wx.AprsIs.Cursor.Total.{advance, decode_char_at_index_inside}
use aprs_wx.AprsIs.Decode.{Station, decode, decode_body, on_discriminator}
use aprs_wx.Double.{Double}
use aprs_wx.Prelude.{
  Bytes, [], arith, drop, length, length-append, lt→ltb, ne→==, ok, ℕ, ◌++◌, ◌+◌, ◌∷◌, ◌≡◌, ◌≤◌,
}
use aprs_wx.Std.Text.{find, npos, size_add}
use aprs_wx.Std.Text.Access.{
  Fits, Lacks, byte_at, byte_at-append, find_from_absent, find_from_here, size_add_exact,
}
use mathlib.Core.List.{append_assoc}

-- The text before the first `x` is the result of `stringTerminateBy` on a new packet.
pub string_terminate_by_start :
    (x : ℕ) (pre rest : Bytes)
    → Lacks x pre
    → Fits (pre ++ x ∷ rest)
    → string_terminate_by x (at_start (pre ++ x ∷ rest))
      ≡ ok (pre, record { packet = pre ++ x ∷ rest; p0 = 0; p1 = length pre })
string_terminate_by_start x pre rest h f =
    let here : 0 + length pre ≡ length pre = omega arith in
    rw (string_terminate_by_field [] pre x rest npos h f) (rw here)

-- `positionAfter` a byte that stands in the packet.
pub position_after_found :
    (x : ℕ) (pre rest : Bytes) (q : ℕ)
    → Lacks x pre
    → Fits (pre ++ x ∷ rest)
    → position_after x (record { packet = pre ++ x ∷ rest; p0 = 0; p1 = q })
      ≡ record { packet = pre ++ x ∷ rest; p0 = length pre + 1; p1 = q }
unfolding position_after find
position_after_found x pre rest q h f =
    let short = length-append pre (x ∷ rest) in
    let here : 0 + length pre ≡ length pre = omega arith in
    rw (find_from_here x 0 pre rest h) (rw here (rw (size_add_exact (length pre) 1 (omega arith))))

-- `positionAfter` a byte that the packet lacks starts over at its first byte.
pub position_after_absent :
    (x : ℕ) (c : Cursor) → Lacks x (drop c.p0 c.packet) → position_after x c ≡ record c { p0 = 0 }
unfolding position_after find size_add
position_after_absent x c h = rw (find_from_absent x c.p0 (drop c.p0 c.packet) h)

-- The text of a packet, from its parts; `x` is the discriminator.
abbrev pub packet_text : (sender path : Bytes) → ℕ → Bytes → Bytes
packet_text sender path x body = (sender ++ b'>' ∷ path) ++ b':' ∷ x ∷ body

-- The sender is found in front of the whole header.
sender_found :
    (sender path : Bytes) (x : ℕ) (body : Bytes)
    → Lacks b'>' sender
    → Fits (packet_text sender path x body)
    → let s = packet_text sender path x body in
      string_terminate_by b'>' (at_start s)
      ≡ ok (sender, record { packet = s; p0 = 0; p1 = length sender })
sender_found sender path x body h f =
    let same = append_assoc sender (b'>' ∷ path) (b':' ∷ x ∷ body) in
    rw same (string_terminate_by_start b'>' sender (path ++ b':' ∷ x ∷ body) h (rw same at f))

module _ {F : Type 0} ⦃d : Double F⦄ (st : Station F) (now : ℕ) where
  pub decode_body_inside :
      (sender : Bytes) (c : Cursor)
      → Fits c.packet
      → c.p0 ≤ length c.packet
      → decode_body st now sender c
        ≡ on_discriminator st now sender (byte_at c.packet c.p0) (advance 1 c)
  unfolding decode_body
  decode_body_inside sender c f h = rw (decode_char_at_index_inside c f h)

  pub decode_header :
      (sender path : Bytes) (x : ℕ) (body : Bytes)
      → Lacks b'>' sender
      → Lacks b':' (sender ++ b'>' ∷ path)
      → Fits (packet_text sender path x body)
      → let s = packet_text sender path x body in
        decode st now (at_start s)
        ≡ on_discriminator st now sender x
            (record { packet = s; p0 = length (sender ++ b'>' ∷ path) + 1 + 1; p1 = length sender })
  unfolding decode
  decode_header sender path x body h k f =
      let head = sender ++ b'>' ∷ path in
      let s = packet_text sender path x body in
      let long = length-append head (b':' ∷ x ∷ body) in
      let c : Cursor = record { packet = s; p0 = length head + 1; p1 = length sender } in
      rw (sender_found sender path x body h f) (
        rw (position_after_found b':' head (x ∷ body) (length sender) k f) (
          rw (lt→ltb (length head + 1) (length s) (omega arith)) (
            rw (ne→== (length head + 1) npos (omega arith)) (
              rw (decode_body_inside sender c f (omega arith))
                (rw (byte_at-append head (b':' ∷ x ∷ body) 1))))))
