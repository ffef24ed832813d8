-- ===== src/AprsIs/Decode/Packets.antt =====
-- `decode` of src/APRS_IS.cpp on whole packets, cut ones, and ones with no colon.
use aprs_wx.AprsIs.Coordinate.{latitude_ddm_msss, longitude_ddm_msss}
use aprs_wx.AprsIs.Coordinate.Outcomes.{
  coordinate, decode_coordinate_cut, decode_coordinate_outside, decode_coordinate_short,
}
use aprs_wx.AprsIs.Cursor.{Cursor, at_start}
use aprs_wx.AprsIs.Cursor.Total.{advance}
use aprs_wx.AprsIs.Decode.{Station, decode, decode_report, is_report, on_discriminator, station_at}
use aprs_wx.AprsIs.Decode.Body.{
  ReportOutcome, date_length, dated, decode_date_inside, decode_report_outcome,
}
use aprs_wx.AprsIs.Decode.Header.{
  decode_body_inside, decode_header, packet_text, position_after_absent, string_terminate_by_start,
}
use aprs_wx.Double.{Double}
use aprs_wx.Packet.Position.{new_packet}
use aprs_wx.Packet.Report.{plain}
use aprs_wx.Packet.Status.{PacketStatus}
use aprs_wx.Prelude.{
  Bool-cases, Bytes, Exception, ap, arith, drop, drop-append_add, drop-drop, false, if◌then◌else◌,
  inl, inr, length, length-append, ltb, ltb-false, ltb→lt, lt→ltb, ok, suc, sym, take, throws, true,
  undefined, ℕ, ◌++◌, ◌+◌, ◌-◌, ◌<◌, ◌∙◌, ◌∷◌, ◌≡◌, ◌≤◌,
}
use aprs_wx.Std.Text.Access.{Fits, Lacks}
use native.Mathlib.Nat.{add_assoc}

module _ {F : Type 0} ⦃d : Double F⦄ (qth_lat qth_lon limit : F) (now : ℕ) where
  -- `decode` on a packet with a header in front of the first colon, a `>` behind the sender in it,
  -- a report discriminator, and at least 23 bytes behind it (30 with a date), at a station with all
  -- its settings. It returns a report of the sender: with the status `ErrorLatitude` or
  -- `ErrorLongitude` if that coordinate does not decode, and else with both coordinates, the
  -- distance, the bearing and the weight from the station, the symbol, and the values of the wind
  -- and of the fields that follow.
  pub decode_outcome :
      (sender path : Bytes) (x : ℕ) (body : Bytes)
      → Lacks b'>' sender
      → Lacks b':' (sender ++ b'>' ∷ path)
      → Fits (packet_text sender path x body)
      → is_report x ≡ true
      → date_length x + 23 ≤ length body
      → let s = drop (date_length x) body in
        ReportOutcome qth_lat qth_lon limit
          (coordinate latitude_ddm_msss s)
          (coordinate longitude_ddm_msss (drop 9 s))
          (decode
            (station_at qth_lat qth_lon limit)
            now
            (at_start (packet_text sender path x body)))
          (dated now sender (take (date_length x) body))
          s
  unfolding on_discriminator
  decode_outcome sender path x body h k f report long =
      let head = sender ++ b'>' ∷ path in
      let s = packet_text sender path x body in
      let size = length-append head (b':' ∷ x ∷ body) in
      let c : Cursor = record { packet = s; p0 = length head + 1 + 1; p1 = length sender } in
      let rest : drop (length head + 1 + 1) s ≡ body =
        rw (add_assoc (length head) 1 1) (drop-append_add head (b':' ∷ x ∷ body) 2) in
      let behind : drop (length head + 1 + 1 + date_length x) s ≡ drop (date_length x) body =
        sym (drop-drop (date_length x) (length head + 1 + 1) s) ∙ ap (drop (date_length x)) rest in
      rw (decode_header (station_at qth_lat qth_lon limit) now sender path x body h k f) (
        rw report (
          rw behind at (
            rw rest at
              (decode_report_outcome qth_lat qth_lon limit now sender x c f (omega arith)))))

module _ {F : Type 0} ⦃d : Double F⦄ (st : Station F) (now : ℕ) where
  -- The date may end behind the packet; the degrees are then out of range.
  decode_report_cut :
      (sender : Bytes) (x : ℕ) (c : Cursor)
      → Fits c.packet
      → c.p0 ≤ length c.packet
      → let left = length c.packet - c.p0 in
        left < date_length x + 7
        → decode_report st now sender x c
          ≡ (if ltb left (date_length x + 2) then throws Exception.out_of_range else undefined)
  unfolding decode_report
  decode_report_cut sender x c f h k =
      let left = length c.packet - c.p0 in
      let b : Cursor = advance (date_length x) c in
      rw (decode_date_inside x c f h) (elim (Bool-cases (ltb left (date_length x + 2))) [
        | inr long ↦
            let l = ltb-false left (date_length x + 2) long in
            rw long (rw (decode_coordinate_cut latitude_ddm_msss b f (omega arith) (omega arith)))
        | inl short ↦
            let l = ltb→lt left (date_length x + 2) short in
            rw short (elim (Bool-cases (ltb (length c.packet) (c.p0 + date_length x))) [
              | inl past ↦ rw (decode_coordinate_outside latitude_ddm_msss b (ltb→lt _ _ past))
              | inr inside ↦ rw (
                  decode_coordinate_short latitude_ddm_msss b f (ltb-false _ _ inside)
                    (omega arith))
            ])
      ])

  -- A packet with a `>` in its header and a report discriminator behind its first colon that ends
  -- before the place of the latitude's sign letter: `decode` throws `std::out_of_range` if not even
  -- the date and the degrees are there, and otherwise it reads outside the packet, which is
  -- undefined.
  pub decode_truncated :
      (sender path : Bytes) (x : ℕ) (body : Bytes)
      → Lacks b'>' sender
      → Lacks b':' (sender ++ b'>' ∷ path)
      → Fits (packet_text sender path x body)
      → is_report x ≡ true
      → length body < date_length x + 7
      → decode st now (at_start (packet_text sender path x body)) ≡ (
          if ltb (length body) (date_length x + 2)
          then throws Exception.out_of_range
          else undefined)
  unfolding on_discriminator
  decode_truncated sender path x body h k f report cut =
      let head = sender ++ b'>' ∷ path in
      let s = packet_text sender path x body in
      let size = length-append head (b':' ∷ x ∷ body) in
      let c : Cursor = record { packet = s; p0 = length head + 1 + 1; p1 = length sender } in
      let left : length s - (length head + 1 + 1) ≡ length body = omega arith in
      rw (decode_header st now sender path x body h k f)
        (rw report (rw (decode_report_cut sender x c f (omega arith) (omega arith)) (rw left)))

  -- A packet with a `>` behind its first byte and with no colon is decoded from its first byte: the
  -- call sign's first letter is taken for the discriminator, and if it is none of the four, the
  -- result has the status `DecodingError`.
  pub decode_no_colon :
      (y : ℕ) (sender path : Bytes)
      → Lacks b'>' (y ∷ sender)
      → Lacks b':' (y ∷ sender ++ b'>' ∷ path)
      → Fits (y ∷ sender ++ b'>' ∷ path)
      → is_report y ≡ false
      → decode st now (at_start (y ∷ sender ++ b'>' ∷ path))
        ≡ ok (
          plain (record (new_packet now) { packet_status = PacketStatus.decoding_error }),
          record { packet = y ∷ sender ++ b'>' ∷ path; p0 = 1; p1 = suc (length sender) },
        )
  unfolding decode on_discriminator
  decode_no_colon y sender path h k f other =
      let s = y ∷ sender ++ b'>' ∷ path in
      rw (string_terminate_by_start b'>' (y ∷ sender) path h f) (
        rw (position_after_absent b':' (record { packet = s; p0 = 0; p1 = suc (length sender) }) k)
          (rw (lt→ltb 0 (length s) (omega arith)) (
            rw
              (decode_body_inside st now (y ∷ sender)
                (record { packet = s; p0 = 0; p1 = suc (length sender) }) f (omega arith))
              (rw other))))
