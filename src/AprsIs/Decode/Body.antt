-- ===== src/AprsIs/Decode/Body.antt =====
-- The branch of the report discriminators in `decode` of src/APRS_IS.cpp.
use aprs_wx.AprsIs.Coordinate.{latitude_ddm_msss, longitude_ddm_msss}
use aprs_wx.AprsIs.Coordinate.Outcomes.{coordinate, decode_coordinate_inside}
use aprs_wx.AprsIs.Cursor.{Cursor, decode_string}
use aprs_wx.AprsIs.Cursor.Total.{advance, advance-zero, decode_char_at_index_inside}
use aprs_wx.AprsIs.Decode.{
  Station, decode_date, decode_longitude, decode_report, on_latitude, on_longitude, station_at,
  with_status,
}
use aprs_wx.AprsIs.Decode.Loop.{Reads}
use aprs_wx.AprsIs.Decode.Weather.{decode_weather_inside, located, placed, wind_slots}
use aprs_wx.Double.{Double}
use aprs_wx.Packet.Position.{Position, new_packet, new_position}
use aprs_wx.Packet.Report.{Packet, Slots, WxReport, no_values, wx}
use aprs_wx.Packet.Status.{PacketStatus}
use aprs_wx.Prelude.{
  Bool-cases, Bytes, Option, Option-cases, Outcome, ap, arith, drop, drop-drop, if◌then◌else◌, inl,
  inr, length, none, ok, refl, some, sym, take, ℕ, ◌+◌, ◌==◌, ◌||◌, ◌≡◌, ◌≤◌,
}
use aprs_wx.Std.Text.Access.{Fits, byte_at, byte_at-drop, size_add_exact, substr_inside}
use native.Mathlib.Nat.{add_assoc}

-- The length of the date and time, where the discriminator announces one.
abbrev pub date_length : ℕ → ℕ
date_length x = if x == b'@' || x == b'/' then 7 else 0

pub date_length-le : (x : ℕ) → date_length x ≤ 7
date_length-le x = ground arith

pub decode_date_inside :
    (x : ℕ) (c : Cursor)
    → Fits c.packet
    → c.p0 ≤ length c.packet
    → decode_date x c ≡ ok (take (date_length x) (drop c.p0 c.packet), advance (date_length x) c)
unfolding decode_string
decode_date_inside x c f h = elim (Bool-cases (x == b'@' || x == b'/')) [
  | inl dated ↦
      rw dated (rw (substr_inside c.packet c.p0 7 h) (rw (size_add_exact c.p0 7 (omega arith))))
  | inr plain_report ↦ rw plain_report (rw (advance-zero c))
]

-- What the constructor and the date leave in a report.
abbrev pub dated : {F : Type 0} → ℕ → Bytes → Bytes → WxReport F
dated now sender date = record {
  info = record (new_packet now) { name = sender };
  position = new_position;
  date_time = date;
  weather_value = no_values;
}

-- The report that is returned where the longitude does not decode.
abbrev pub half_placed : {F : Type 0} → F → ℕ → WxReport F → WxReport F
half_placed lat table r = record r {
  info = record (r.info) { sym_table_id = table };
  position = record new_position { lat = some lat };
}

-- The report that is returned where both coordinates decode.
abbrev pub completed :
    {F : Type 0} → Position F → (table code : ℕ) → Slots F → WxReport F → WxReport F
completed p table code v r = record r {
  info = record (r.info) {
    packet_status = PacketStatus.wx_packet;
    sym_table_id = table;
    sym_code = code;
  };
  position = p;
  weather_value = v;
}

module _ {F : Type 0} ⦃d : Double F⦄ (qth_lat qth_lon limit : F) where
  abbrev station : Station F
  station = station_at qth_lat qth_lon limit

  -- Behind a latitude that decoded; the coordinates start at the cursor `b`.
  on_latitude-some :
      (r : WxReport F) (lat : F) (b : Cursor)
      → Fits b.packet
      → r.position ≡ new_position
      → b.p0 + 17 ≤ length b.packet
      → let s = drop b.p0 b.packet in
        on_latitude station r (some lat) (advance 8 b)
        ≡ on_longitude station
            (half_placed lat (byte_at s 8) r)
            (coordinate longitude_ddm_msss (drop 9 s))
            (advance 18 b)
  unfolding on_latitude decode_longitude
  on_latitude-some r lat b f place h =
      rw (decode_char_at_index_inside (advance 8 b) f (omega arith)) (
        rw (decode_coordinate_inside longitude_ddm_msss (advance 1 (advance 8 b)) f (omega arith))
          (simp (drop-drop, byte_at-drop, place, add_assoc)))

  decode_report_inside :
      (now : ℕ) (sender : Bytes) (x : ℕ) (c : Cursor)
      → Fits c.packet
      → c.p0 + date_length x + 7 ≤ length c.packet
      → decode_report station now sender x c
        ≡ on_latitude station
            (dated now sender (take (date_length x) (drop c.p0 c.packet)))
            (coordinate latitude_ddm_msss (drop (c.p0 + date_length x) c.packet))
            (advance 8 (advance (date_length x) c))
  unfolding decode_report
  decode_report_inside now sender x c f h =
      rw (decode_date_inside x c f (omega arith)) (
        rw (decode_coordinate_inside latitude_ddm_msss (advance (date_length x) c) f (omega arith)))

  -- The outcome `run` of decoding a report whose text behind the date is `s`, by its two coordinates;
  -- `start` is the report before the coordinates are read.
  abbrev pub ReportOutcome :
      Option F → Option F → Outcome (Packet F × Cursor) → WxReport F → Bytes → Type 0
  ReportOutcome none lon run start s =
      (c' : Cursor) × (run ≡ ok (wx (with_status PacketStatus.error_latitude start), c'))
  ReportOutcome (some lat) none run start s =
      (c' : Cursor) × (run
        ≡ ok (
          wx (with_status PacketStatus.error_longitude (half_placed lat (byte_at s 8) start)),
          c',
        ))
  ReportOutcome (some lat) (some lon) run start s =
      (v : Slots F) × (n : ℕ) × (c' : Cursor) × (run
        ≡ ok (
          wx (
              completed (located qth_lat qth_lon limit lat lon) (byte_at s 8) (byte_at s 18) v
                start),
          c',
        ))
      × Reads (drop 26 s) (wind_slots (drop 19 s)) v n

  -- Behind a report that is decoded up to its longitude.
  weather_outcome :
      (start : WxReport F) (b : Cursor) (lat lon : F)
      → start.position ≡ new_position
      → start.weather_value ≡ no_values
      → Fits b.packet
      → b.p0 + 23 ≤ length b.packet
      → let s = drop b.p0 b.packet in
        ReportOutcome
          (some lat)
          (some lon)
          (on_longitude station (half_placed lat (byte_at s 8) start) (some lon) (advance 18 b))
          start
          s
  unfolding on_longitude
  weather_outcome start b lat lon place empty f h =
      let s = drop b.p0 b.packet in
      let r = half_placed lat (byte_at s 8) start in
      let (v, n, c', run, reads) =
        decode_weather_inside qth_lat qth_lon limit lat lon (record r { position = placed lat lon })
          (advance 18 b) refl empty f (omega arith) in
      let position = located qth_lat qth_lon limit lat lon in
      (
        v,
        n,
        c',
        rw run (
            ap (λ k. ok (wx (completed position (byte_at s 8) k v start), c'))
              (sym (byte_at-drop b.packet b.p0 18))),
        simp (drop-drop, add_assoc) (simp (drop-drop, add_assoc) at reads),
      )

  pub decode_report_outcome :
      (now : ℕ) (sender : Bytes) (x : ℕ) (c : Cursor)
      → Fits c.packet
      → c.p0 + date_length x + 23 ≤ length c.packet
      → let s = drop (c.p0 + date_length x) c.packet in
        ReportOutcome
          (coordinate latitude_ddm_msss s)
          (coordinate longitude_ddm_msss (drop 9 s))
          (decode_report station now sender x c)
          (dated now sender (take (date_length x) (drop c.p0 c.packet)))
          s
  unfolding on_latitude on_longitude
  decode_report_outcome now sender x c f h =
      let b : Cursor = advance (date_length x) c in
      let start : WxReport F = dated now sender (take (date_length x) (drop c.p0 c.packet)) in
      let s : Bytes = drop (c.p0 + date_length x) c.packet in
      let lat? : Option F = coordinate latitude_ddm_msss s in
      let lon? : Option F = coordinate longitude_ddm_msss (drop 9 s) in
      rw (decode_report_inside now sender x c f (omega arith)) (elim (Option-cases lat?) [
        | inl e ↦ rw e (advance 8 b, refl)
        | inr (lat, e) ↦ rw e (
            rw (on_latitude-some start lat b f refl (omega arith)) (elim (Option-cases lon?) [
              | inl e' ↦ rw e' (advance 18 b, refl)
              | inr (lon, e') ↦ rw e' (weather_outcome start b lat lon refl refl f (omega arith))
            ]))
      ])
