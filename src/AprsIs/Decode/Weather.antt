-- ===== src/AprsIs/Decode/Weather.antt =====
-- `decode` of src/APRS_IS.cpp from the symbol code on, with the weight of the report.
use aprs_wx.AprsIs.Cursor.{Cursor, divided}
use aprs_wx.AprsIs.Cursor.Total.{advance, decode_char_at_index_inside}
use aprs_wx.AprsIs.Decode.{
  decode_weather, decode_wind, finish_report, hann_weight, station_at, store_value,
}
use aprs_wx.AprsIs.Decode.Loop.{Reads, decode_weather_value_inside, wx_loop-Reads}
use aprs_wx.Double.{Double, whole}
use aprs_wx.Packet.Convert.{converted}
use aprs_wx.Packet.Items.{item_at, wind_direction, wind_speed}
use aprs_wx.Packet.Position.{
  Position, bearing_between, deg2rad, distance_between, new_position, set_bearing_distance,
}
use aprs_wx.Packet.Report.{Slots, WxReport, no_values, wx}
use aprs_wx.Packet.Status.{PacketStatus}
use aprs_wx.Prelude.{
  Bytes, arith, drop, drop-drop, length, ok, refl, some, suc, take, ℕ, ◌+◌, ◌≡◌, ◌≤◌,
}
use aprs_wx.Std.Text.{size_sub}
use aprs_wx.Std.Text.Access.{Fits, byte_at, size_add_exact}
use mathlib.Core.Path.{subst}
use native.Mathlib.Nat.{add_assoc}

module _ {F : Type 0} ⦃d : Double F⦄ where
  -- A position at `lat` and `lon`, measured from the station and weighed.
  abbrev pub located : (qth_lat qth_lon limit lat lon : F) → Position F
  located qth_lat qth_lon limit lat lon =
      let lat1 = deg2rad qth_lat in
      let lon1 = deg2rad qth_lon in
      let lat2 = deg2rad lat in
      let lon2 = deg2rad lon in
      record {
        lat = some lat;
        lon = some lon;
        distance = some (distance_between lat1 lon1 lat2 lon2);
        bearing = some (bearing_between lat1 lon1 lat2 lon2);
        hann_value = some (hann_weight limit (distance_between lat1 lon1 lat2 lon2));
      }

  -- The position before it is measured.
  abbrev pub placed : F → F → Position F
  placed lat lon = record new_position { lat = some lat; lon = some lon }

  pub finish_report-located :
      (qth_lat qth_lon limit lat lon : F) (r : WxReport F)
      → r.position ≡ placed lat lon
      → finish_report (station_at qth_lat qth_lon limit) r
        ≡ ok (record r {
          position = located qth_lat qth_lon limit lat lon;
          info = record (r.info) { packet_status = PacketStatus.wx_packet };
        })
  unfolding finish_report set_bearing_distance
  finish_report-located qth_lat qth_lon limit lat lon r h = rw h

  -- The slots behind the wind direction and the wind speed at the head of `s`.
  abbrev pub wind_slots : Bytes → Slots F
  wind_slots s =
      store_value 1 0 (divided (whole 1) (converted (take 3 (drop 4 s))))
        (store_value 0 0 (divided (whole 1) (converted (take 3 s))) no_values)

  decode_wind_inside :
      (r : WxReport F) (c : Cursor)
      → r.weather_value ≡ no_values
      → Fits c.packet
      → c.p0 + 4 ≤ length c.packet
      → decode_wind r c
        ≡ ok (record r { weather_value = wind_slots (drop c.p0 c.packet) }, advance 7 c)
  unfolding decode_wind item_at
  decode_wind_inside r c empty f h =
      rw
        (decode_weather_value_inside wind_direction 3 0 (whole 1) r c refl (omega arith) f
          (omega arith))
        (rw (size_add_exact (c.p0 + 3) 1 (omega arith)) (
          rw
            (decode_weather_value_inside wind_speed 3 0 (whole 1)
              (record r {
                weather_value =
                    store_value 0 0 (divided (whole 1) (converted (take 3 (drop c.p0 c.packet))))
                      r.weather_value;
              })
              (advance 1 (advance 3 c)) refl (omega arith) f (omega arith))
            (rw empty (simp (drop-drop, add_assoc)))))

  -- `decode_weather` on a report with no values yet, where the text has room for the symbol code, the
  -- wind direction and one more byte.
  pub decode_weather_inside :
      (qth_lat qth_lon limit lat lon : F) (r : WxReport F) (c : Cursor)
      → r.position ≡ placed lat lon
      → r.weather_value ≡ no_values
      → Fits c.packet
      → c.p0 + 5 ≤ length c.packet
      → (v : Slots F) × (n : ℕ) × (c' : Cursor) × (decode_weather
            (station_at qth_lat qth_lon limit)
            r
            c
          ≡ ok (
            wx (record r {
              position = located qth_lat qth_lon limit lat lon;
              info = record (r.info) {
                packet_status = PacketStatus.wx_packet;
                sym_code = byte_at c.packet c.p0;
              };
              weather_value = v;
            }),
            c',
          ))
        × Reads (drop (c.p0 + 8) c.packet) (wind_slots (drop (c.p0 + 1) c.packet)) v n
  unfolding decode_weather
  decode_weather_inside qth_lat qth_lon limit lat lon r c place empty f h =
      let r1 = record r { info = record (r.info) { sym_code = byte_at c.packet c.p0 } } in
      let wind = wind_slots (drop (c.p0 + 1) c.packet) in
      let (v, n, run, reads) =
        wx_loop-Reads (suc (length c.packet)) (record r1 { weather_value = wind })
          (advance 7 (advance 1 c)) f (omega arith) in
      (
        v,
        n,
        record c { p0 = size_sub (c.p0 + 1 + 7 + n) 1 },
        rw (decode_char_at_index_inside c f (omega arith)) (
            rw (decode_wind_inside r1 (advance 1 c) empty f (omega arith)) (
              rw run (
                rw (
                  finish_report-located qth_lat qth_lon limit lat lon
                    (record r1 { weather_value = v }) place)))),
        subst (λ k. Reads (drop k c.packet) wind v n) (add_assoc c.p0 1 7) reads,
      )
