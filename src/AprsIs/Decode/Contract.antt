-- ===== src/AprsIs/Decode/Contract.antt =====
-- What the callers of `decode` of src/APRS_IS.cpp rely on.
use aprs_wx.AprsIs.Coordinate.{decode_coordinate, latitude_ddm_msss, longitude_ddm_msss}
use aprs_wx.AprsIs.Cursor.{
  Cursor, decode_char_at_index, decode_double, position_after, string_terminate_by,
}
use aprs_wx.AprsIs.Decode.{
  decode, decode_body, decode_date, decode_longitude, decode_report, decode_weather,
  decode_weather_value, decode_wind, is_report, on_discriminator, on_flag, on_latitude,
  on_longitude, station_at, wx_loop,
}
use aprs_wx.AprsIs.Decode.Weather.{finish_report-located, located, placed}
use aprs_wx.Double.{Double, whole}
use aprs_wx.Packet.Items.{
  WeatherItem, WxSym, find_flag, item_at, sym_index, weather_item_list, wind_direction, wind_speed,
}
use aprs_wx.Packet.Position.{Position, new_position}
use aprs_wx.Packet.Report.{Packet, WxReport, plain, wx}
use aprs_wx.Packet.Status.{PacketStatus}
use aprs_wx.Prelude.{
  Bool-cases, Bytes, Ensures, Ensures->>=, Ensures-next, Option, Outcome, inl, inr, length, ltb,
  none, not, refl, some, suc, zero, ℕ, ◌&&◌, ◌==◌, ◌∙◌, ◌≡◌, ◌⊎◌,
}
use aprs_wx.Std.Text.{npos, size_add}
use mathlib.Core.Path.{subst}

module _ {F : Type 0} ⦃d : Double F⦄ where
  -- The loop and the wind leave all but the values alone.
  abbrev Stands : Position F → WxReport F × Cursor → Type 0
  Stands p a = (a.0).position ≡ p

  abbrev SamePlace : WxReport F → WxReport F × Cursor → Type 0
  SamePlace r = Stands r.position

  Ensures-Stands :
      (m : Outcome (WxReport F × Cursor)) {p q : Position F}
      → p ≡ q
      → Ensures (Stands p) m
      → Ensures (Stands q) m
  Ensures-Stands m e = subst (λ p. Ensures (Stands p) m) e

  decode_weather_value-SamePlace :
      (s : WxSym) (flag : ℕ) (factor : F) (r : WxReport F) (c : Cursor)
      → Ensures (SamePlace r) (decode_weather_value s flag factor r c)
  unfolding decode_weather_value
  decode_weather_value-SamePlace s flag factor r c =
      Ensures-next (SamePlace r) (item_at (sym_index s)) _
        λ it. Ensures-next (SamePlace r) (decode_double it.digits factor c) _ λ a. refl

  decode_wind-SamePlace : (r : WxReport F) (c : Cursor) → Ensures (SamePlace r) (decode_wind r c)
  unfolding decode_wind
  decode_wind-SamePlace r c =
      Ensures->>= (SamePlace r) (SamePlace r) (decode_weather_value wind_direction 0 (whole 1) r c)
        _ (decode_weather_value-SamePlace wind_direction 0 (whole 1) r c)
        λ a same.
          let c' = record (a.1) { p0 = size_add (a.1).p0 1 } in
          Ensures-Stands (decode_weather_value wind_speed 0 (whole 1) a.0 c') same
            (decode_weather_value-SamePlace wind_speed 0 (whole 1) a.0 c')

  on_flag-SamePlace :
      (again : WxReport F → Cursor → Outcome (WxReport F × Cursor))
      → ((r : WxReport F) (c : Cursor) → Ensures (SamePlace r) (again r c))
      → (r : WxReport F) (flag : ℕ) (o : Option WeatherItem) (c : Cursor)
      → Ensures (SamePlace r) (on_flag again r flag o c)
  unfolding on_flag
  on_flag-SamePlace again h r flag none c = refl
  on_flag-SamePlace again h r flag (some it) c =
      Ensures->>= (SamePlace r) (SamePlace r)
        (decode_weather_value it.wx_sym flag (whole it.factor) r c) _
        (decode_weather_value-SamePlace it.wx_sym flag (whole it.factor) r c)
        λ a same. Ensures-Stands (again a.0 a.1) same (h a.0 a.1)

  wx_loop-SamePlace :
      (fuel : ℕ) (r : WxReport F) (c : Cursor) → Ensures (SamePlace r) (wx_loop fuel r c)
  unfolding wx_loop
  wx_loop-SamePlace zero r c = tt
  wx_loop-SamePlace (suc fuel) r c = elim (Bool-cases (ltb c.p0 (length c.packet))) [
    | inr past ↦ rw past refl
    | inl inside ↦ rw inside (
        Ensures-next (SamePlace r) (decode_char_at_index c) _ λ a.
          on_flag-SamePlace (wx_loop fuel) (wx_loop-SamePlace fuel) r a.0
            (find_flag weather_item_list a.0) a.1)
  ]

module _ {F : Type 0} ⦃d : Double F⦄ (qth_lat qth_lon limit : F) where
  -- A report is placed and weighed, or it carries an error status.
  abbrev pub IsWeighed : WxReport F → Type 0
  IsWeighed r =
      (r.info.packet_status ≡ PacketStatus.wx_packet)
      × (lat : F) × (lon : F) × (r.position ≡ located qth_lat qth_lon limit lat lon)

  abbrev pub IsRejected : PacketStatus → Type 0
  IsRejected s = (s ≡ PacketStatus.error_latitude) ⊎ (s ≡ PacketStatus.error_longitude)

  abbrev pub IsDecoded : Packet F → Type 0
  IsDecoded (plain p) =
      (p.packet_status ≡ PacketStatus.none) ⊎ (p.packet_status ≡ PacketStatus.decoding_error)
  IsDecoded (wx r) = IsWeighed r ⊎ IsRejected r.info.packet_status

  abbrev Decoded : Packet F × Cursor → Type 0
  Decoded a = IsDecoded a.0

  decode_weather-IsDecoded :
      (lat lon : F) (r : WxReport F) (c : Cursor)
      → r.position ≡ placed lat lon
      → Ensures Decoded (decode_weather (station_at qth_lat qth_lon limit) r c)
  unfolding decode_weather
  decode_weather-IsDecoded lat lon r c place =
      let st = station_at qth_lat qth_lon limit in
      Ensures-next Decoded (decode_char_at_index c) _ λ a.
        let r1 : WxReport F = record r { info = record (r.info) { sym_code = a.0 } } in
        Ensures->>= (SamePlace r) Decoded (decode_wind r1 a.1) _ (decode_wind-SamePlace r1 a.1)
          λ b s.
            Ensures->>= (SamePlace r) Decoded (wx_loop (suc (length c.packet)) b.0 b.1) _
              (Ensures-Stands (wx_loop (suc (length c.packet)) b.0 b.1) s
                (wx_loop-SamePlace (suc (length c.packet)) b.0 b.1))
              λ e t.
                rw (finish_report-located qth_lat qth_lon limit lat lon e.0 (t ∙ place))
                  (inl (refl, lat, lon, refl))

  on_longitude-IsDecoded :
      (lat : F) (r : WxReport F) (lon : Option F) (c : Cursor)
      → r.position ≡ record new_position { lat = some lat }
      → Ensures Decoded (on_longitude (station_at qth_lat qth_lon limit) r lon c)
  unfolding on_longitude
  on_longitude-IsDecoded lat r none c place = inr (inr refl)
  on_longitude-IsDecoded lat r (some lon) c place =
      decode_weather-IsDecoded lat lon
        (record r { position = record (r.position) { lon = some lon } }) c (rw place)

  on_latitude-IsDecoded :
      (r : WxReport F) (lat : Option F) (c : Cursor)
      → r.position ≡ new_position
      → Ensures Decoded (on_latitude (station_at qth_lat qth_lon limit) r lat c)
  unfolding on_latitude decode_longitude
  on_latitude-IsDecoded r none c place = inr (inl refl)
  on_latitude-IsDecoded r (some lat) c place = Ensures-next Decoded (decode_char_at_index c) _ λ a.
      Ensures-next Decoded (decode_coordinate longitude_ddm_msss a.1) _
        λ b. on_longitude-IsDecoded lat _ b.0 b.1 (rw place)

  decode_report-IsDecoded :
      (now : ℕ) (sender : Bytes) (x : ℕ) (c : Cursor)
      → Ensures Decoded (decode_report (station_at qth_lat qth_lon limit) now sender x c)
  unfolding decode_report
  decode_report-IsDecoded now sender x c = Ensures-next Decoded (decode_date x c) _ λ a.
      Ensures-next Decoded (decode_coordinate latitude_ddm_msss a.1) _
        λ b. on_latitude-IsDecoded _ b.0 b.1 refl

  decode_body-IsDecoded :
      (now : ℕ) (sender : Bytes) (c : Cursor)
      → Ensures Decoded (decode_body (station_at qth_lat qth_lon limit) now sender c)
  unfolding decode_body on_discriminator
  decode_body-IsDecoded now sender c = Ensures-next Decoded (decode_char_at_index c) _ λ a.
      elim (Bool-cases (is_report a.0)) [
        | inl report ↦ rw report (decode_report-IsDecoded now sender a.0 a.1)
        | inr other ↦ rw other (inr refl)
      ]

  -- At a station with all its settings, on every packet and from every position: if `decode` returns,
  -- it returns a plain packet with the status `None` or `DecodingError`, or a weather report. The
  -- report has an error status, or the status `WxPacket` with both coordinates, the distance, the
  -- bearing and the weight.
  pub decode-IsDecoded :
      (now : ℕ) (c : Cursor)
      → Ensures (λ a. IsDecoded a.0) (decode (station_at qth_lat qth_lon limit) now c)
  unfolding decode
  decode-IsDecoded now c = Ensures-next Decoded (string_terminate_by b'>' c) _ λ a.
      let c' = position_after b':' a.1 in
      elim (Bool-cases (ltb c'.p0 (length c'.packet) && not (c'.p0 == npos))) [
        | inl inside ↦ rw inside (decode_body-IsDecoded now a.0 c')
        | inr past ↦ rw past (inl refl)
      ]
