-- ===== src/AprsIs/Decode.antt =====
-- `decode` of src/APRS_IS.cpp and `decodeWeatherValue` of src/APRS_Packet.cpp.
pub mod Loop
pub mod Weather
pub mod Body
pub mod Header
pub mod Packets
pub mod Contract
use aprs_wx.AprsIs.Coordinate.{decode_coordinate, latitude_ddm_msss, longitude_ddm_msss}
use aprs_wx.AprsIs.Cursor.{
  Cursor, decode_char_at_index, decode_double, decode_string, position_after, string_terminate_by,
}
use aprs_wx.Double.{Double, whole, ◌⊕◌, ◌⊖◌, ◌⊗◌, ◌⊘◌}
use aprs_wx.Packet.Items.{
  WeatherItem, WxSym, find_flag, item_at, sym_index, weather_item_list, wind_direction, wind_speed,
}
use aprs_wx.Packet.Position.{Position, new_packet, new_position, set_bearing_distance}
use aprs_wx.Packet.Report.{Packet, Slots, WxReport, no_values, plain, set_slot, wx}
use aprs_wx.Packet.Status.{PacketStatus}
use aprs_wx.Prelude.{
  Bool, Bytes, Option, Outcome, [], if◌then◌else◌, length, ltb, none, not, ok, some, suc,
  unfinished, zero, ℕ, ◌&&◌, ◌==◌, ◌>>=◌, ◌||◌,
}
use aprs_wx.Std.Text.{npos, size_add, size_sub}

-- `mQthPosition` and `mRadius`.
pub record Station (F : Type 0) : Type 0 where
  pub qth_position : Position F
  pub radius : Option F

-- The date and time, where the discriminator announces one.
abbrev pub decode_date : ℕ → Cursor → Outcome (Bytes × Cursor)
decode_date x c = if x == b'@' || x == b'/' then decode_string 7 c else ok ([], c)

-- The members as `main` sets them before it opens the connection.
abbrev pub station_at : {F : Type 0} → F → F → F → Station F
station_at lat lon radius = record {
  qth_position = record new_position { lat = some lat; lon = some lon };
  radius = some radius;
}

-- The discriminators of position reports.
abbrev pub is_report : ℕ → Bool
is_report x = x == b'!' || x == b'=' || x == b'@' || x == b'/'

module _ {F : Type 0} ⦃d : Double F⦄ where
  -- What `decodeWeatherValue` stores; `flag` is 0 where the caller names none.
  abbrev pub ranged : ℕ → F → F
  ranged flag v = if flag == b'l' then v ⊕ whole 1000 else v

  abbrev pub store_value : ℕ → ℕ → Option F → Slots F → Slots F
  store_value i flag none values = values
  store_value i flag (some v) values = set_slot values i (ranged flag v)

  unfoldable pub decode_weather_value :
      WxSym → ℕ → F → WxReport F → Cursor → Outcome (WxReport F × Cursor)
  decode_weather_value s flag factor r c = do
    it ← item_at (sym_index s)
    (number, c') ← decode_double it.digits factor c
    ok (record r { weather_value = store_value (sym_index s) flag number r.weather_value }, c')

  -- One round of the `while (inWx ...)` loop, behind the search for the flag; `again` is the loop.
  -- `WeatherValueError` is thrown nowhere, so its handler never runs.
  unfoldable pub on_flag :
      (WxReport F → Cursor → Outcome (WxReport F × Cursor))
      → WxReport F
      → ℕ
      → Option WeatherItem
      → Cursor
      → Outcome (WxReport F × Cursor)
  on_flag again r flag none c = ok (r, c)
  on_flag again r flag (some it) c = do
    (r', c') ← decode_weather_value it.wx_sym flag (whole it.factor) r c
    again r' c'

  unfoldable pub wx_loop : ℕ → WxReport F → Cursor → Outcome (WxReport F × Cursor)
  unfolding on_flag
  wx_loop zero r c = unfinished
  wx_loop (suc fuel) r c =
      let body = (do
        (flag, c') ← decode_char_at_index c
        on_flag (wx_loop fuel) r flag (find_flag weather_item_list flag) c') in
      if ltb c.p0 (length c.packet) then body else ok (r, c)

  -- `mRadius` and `mDistance` give the weight of the report.
  unfoldable pub hann_weight : F → F → F
  hann_weight limit distance =
      let hann = d.sin (d.pi ⊗ (limit ⊖ distance) ⊘ (limit ⊗ whole 2)) in hann ⊗ hann

  abbrev pub weight : Option F → Option F → Option F → Option F
  weight (some limit) (some distance) old = some (hann_weight limit distance)
  weight none distance old = old
  weight (some limit) none old = old

  -- From `setBearingDistance` to the return.
  unfoldable pub finish_report : Station F → WxReport F → Outcome (WxReport F)
  finish_report st r = do
    (_, p) ← set_bearing_distance r.position st.qth_position
    ok (record r {
      position = record p { hann_value = weight st.radius p.distance p.hann_value };
      info = record (r.info) { packet_status = PacketStatus.wx_packet };
    })

  -- The wind direction, the byte behind it, and the wind speed.
  unfoldable pub decode_wind : WxReport F → Cursor → Outcome (WxReport F × Cursor)
  decode_wind r c = do
    (r', c') ← decode_weather_value wind_direction 0 (whole 1) r c
    decode_weather_value wind_speed 0 (whole 1) r' (record c' { p0 = size_add c'.p0 1 })

  -- From the symbol code on. The loop gets fuel for every byte of the packet.
  unfoldable pub decode_weather : Station F → WxReport F → Cursor → Outcome (Packet F × Cursor)
  decode_weather st r c = do
    (code, c1) ← decode_char_at_index c
    let r1 = record r { info = record (r.info) { sym_code = code } }
    (r2, c2) ← decode_wind r1 c1
    (r3, c3) ← wx_loop (suc (length c.packet)) r2 c2
    r4 ← finish_report st r3
    ok (wx r4, record c3 { p0 = size_sub c3.p0 1 })

  abbrev pub with_status : PacketStatus → WxReport F → WxReport F
  with_status s r = record r { info = record (r.info) { packet_status = s } }

  -- `if (auto res = decodeCoordinate(LongitudeDDMMsss))`, on the result.
  unfoldable pub on_longitude :
      Station F → WxReport F → Option F → Cursor → Outcome (Packet F × Cursor)
  on_longitude st r none c = ok (wx (with_status PacketStatus.error_longitude r), c)
  on_longitude st r (some lon) c =
      decode_weather st (record r { position = record (r.position) { lon = some lon } }) c

  unfoldable pub decode_longitude : Station F → WxReport F → Cursor → Outcome (Packet F × Cursor)
  unfolding on_longitude
  decode_longitude st r c = do
    (table, c1) ← decode_char_at_index c
    let r1 = record r { info = record (r.info) { sym_table_id = table } }
    (lon, c2) ← decode_coordinate longitude_ddm_msss c1
    on_longitude st r1 lon c2

  -- `if (auto res = decodeCoordinate(LatitudeDDMMsss))`, on the result.
  unfoldable pub on_latitude :
      Station F → WxReport F → Option F → Cursor → Outcome (Packet F × Cursor)
  on_latitude st r none c = ok (wx (with_status PacketStatus.error_latitude r), c)
  on_latitude st r (some lat) c =
      decode_longitude st (record r { position = record (r.position) { lat = some lat } }) c

  -- The branch of the four report discriminators, behind the discriminator `x`.
  unfoldable pub decode_report : Station F → ℕ → Bytes → ℕ → Cursor → Outcome (Packet F × Cursor)
  unfolding on_latitude
  decode_report st now sender x c = do
    (date, c1) ← decode_date x c
    (lat, c2) ← decode_coordinate latitude_ddm_msss c1
    on_latitude st
        (record {
          info = record (new_packet now) { name = sender };
          position = new_position;
          date_time = date;
          weather_value = no_values;
        })
        lat c2

  -- The `switch` on the discriminator.
  unfoldable pub on_discriminator : Station F → ℕ → Bytes → ℕ → Cursor → Outcome (Packet F × Cursor)
  on_discriminator st now sender x c =
      if is_report x
      then decode_report st now sender x c
      else ok (plain (record (new_packet now) { packet_status = PacketStatus.decoding_error }), c)

  -- The body of the `while` loop. Every branch of it returns, so it runs at most once.
  unfoldable pub decode_body : Station F → ℕ → Bytes → Cursor → Outcome (Packet F × Cursor)
  unfolding on_discriminator
  decode_body st now sender c = do
    (x, c') ← decode_char_at_index c
    on_discriminator st now sender x c'

  unfoldable pub decode : Station F → ℕ → Cursor → Outcome (Packet F × Cursor)
  unfolding decode_body
  decode st now c = do
    (sender, c1) ← string_terminate_by b'>' c
    let c2 = position_after b':' c1
    let inside = ltb c2.p0 (length c2.packet) && not (c2.p0 == npos)
    if inside then decode_body st now sender c2 else ok (plain (new_packet now), c2)
