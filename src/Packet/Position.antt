-- ===== src/Packet/Position.antt =====
-- `APRS_Packet`, `APRS_Position` and `setBearingDistance` of src/APRS_Packet.h and .cpp.
use aprs_wx.Double.{Double, whole, ◌⊕◌, ◌⊖◌, ◌⊗◌, ◌⊘◌}
use aprs_wx.Packet.Status.{PacketStatus}
use aprs_wx.Prelude.{
  Bool, Bytes, Option, Outcome, [], false, has_value, if◌then◌else◌, none, ok, some, true, value, ℕ,
  ◌&&◌, ◌>>=◌,
}

-- `class APRS_Packet`. Times are points of the steady clock.
pub record PacketInfo : Type 0 where
  pub packet_status : PacketStatus
  pub name : Bytes
  pub sym_table_id : ℕ
  pub sym_code : ℕ
  pub time_point : ℕ

-- `APRS_Packet()`, at time `now`.
abbrev pub new_packet : ℕ → PacketInfo
new_packet now = record {
  packet_status = PacketStatus.none;
  name = [];
  sym_table_id = 0;
  sym_code = 0;
  time_point = now;
}

-- `class APRS_Position`, less the fields of its base class.
pub record Position (F : Type 0) : Type 0 where
  pub lat : Option F
  pub lon : Option F
  pub distance : Option F
  pub bearing : Option F
  pub hann_value : Option F

abbrev pub new_position : {F : Type 0} → Position F
new_position = record { lat = none; lon = none; distance = none; bearing = none; hann_value = none }

module _ {F : Type 0} ⦃d : Double F⦄ where
  unfoldable pub rad2deg : F → F
  rad2deg r = whole 180 ⊗ (r ⊘ d.pi)

  unfoldable pub deg2rad : F → F
  deg2rad x = d.pi ⊗ (x ⊘ whole 180)

  -- The haversine angle between two points, in radians, times the radius of the earth.
  unfoldable pub distance_between : (lat1 lon1 lat2 lon2 : F) → F
  distance_between lat1 lon1 lat2 lon2 =
      let sin_lat = d.sin ((lat1 ⊖ lat2) ⊘ whole 2) in
      let sin_lat_sq = sin_lat ⊗ sin_lat in
      let sin_lon = d.sin ((lon1 ⊖ lon2) ⊘ whole 2) in
      let sin_lon_sq = sin_lon ⊗ sin_lon in
      let d1 = whole 2 ⊗ d.asin (d.sqrt (sin_lat_sq ⊕ d.cos lat1 ⊗ d.cos lat2 ⊗ sin_lon_sq)) in
      d1 ⊗ whole 6371

  -- `if (tc < 0.) tc = 2. * M_PI + tc`.
  unfoldable pub wrap_course : F → F
  wrap_course tc = if d.lt tc (whole 0) then whole 2 ⊗ d.pi ⊕ tc else tc

  -- The initial course from the first point to the second, in degrees.
  unfoldable pub bearing_between : (lat1 lon1 lat2 lon2 : F) → F
  unfolding wrap_course rad2deg
  bearing_between lat1 lon1 lat2 lon2 =
      let dlon = lon2 ⊖ lon1 in
      let tc =
        d.atan2 (d.sin dlon ⊗ d.cos lat2)
          (d.cos lat1 ⊗ d.sin lat2 ⊖ d.sin lat1 ⊗ d.cos lat2 ⊗ d.cos dlon) in
      rad2deg (wrap_course tc)

  -- The body of the guarded branch of `setBearingDistance`.
  unfoldable pub measure_from : Position F → Position F → Outcome (Bool × Position F)
  measure_from p other = do
    this_lat ← value p.lat
    this_lon ← value p.lon
    other_lat ← value other.lat
    other_lon ← value other.lon
    let lat2 = deg2rad this_lat
    let lon2 = deg2rad this_lon
    let lat1 = deg2rad other_lat
    let lon1 = deg2rad other_lon
    ok (
      true,
      record p {
        distance = some (distance_between lat1 lon1 lat2 lon2);
        bearing = some (bearing_between lat1 lon1 lat2 lon2);
      },
    )

  -- `APRS_Position::setBearingDistance`: the result, and the position with its new fields. The guard
  -- tests the longitude twice.
  unfoldable pub set_bearing_distance : Position F → Position F → Outcome (Bool × Position F)
  unfolding measure_from
  set_bearing_distance p other =
      if has_value p.lon && has_value p.lon && has_value other.lat && has_value other.lon
      then measure_from p other
      else ok (false, p)
