-- ===== src/Packet/Report.antt =====
-- `APRS_WX_Report` of src/APRS_Packet.h, and the packets that `decode` returns.
use aprs_wx.Packet.Position.{PacketInfo, Position, new_packet, new_position}
use aprs_wx.Packet.Status.{PacketStatus}
use aprs_wx.Prelude.{Bytes, Option, [], if◌then◌else◌, none, some, ℕ, ◌==◌}

-- `mWeatherValue`: thirteen slots, of which an index of `sym_index` names one.
abbrev pub Slots : Type 0 → Type 0
Slots F = ℕ → Option F

abbrev pub no_values : {F : Type 0} → Slots F
no_values i = none

abbrev pub set_slot : {F : Type 0} → Slots F → ℕ → F → Slots F
set_slot f i v j = if i == j then some v else f j

-- `class APRS_WX_Report`, with the fields of its bases as parts.
pub record WxReport (F : Type 0) : Type 0 where
  pub info : PacketInfo
  pub position : Position F
  pub date_time : Bytes
  pub weather_value : Slots F

abbrev pub new_report : {F : Type 0} → ℕ → WxReport F
new_report now = record {
  info = new_packet now;
  position = new_position;
  date_time = [];
  weather_value = no_values;
}

-- What a `unique_ptr<APRS_Packet>` points to.
pub data Packet (F : Type 0) : Type 0 where
  plain : PacketInfo → Packet F
  wx : WxReport F → Packet F

-- `status()`.
abbrev pub status : {F : Type 0} → Packet F → PacketStatus
status (plain p) = p.packet_status
status (wx r) = r.info.packet_status
