-- ===== src/Packet/Status.antt =====
-- `PacketStatus` of src/APRS_Packet.h.

-- `enum class PacketStatus`.
pub data PacketStatus : Type 0 where
  none : PacketStatus
  aprs_packet : PacketStatus
  position_packet : PacketStatus
  wx_packet : PacketStatus
  decoding_error : PacketStatus
  error_latitude : PacketStatus
  error_longitude : PacketStatus
