-- ===== src/Packet.antt =====
-- src/APRS_Packet.h and src/APRS_Packet.cpp: the report types and the weather value table.
pub mod Status
pub mod Items
pub mod Table
pub mod Convert
pub mod Position
pub mod Report
pub mod Print
