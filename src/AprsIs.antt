-- ===== src/AprsIs.antt =====
-- src/APRS_IS.h and src/APRS_IS.cpp: the packet cursor, the decoder and the connection.
pub mod Cursor
pub mod Coordinate
pub mod Decode
