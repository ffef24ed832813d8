-- ===== src/Socket.antt =====
-- The receiving side of the connection, in src/APRS_IS.cpp and src/basic_socket.h.
pub mod Receive
pub mod Opening
pub mod Peers
pub mod Object
